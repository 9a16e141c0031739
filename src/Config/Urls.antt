-- ===== src/Config/Urls.antt =====
-- The texts that are split and escaped.
use Prim.Native.Char.{code}
use monitoring_tool.Prelude.{
  ℕ, ◌+◌, ◌≡◌, refl, inl, inr, Bool-cases, String, ◌<>◌, arith, ◌==◌, count_by, count_by-append,
}
use monitoring_tool.Text.{codes, codes-<>, show_ℤ}
use monitoring_tool.Config.{PostgresConfig, migration_database_url}
use monitoring_tool.Text.Scan.{replace_at}

-- How many @ a text has.
abbrev pub ats : String → ℕ
ats s = count_by (λ c. c == b'@') (codes s)

-- No @ of a password is left in the database URL.
pub ats-replace_at : (s : String) → ats (replace_at s) ≡ 0
unfolding codes replace_at
ats-replace_at String.[] = refl
ats-replace_at (String.◌∷◌ c s) = elim (Bool-cases (code c == b'@')) [
  | inl at ↦ rw at (rw (codes-<> "%40" (replace_at s)) (omega (arith, ats-replace_at s)))
  | inr other ↦ rw other (rw other (omega (arith, ats-replace_at s)))
]

ats-<> : (s t : String) → ats (s <> t) ≡ ats s + ats t
ats-<> s t = rw (codes-<> s t) (count_by-append (λ c. c == b'@') (codes s) (codes t))

-- The database URL has one @ more than its user, host, port, database and mode together: the one
-- between the password and the host, whatever the password.
pub ats-migration_database_url :
    (c : PostgresConfig)
    → ats (migration_database_url c)
      ≡ ats c.user + ats c.host + ats (show_ℤ c.port) + ats c.database + ats c.ssl_mode + 1
unfolding migration_database_url codes
ats-migration_database_url c = simp (ats-<>, ats-replace_at) (omega arith)
