-- ===== src/Startup/Migrations.antt =====
-- `runMigrations` and `initDatabase` of cmd/monitoring-tool/init.go, over what golang-migrate answers.
use monitoring_tool.Prelude.{
  ◌≡◌, refl, inl, inr, Bool-cases, List, [], ◌∷◌, ◌++◌, String, ◌<>◌, Option, none, some, arith,
  ◌==◌, ap, if◌then◌else◌,
}
use Prim.Native.Char.{code}
use monitoring_tool.Results.{Result, ok, err, panics}
use monitoring_tool.Text.{show_ℤ, codes}
use monitoring_tool.Text.Scan.{replace_at}
use monitoring_tool.Collector.Objects.{concat}
use monitoring_tool.Config.{PostgresConfig, migration_database_url, connection_string}
use monitoring_tool.Config.Urls.{ats}
use monitoring_tool.Storage.{Backend, get_postgres_instance}

-- The errors of `Up`: migrate.ErrNoChange, and any other.
pub data UpError : Type 0 where
  no_change : UpError
  up_failed : String → UpError

-- How package migrate answers: the error of `New` for a source and a database, and that of `Up`.
pub record Migrator : Type 0 where
  pub new_migrate : String → String → Option String
  pub up : Option UpError

abbrev pub source_url : String
source_url = "file://migrations"

unfoldable pub database_url : PostgresConfig → String
database_url c = concat (
    "postgres://"
    ∷ c.user
    ∷ ":"
    ∷ c.password
    ∷ "@"
    ∷ c.host
    ∷ ":"
    ∷ show_ℤ c.port
    ∷ "/"
    ∷ c.database
    ∷ "?sslmode=disable"
    ∷ [])

-- The last test looks at the `err` of `New`: the one of `Up` has its own scope.
abbrev closing_line : Option UpError → String
closing_line (some no_change) = "No new migrations to apply"
closing_line (some (up_failed e)) = "Database migrations applied successfully"
closing_line none = "Database migrations applied successfully"

abbrev after_up : Option UpError → Option UpError → List String × Option String
after_up outer (some (up_failed e)) = ([], some ("failed to run migrations: " <> e))
after_up outer (some no_change) = (closing_line outer ∷ [], none)
after_up outer none = (closing_line outer ∷ [], none)

abbrev after_new : Migrator → Option String → List String × Option String
after_new m (some e) = ([], some ("failed to create migrate instance: " <> e))
after_new m none = after_up none m.up

-- The lines that are logged, and the error.
unfoldable pub run_migrations : Migrator → PostgresConfig → List String × Option String
run_migrations m c = after_new m (m.new_migrate source_url (database_url c))

-- A failed migration is a warning.
abbrev pub migration_lines : List String × Option String → List String
migration_lines (lines, none) = lines
migration_lines (lines, some e) = lines ++ ("Failed to run migrations automatically: " <> e) ∷ []

module _ {H : Type 0} (b : Backend H) (m : Migrator) (c : PostgresConfig) where
  abbrev pub after_open : Result H → Result (H × List String)
  after_open (ok db) = ok (db, if c.auto_migrate then migration_lines (run_migrations m c) else [])
  after_open (err e) = err e
  after_open panics = panics

  unfoldable pub init_database : Option H → Result (H × List String)
  init_database before = after_open (get_postgres_instance b before (connection_string c)).1

replace_at-same : (s : String) → ats s ≡ 0 → replace_at s ≡ s
unfolding replace_at codes
replace_at-same String.[] h = refl
replace_at-same (String.◌∷◌ c s) h = elim (Bool-cases (code c == b'@')) [
  | inl at ↦ ground (arith, h, at)
  | inr other ↦ rw other (ap (λ t. String.◌∷◌ c t) (replace_at-same s (ground (arith, h, other))))
]

-- Where no password holds an @ and the mode is "disable", the migrations run on the URL that the
-- configuration gives for them.
pub database_url_lem :
    (c : PostgresConfig)
    → ats c.password ≡ 0
    → c.ssl_mode ≡ "disable"
    → database_url c ≡ migration_database_url c
unfolding database_url migration_database_url
database_url_lem c h d = rw d (rw (replace_at-same c.password h) refl)

after_up_lem :
    (o : Option UpError)
    → (after_up none o).1 ≡ none
    → (after_up none o).0 ≡ "Database migrations applied successfully" ∷ []
after_up_lem none h = refl
after_up_lem (some no_change) h = refl
after_up_lem (some (up_failed e)) h = cc

after_new_lem :
    (m : Migrator) (o : Option String)
    → (after_new m o).1 ≡ none
    → (after_new m o).0 ≡ "Database migrations applied successfully" ∷ []
after_new_lem m none h = after_up_lem m.up h
after_new_lem m (some e) h = cc

-- A run of the migrations that returns no error logs that they were applied, also where `Up` has found
-- nothing to apply: the line for that case is never logged.
pub run_migrations-applied :
    (m : Migrator) (c : PostgresConfig)
    → (run_migrations m c).1 ≡ none
    → (run_migrations m c).0 ≡ "Database migrations applied successfully" ∷ []
unfolding run_migrations
run_migrations-applied m c h = after_new_lem m (m.new_migrate source_url (database_url c)) h
