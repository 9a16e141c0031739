-- ===== src/Repository/Postgres.antt =====
-- `PostgresAlertRepo`, over what GORM does with a statement.
use monitoring_tool.Prelude.{
  ℕ, ◌≤◌, ◌≡◌, refl, Bool, true, ◌&&◌, String, str_eq, List, [], ◌∷◌, Option, none, some, arith, ℤ,
  pos, length, take, length-take, count_by-take, count_by_constant, count_by, All,
}
use monitoring_tool.Results.{Result, ok}
use monitoring_tool.Models.{Alert, AlertStatus, firing, status_eq}
use monitoring_tool.Repository.{AlertRepo, RepoLaws}

-- A condition of `Where`.
pub data Condition : Type 0 where
  status_is : AlertStatus → Condition
  severity_is : String → Condition

pub data Order : Type 0 where
  triggered_at_desc : Order

-- The statements that the repository builds, as GORM runs them on the `alerts` table.
pub record Gorm (F J DB : Type 0) : Type 0 where
  pub insert : DB → Alert F J → DB × Option String
  pub find : DB → Order → ℤ → Result (List (Alert F J))
  pub count_where : DB → List Condition → Result ℕ

module _ {F J : Type 0} where
  abbrev pub holds : Condition → Alert F J → Bool
  holds (status_is st) a = status_eq a.status st
  holds (severity_is sev) a = str_eq a.severity sev

  -- The conditions of one statement are joined by AND.
  abbrev pub hold : List Condition → Alert F J → Bool
  hold [] a = true
  hold (c ∷ []) a = holds c a
  hold (c ∷ d ∷ cs) a = holds c a && hold (d ∷ cs) a

  -- Newest first.
  abbrev pub Descending : List (Alert F J) → Type 0
  Descending [] = Unit {0}
  Descending (a ∷ rest) = All (λ b. b.triggered_at ≤ a.triggered_at) rest × Descending rest

-- A database that answers: SQL's INSERT, SELECT COUNT(*) … WHERE, ORDER BY … DESC LIMIT.
pub record Answers {F J DB : Type 0} (g : Gorm F J DB) (rows : DB → List (Alert F J)) : Type 0 where
  pub inserted :
      (db : DB) (a : Alert F J) (db' : DB)
      → g.insert db a ≡ (db', none)
      → (p : Alert F J → Bool) → count_by p (rows db') ≡ count_by p (a ∷ rows db)
  pub not_inserted :
      (db : DB) (a : Alert F J) (db' : DB) (e : String)
      → g.insert db a ≡ (db', some e)
      → rows db' ≡ rows db
  pub counted :
      (db : DB) (cs : List Condition) → g.count_where db cs ≡ ok (count_by (hold cs) (rows db))
  pub limited :
      (db : DB) (limit : ℕ)
      → (sorted : List (Alert F J)) × Descending sorted
        × ((p : Alert F J → Bool) → count_by p sorted ≡ count_by p (rows db))
        × (g.find db triggered_at_desc (pos limit) ≡ ok (take limit sorted))

module _ {F J DB : Type 0} (g : Gorm F J DB) where
  abbrev pub postgres : AlertRepo F J DB
  postgres = record {
    create = g.insert;
    get_recent = λ db limit. g.find db triggered_at_desc limit;
    count = λ db. g.count_where db [];
    count_by_status = λ db status. g.count_where db (status_is status ∷ []);
    count_by_severity =
        λ db severity. g.count_where db (severity_is severity ∷ status_is firing ∷ []);
  }

  find_recent :
      {rows : DB → List (Alert F J)} (d : Answers g rows) (db : DB) (limit : ℕ)
      → (found : List (Alert F J)) × (g.find db triggered_at_desc (pos limit) ≡ ok found)
        × (length found ≤ limit)
        × ((p : Alert F J → Bool) → count_by p found ≤ count_by p (rows db))
        × (length (rows db) ≤ limit → length found ≡ length (rows db))
  find_recent {rows} d db limit =
      let (sorted, _, same, e) = d.limited db limit in
      let sizes = same (λ _. true) in
      (
        take limit sorted,
        e,
        omega (arith, length-take limit sorted),
        λ p. omega (arith, count_by-take p limit sorted, same p),
        λ fits. omega (
          arith,
          length-take limit sorted,
          sizes,
          count_by_constant sorted,
          count_by_constant (rows db),
        ),
      )

  count_all : (xs : List (Alert F J)) → count_by (hold []) xs ≡ length xs
  count_all [] = refl
  count_all (x ∷ xs) = omega (arith, count_all xs)

  -- Over a database that answers, the Postgres store keeps every promise of an alert store: its
  -- statements ask for the rows that the in-memory store counts.
  pub postgres-RepoLaws : {rows : DB → List (Alert F J)} → Answers g rows → RepoLaws postgres rows
  postgres-RepoLaws {rows} d = record {
    created = d.inserted;
    refused = d.not_inserted;
    counts = λ s. cc (d.counted s [], count_all (rows s));
    counts_status = λ s st. d.counted s (status_is st ∷ []);
    counts_severity = λ s sev. d.counted s (severity_is sev ∷ status_is firing ∷ []);
    recent = λ s limit _. find_recent d s limit;
  }
