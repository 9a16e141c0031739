-- ===== src/Examples/Storing.antt =====
-- The stores and the pipeline behind them at concrete inputs.
use monitoring_tool.Prelude.{
  ℕ, ◌≡◌, refl, Bool, List, [], ◌∷◌, Option, none, some, arith, ℤ, pos, negsuc, take, count_by,
  String,
}
use monitoring_tool.Results.{Result, ok}
use monitoring_tool.Platform.{Labels}
use monitoring_tool.Models.{Alert}
use monitoring_tool.Models.Lifecycle.{Life, new_alert-resolves}
use monitoring_tool.Repository.{RepoLaws}
use monitoring_tool.Repository.InMemory.{in_memory, in_memory-RepoLaws}
use monitoring_tool.Repository.Postgres.{
  Gorm, Order, Answers, hold, Descending, postgres, postgres-RepoLaws,
}
use monitoring_tool.Processor.Bus.{new_event_bus}
use monitoring_tool.Processor.StateManager.{Shared}
use monitoring_tool.Processor.Pipeline.{
  CreateOutcome, BatchOutcome, process_alert_cases, process_all-drops,
}
use monitoring_tool.Service.Counts.{CountsFit, counts_consistent}
use monitoring_tool.Examples.Toy.{toy, toy-JsonRoundTrips, stamp_of, sample}

new_alert-resolves_example :
    Life toy toy-JsonRoundTrips "high" "m" "s" 3 (("pod", "web") ∷ []) (stamp_of 5) 6 (7 ∷ 7 ∷ [])
new_alert-resolves_example =
    new_alert-resolves toy toy-JsonRoundTrips "high" "m" "s" 3 (("pod", "web") ∷ []) (stamp_of 5)
      (("pod", "web") ∷ []) 6 (7 ∷ 7 ∷ []) refl (omega arith) (omega arith, (omega arith, tt))

in_memory-RepoLaws_example : RepoLaws (in_memory {F = ℕ} {J = Labels}) (λ alerts. alerts)
in_memory-RepoLaws_example = in_memory-RepoLaws {F = ℕ} {J = Labels}

-- A table with room for one row.
abbrev Table : Type 0
Table = Option (Alert ℕ Labels)

abbrev pub rows : Table → List (Alert ℕ Labels)
rows none = []
rows (some a) = a ∷ []

abbrev insert_row : Table → Alert ℕ Labels → Table × Option String
insert_row none a = (some a, none)
insert_row (some b) a = (some b, some "disk full")

abbrev find_rows : Table → Order → ℤ → Result (List (Alert ℕ Labels))
find_rows db order (pos n) = ok (take n (rows db))
find_rows db order (negsuc n) = ok (rows db)

abbrev pub table : Gorm ℕ Labels Table
table = record {
  insert = insert_row;
  find = find_rows;
  count_where = λ db cs. ok (count_by (hold cs) (rows db));
}

rows-Descending : (db : Table) → Descending (rows db)
rows-Descending none = tt
rows-Descending (some a) = (tt, tt)

table_inserted :
    (db : Table) (a : Alert ℕ Labels) (db' : Table)
    → insert_row db a ≡ (db', none)
    → (p : Alert ℕ Labels → Bool) → count_by p (rows db') ≡ count_by p (a ∷ rows db)
table_inserted none a db' e p = ground arith
table_inserted (some b) a db' e p = ground arith

table_refused :
    (db : Table) (a : Alert ℕ Labels) (db' : Table) (e : String)
    → insert_row db a ≡ (db', some e)
    → rows db' ≡ rows db
table_refused none a db' e h = ground arith
table_refused (some b) a db' e h = ground arith

pub table-Answers : Answers table rows
table-Answers = record {
  inserted = table_inserted;
  not_inserted = table_refused;
  counted = λ db cs. refl;
  limited = λ db limit. (rows db, rows-Descending db, λ p. refl, refl);
}

postgres-RepoLaws_example : RepoLaws (postgres table) rows
postgres-RepoLaws_example = postgres-RepoLaws table table-Answers

pub table-RepoLaws : RepoLaws (postgres table) rows
table-RepoLaws = postgres-RepoLaws table table-Answers

abbrev pub shared : Shared ℕ Labels Table ℕ
shared = record { store = none; bus = new_event_bus }

process_alert_cases_example :
    CreateOutcome (postgres table) table-RepoLaws shared (sample "high" 1) 2
process_alert_cases_example =
    process_alert_cases (postgres table) table-RepoLaws shared (sample "high" 1) 2

process_all-drops_example :
    BatchOutcome
      (postgres table)
      table-RepoLaws
      shared
      ((sample "high" 1, 2) ∷ (sample "low" 3, 4) ∷ [])
unfolding new_event_bus
process_all-drops_example =
    process_all-drops (postgres table) table-RepoLaws shared
      ((sample "high" 1, 2) ∷ (sample "low" 3, 4) ∷ []) refl

counts_consistent_example :
    CountsFit in_memory in_memory-RepoLaws (sample "low" 1 ∷ sample "severe" 2 ∷ [])
counts_consistent_example =
    counts_consistent in_memory in_memory-RepoLaws (sample "low" 1 ∷ sample "severe" 2 ∷ [])
