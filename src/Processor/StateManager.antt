-- ===== src/Processor/StateManager.antt =====
-- internal/processor/state_manager.go and evaluator.go.
use monitoring_tool.Prelude.{
  ℕ, Bool, true, false, String, List, [], ◌∷◌, Option, none, some, pos, if◌then◌else◌,
}
use monitoring_tool.Models.{Alert}
use monitoring_tool.Repository.{AlertRepo}
use monitoring_tool.Processor.Bus.{AlertEvent, EventBus, publish}
use monitoring_tool.Pool.{WorkerPool, new_worker_pool}

-- The store and the bus that the manager shares with the rest of the program.
pub record Shared (F J S O : Type 0) : Type 0 where
  pub store : S
  pub bus : EventBus (Alert F J) O

abbrev pub event_at : {F J : Type 0} → Alert F J → ℕ → AlertEvent (Alert F J)
event_at alert now = record { alert = alert; timestamp = now }

module _ {F J S O : Type 0} (repo : AlertRepo F J S) where
  abbrev pub after_create :
      Shared F J S O → Alert F J → ℕ → S × Option String → Shared F J S O × Bool × Option String
  after_create sh alert now (s, some e) = (record sh { store = s }, false, some e)
  after_create sh alert now (s, none) =
      (record sh { store = s; bus = publish sh.bus (event_at alert now) }, true, none)

  -- `ProcessAlert`: the new state, and its two results.
  unfoldable pub process_alert :
      Shared F J S O → Alert F J → ℕ → Shared F J S O × Bool × Option String
  process_alert sh alert now = after_create sh alert now (repo.create sh.store alert)

  -- The loop of `processEvent`: an alert that fails is logged and passed over. With the state come
  -- the events of the alerts that were created.
  unfoldable pub process_all :
      Shared F J S O → List (Alert F J × ℕ) → Shared F J S O × List (AlertEvent (Alert F J))
  process_all sh [] = (sh, [])
  process_all sh ((alert, now) ∷ rest) =
      let (sh', created, failure) = process_alert sh alert now in
      let (last, events) = process_all sh' rest in
      (last, if created then event_at alert now ∷ events else events)

-- `EvaluatorEngine`: the manager is given by its store and bus, and `T` are the pool's tasks.
pub record EvaluatorEngine (F J S O T : Type 0) : Type 0 where
  pub state_manager : Shared F J S O
  pub worker_pool : WorkerPool T

unfoldable pub new_evaluator_engine :
    {F J S O T : Type 0} → S → EventBus (Alert F J) O → EvaluatorEngine F J S O T
new_evaluator_engine store bus = record {
  state_manager = record { store = store; bus = bus };
  worker_pool = new_worker_pool (pos 5) (pos 300);
}
