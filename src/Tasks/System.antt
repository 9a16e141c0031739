-- ===== src/Tasks/System.antt =====
-- The process of App with the content of its tasks: processEvent of internal/collector/pod_collector.go
-- and node_collector.go and the checks of metrics_collector.go, which evaluate what they were given and
-- then give alert by alert to ProcessAlert of internal/processor/state_manager.go. Its creation in the
-- store and its publication on the bus are two actions, between which other goroutines come.
use monitoring_tool.Prelude.{
  ℕ, zero, suc, ◌≡◌, Bool, true, false, String, List, [], ◌∷◌, ◌++◌, Option, none, some,
  if◌then◌else◌,
}
use monitoring_tool.Channel.{
  Receiving, received, receive, pick, Sending, sent, full, send_panic, try_send,
}
use monitoring_tool.Models.{Alert}
use monitoring_tool.Repository.{AlertRepo}
use monitoring_tool.Pool.System as Workers
use monitoring_tool.Processor.Bus.{AlertEvent, EventBus}
use monitoring_tool.Processor.Bus
use monitoring_tool.Processor.StateManager.{event_at}
use monitoring_tool.App.System.{App, Job, worker, bus_act, any_panicked}
use monitoring_tool.App.System as Parts
use monitoring_tool.App.Step as Process
use monitoring_tool.App.Step.{is_exited}

-- Where a task stands: before the creation of its next alert, or between the creation of an alert and
-- its publication; with the alerts that are left.
pub data Doing (A : Type 0) : Type 0 where
  creating : List A → Doing A
  publishing : A → List A → Doing A

-- A worker that runs a task.
pub record Hand (T A : Type 0) : Type 0 where
  pub job : T
  pub doing : Doing A

-- `hands` goes along with the list of running tasks of the pool. `created` and `dropped` are the
-- alerts that the store has created and the events that `Publish` has dropped, in order.
pub record System (F J S P N O : Type 0) : Type 0 where
  pub app : App P N (Alert F J) O
  pub store : S
  pub hands : List (Hand (Job P N) (Alert F J))
  pub created : List (Alert F J)
  pub dropped : List (AlertEvent (Alert F J))

-- `W` is what the task reads when it evaluates: the clock, new ids, the metrics.
pub data Action (F J P N W : Type 0) : Type 0 where
  part : Parts.Action P N (Alert F J) → Action F J P N W
  task_begins : W → Action F J P N W
  creates : ℕ → Action F J P N W
  publishes : ℕ → ℕ → Action F J P N W  -- the i-th task, and the time
  task_ends : ℕ → Action F J P N W

-- What a statement of a task would do in App without its content: these go through the actions here.
abbrev pub is_of_tasks : {P N A : Type 0} → Parts.Action P N A → Bool
is_of_tasks (worker Workers.take_task) = true
is_of_tasks (worker (Workers.finish_task i)) = true
is_of_tasks (bus_act (Bus.publishes e)) = true
is_of_tasks _ = false

module _ {A : Type 0} where
  abbrev pub item : ℕ → List A → Option A
  item i [] = none
  item zero (x ∷ xs) = some x
  item (suc i) (x ∷ xs) = item i xs

  abbrev pub put_at : ℕ → A → List A → List A
  put_at i y [] = []
  put_at zero y (x ∷ xs) = y ∷ xs
  put_at (suc i) y (x ∷ xs) = x ∷ put_at i y xs

-- An event for which the channel has no room is gone.
abbrev pub dropped_by : {E : Type 0} → List E → E → Sending E → List E
dropped_by events event full = events ++ event ∷ []
dropped_by events event (sent ch) = events
dropped_by events event send_panic = events

module _ {F J S P N O W : Type 0} (repo : AlertRepo F J S)
    (evaluate : Job P N → W → List (Alert F J)) where
  -- The process has not ended.
  abbrev pub is_alive : System F J S P N O → Bool
  is_alive s = if any_panicked s.app then false else if is_exited s.app.main then false else true

  abbrev pub with_app :
      System F J S P N O → Option (App P N (Alert F J) O) → Option (System F J S P N O)
  with_app s none = none
  with_app s (some t) = some (record s { app = t })

  -- The hand of a task that has just been taken.
  abbrev pub on_take :
      System F J S P N O
      → W
      → Receiving (Job P N)
      → Option (App P N (Alert F J) O)
      → Option (System F J S P N O)
  on_take s w (received job ch) (some t) = some (record s {
    app = t;
    hands = s.hands ++ (record { job = job; doing = creating (evaluate job w) }) ∷ [];
  })
  on_take s w _ _ = none

  abbrev pub now_doing : System F J S P N O → ℕ → Job P N → Doing (Alert F J) → System F J S P N O
  now_doing s i job doing = record s {
    hands = put_at i (record { job = job; doing = doing }) s.hands;
  }

  -- `Create`: an alert that fails is passed over.
  abbrev pub on_create :
      System F J S P N O
      → ℕ
      → Job P N
      → Alert F J
      → List (Alert F J)
      → S × Option String
      → System F J S P N O
  on_create s i job a rest (st, none) = record (now_doing s i job (publishing a rest)) {
    store = st;
    created = s.created ++ a ∷ [];
  }
  on_create s i job a rest (st, some e) = record (now_doing s i job (creating rest)) { store = st }

  abbrev pub created_by :
      System F J S P N O → ℕ → Option (Hand (Job P N) (Alert F J)) → Option (System F J S P N O)
  created_by s i none = none
  created_by s i (some hand) = elim hand.doing [
    | creating [] ↦ none
    | creating (a ∷ rest) ↦ some (on_create s i hand.job a rest (repo.create s.store a))
    | publishing a rest ↦ none
  ]

  abbrev pub on_publish :
      System F J S P N O
      → ℕ
      → Job P N
      → AlertEvent (Alert F J)
      → List (Alert F J)
      → Option (App P N (Alert F J) O)
      → Option (System F J S P N O)
  on_publish s i job event rest none = none
  on_publish s i job event rest (some t) = some (record (now_doing s i job (creating rest)) {
    app = t;
    dropped = dropped_by s.dropped event (try_send s.app.bus.bus.event_chan event);
  })

  abbrev pub published_by :
      System F J S P N O → ℕ → ℕ → Option (Hand (Job P N) (Alert F J)) → Option (System F J S P N O)
  published_by s i now none = none
  published_by s i now (some hand) = elim hand.doing [
    | creating rest ↦ none
    | publishing a rest ↦
        on_publish s i hand.job (event_at a now) rest
          (Process.step s.app (bus_act (Bus.publishes (event_at a now))))
  ]

  abbrev pub ended_by :
      System F J S P N O
      → ℕ
      → Option (Hand (Job P N) (Alert F J) × List (Hand (Job P N) (Alert F J)))
      → Option (System F J S P N O)
  ended_by s i none = none
  ended_by s i (some (hand, others)) = elim hand.doing [
    | creating [] ↦
        with_app (record s { hands = others }) (Process.step s.app (worker (Workers.finish_task i)))
    | creating (a ∷ rest) ↦ none
    | publishing a rest ↦ none
  ]

  unfoldable pub step : System F J S P N O → Action F J P N W → Option (System F J S P N O)
  step s (part a) = if is_of_tasks a then none else with_app s (Process.step s.app a)
  step s (task_begins w) =
      on_take s w (receive s.app.pool.pool.task_queue)
        (Process.step s.app (worker Workers.take_task))
  step s (creates i) =
      let next_state = created_by s i (item i s.hands) in if is_alive s then next_state else none
  step s (publishes i now) = published_by s i now (item i s.hands)
  step s (task_ends i) = ended_by s i (pick i s.hands)

  pub data Reach (s : System F J S P N O) : System F J S P N O → Type 0 where
    here : Reach s s
    next :
        {t u : System F J S P N O} (a : Action F J P N W)
        → Reach s t
        → step t a ≡ some u
        → Reach s u

  pub Reach-trans : {r s t : System F J S P N O} → Reach r s → Reach s t → Reach r t
  Reach-trans p here = p
  Reach-trans p (next a q e) = next a (Reach-trans p q) e

-- Before any task, with an empty history.
abbrev pub start : {F J S P N O : Type 0} → App P N (Alert F J) O → S → System F J S P N O
start app store = record { app = app; store = store; hands = []; created = []; dropped = [] }
