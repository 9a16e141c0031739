-- ===== src/Stream/System.antt =====
-- The event bus of internal/processor/event_bus.go with the hub of internal/websocket/hub.go as an
-- observer: the dispatcher starts a goroutine for each observer, and that of the hub runs OnAlert.
use monitoring_tool.Prelude.{
  ℕ, ◌≡◌, Bool, true, false, List, [], ◌∷◌, ◌++◌, Option, none, some, if◌then◌else◌,
}
use monitoring_tool.Channel.{
  Receiving, received, receive, pick, Sending, sent, full, send_panic, try_send,
}
use monitoring_tool.Hub.Defs as Defs
use monitoring_tool.Hub.Defs.{broadcasts}
use monitoring_tool.Hub.Session.{Message}
use monitoring_tool.Processor.Bus
use monitoring_tool.Processor.Bus.{AlertEvent, EventBus, dispatch}

-- `calls` are the goroutines started for the hub that have not run OnAlert yet. Of those that have,
-- `queued`, `lost` and `failed` are the events: put on the hub's channel, dropped because it was full,
-- and not encoded.
pub record System (A O P : Type 0) : Type 0 where
  pub bus : Bus.System A O
  pub hub : Defs.System (Message P)
  pub calls : List (AlertEvent A)
  pub queued : List (AlertEvent A)
  pub lost : List (AlertEvent A)
  pub failed : List (AlertEvent A)

pub data Action (A P : Type 0) : Type 0 where
  bus_act : Bus.Action A → Action A P
  hub_act : Defs.Action (Message P) → Action A P
  on_alert : ℕ → ℕ → Action A P  -- the i-th goroutine, and the time

abbrev pub is_broadcast : {M : Type 0} → Defs.Action M → Bool
is_broadcast (broadcasts m) = true
is_broadcast _ = false

module _ {A O P : Type 0} (is_hub : O → Bool) (marshal : A → Option P) where
  -- The goroutines of the hub among those that `notifyObservers` starts.
  unfoldable pub hub_calls : List O → AlertEvent A → List (AlertEvent A)
  hub_calls [] event = []
  hub_calls (o ∷ os) event =
      let rest = hub_calls os event in if is_hub o then event ∷ rest else rest

  abbrev pub calls_after :
      System A O P → Bus.Action A → Receiving (AlertEvent A) → List (AlertEvent A)
  calls_after s dispatch (received event ch) = s.calls ++ hub_calls s.bus.bus.observers event
  calls_after s _ _ = s.calls

  abbrev pub bus_turns :
      System A O P → List (AlertEvent A) → Option (Bus.System A O) → Option (System A O P)
  bus_turns s calls none = none
  bus_turns s calls (some b) = some (record s { bus = b; calls = calls })

  abbrev pub hub_goes : System A O P → Option (Defs.System (Message P)) → Option (System A O P)
  hub_goes s none = none
  hub_goes s (some h) = some (record s { hub = h })

  abbrev pub message_of : P → ℕ → Message P
  message_of payload now = record { kind = "alert"; payload = payload; timestamp = now }

  -- `Broadcast`: the event is on the channel, or it is lost.
  abbrev pub noted : System A O P → AlertEvent A → Sending (Message P) → System A O P
  noted s event (sent ch) = record s { queued = s.queued ++ event ∷ [] }
  noted s event full = record s { lost = s.lost ++ event ∷ [] }
  noted s event send_panic = s

  -- `OnAlert`, with what `json.Marshal` gives.
  abbrev pub alerts_hub : System A O P → AlertEvent A → ℕ → Option P → Option (System A O P)
  alerts_hub s event now none = some (record s { failed = s.failed ++ event ∷ [] })
  alerts_hub s event now (some payload) =
      hub_goes (noted s event (try_send s.hub.hub.broadcast (message_of payload now)))
        (Defs.step s.hub (broadcasts (message_of payload now)))

  abbrev pub call_runs :
      System A O P → ℕ → Option (AlertEvent A × List (AlertEvent A)) → Option (System A O P)
  call_runs s now none = none
  call_runs s now (some (event, rest)) =
      alerts_hub (record s { calls = rest }) event now (marshal event.alert)

  unfoldable pub step : System A O P → Action A P → Option (System A O P)
  unfolding hub_calls
  step s (bus_act a) =
      bus_turns s (calls_after s a (receive s.bus.bus.event_chan)) (Bus.step s.bus a)
  step s (hub_act a) = if is_broadcast a then none else hub_goes s (Defs.step s.hub a)
  step s (on_alert i now) = call_runs s now (pick i s.calls)

  pub data Reach (s : System A O P) : System A O P → Type 0 where
    here : Reach s s
    next : {t u : System A O P} (a : Action A P) → Reach s t → step t a ≡ some u → Reach s u

-- A bus and a hub that have been started, before any event.
abbrev pub start : {A O P : Type 0} → EventBus A O → System A O P
start eb = record {
  bus = Bus.start eb;
  hub = Defs.start;
  calls = [];
  queued = [];
  lost = [];
  failed = [];
}
