-- ===== src/Processor/Bus.antt =====
-- internal/processor/event_bus.go. An observer is its identity, of type `O`.
use monitoring_tool.Prelude.{
  ℕ, ◌≡◌, Bool, true, false, List, [], ◌∷◌, ◌++◌, Option, none, some, map, if◌then◌else◌,
}
use monitoring_tool.Channel.{
  Channel, make_chan, Sending, sent, full, send_panic, try_send, Receiving, received, drained,
  blocked, receive,
}

pub record AlertEvent (A : Type 0) : Type 0 where
  pub alert : A
  pub timestamp : ℕ

pub record EventBus (A O : Type 0) : Type 0 where
  pub observers : List O
  pub event_chan : Channel (AlertEvent A)
  pub stop_closed : Bool  -- stopCh

module _ {A O : Type 0} where
  unfoldable pub new_event_bus : EventBus A O
  new_event_bus = record { observers = []; event_chan = make_chan 200; stop_closed = false }

  unfoldable pub subscribe : EventBus A O → O → EventBus A O
  subscribe eb o = record eb { observers = eb.observers ++ o ∷ [] }

  -- The bus never closes the channel of events, so the panic does not arise (`Delivery`).
  abbrev after_send : EventBus A O → Sending (AlertEvent A) → EventBus A O
  after_send eb (sent ch) = record eb { event_chan = ch }
  after_send eb full = eb
  after_send eb send_panic = eb

  unfoldable pub publish : EventBus A O → AlertEvent A → EventBus A O
  publish eb event = after_send eb (try_send eb.event_chan event)

  -- One goroutine for each observer, in the order of subscription.
  abbrev pub notify_observers : EventBus A O → AlertEvent A → List (O × AlertEvent A)
  notify_observers eb event = map (λ o. (o, event)) eb.observers

-- The bus with its dispatcher goroutine and the callers of `Publish` and `Stop`.
pub record System (A O : Type 0) : Type 0 where
  pub bus : EventBus A O
  pub dispatching : Bool  -- the dispatcher has not returned
  pub cancelled : Bool
  pub stopping : Bool  -- `Stop` is in wg.Wait()
  pub accepted : List (AlertEvent A)  -- events that `Publish` has put on the channel
  pub dispatched : List (AlertEvent A)  -- events that the dispatcher has received
  pub notified : List (O × AlertEvent A)  -- the goroutines started for observers
  pub panicked : Bool

pub data Action (A : Type 0) : Type 0 where
  publishes : AlertEvent A → Action A
  dispatch : Action A
  see_stop : Action A
  see_cancel : Action A
  cancel : Action A
  stop : Action A

module _ {A O : Type 0} where
  -- `Start`
  unfoldable pub start : EventBus A O → System A O
  start eb = record {
    bus = eb;
    dispatching = true;
    cancelled = false;
    stopping = false;
    accepted = [];
    dispatched = [];
    notified = [];
    panicked = false;
  }

  abbrev sends : System A O → AlertEvent A → Sending (AlertEvent A) → System A O
  sends s event (sent ch) = record s {
    bus = record s.bus { event_chan = ch };
    accepted = s.accepted ++ event ∷ [];
  }
  sends s event full = s
  sends s event send_panic = record s { panicked = true }

  abbrev dispatches : System A O → Receiving (AlertEvent A) → Option (System A O)
  dispatches s (received event ch) = some (record s {
    bus = record s.bus { event_chan = ch };
    dispatched = s.dispatched ++ event ∷ [];
    notified = s.notified ++ notify_observers s.bus event;
  })
  dispatches s drained = none
  dispatches s blocked = none

  abbrev returns : System A O → Bool → Option (System A O)
  returns s enabled = if enabled then some (record s { dispatching = false }) else none

  abbrev act : System A O → Action A → Option (System A O)
  act s (publishes event) = some (sends s event (try_send s.bus.event_chan event))
  act s dispatch = if s.dispatching then dispatches s (receive s.bus.event_chan) else none
  act s see_stop = if s.dispatching then returns s s.bus.stop_closed else none
  act s see_cancel = if s.dispatching then returns s s.cancelled else none
  act s cancel = some (record s { cancelled = true })
  act s stop = some (
      if s.bus.stop_closed
      then record s { panicked = true }
      else record s { bus = record s.bus { stop_closed = true }; stopping = true })

  unfoldable pub step : System A O → Action A → Option (System A O)
  step s a = if s.panicked then none else act s a

  pub data Reach (s : System A O) : System A O → Type 0 where
    here : Reach s s
    next : {t u : System A O} (a : Action A) → Reach s t → step t a ≡ some u → Reach s u
