-- ===== src/Stream/Moves.antt =====
-- What holds of the bus of internal/processor/event_bus.go with the hub of internal/websocket/hub.go
-- as its observer, under a step of the one or of the other.
use monitoring_tool.Prelude.{
  map-snoc, ℕ, ◌+◌, ◌≡◌, refl, ◌∙◌, ap, sym, inl, inr, Bool, false, List, [], ◌∷◌, ◌++◌, Option,
  none, some, map, length, length-append, count_by, count_by-append, if◌then◌else◌, arith,
}
use monitoring_tool.Channel.{
  Receiving, received, drained, blocked, receive, pick, Sending, sent, full, send_panic, try_send,
}
use monitoring_tool.Channel.Pick.{pick_count}
use monitoring_tool.Hub.Defs as Defs
use monitoring_tool.Hub.Defs.{broadcasts, new_hub}
use monitoring_tool.Hub.Invariant.{HubInv, step-HubInv}
use monitoring_tool.Hub.Session.{Message}
use monitoring_tool.Processor.Bus
use monitoring_tool.Processor.Bus.{
  AlertEvent, EventBus, dispatch, publishes, see_stop, see_cancel, cancel, stop, new_event_bus,
}
use monitoring_tool.Processor.Delivery.{BusInv, step-BusInv}
use monitoring_tool.Stream.Steps.{
  bus_rests, bus_dispatches, no_event, hub_rests, hub_takes, hub_full, never_closed,
}
use monitoring_tool.Stream.System.{System, is_broadcast, hub_calls, calls_after, message_of, noted}

module _ {A O P : Type 0} (is_hub : O → Bool) (marshal : A → Option P) where
  hub_calls-count :
      (os : List O) (e : AlertEvent A) (p : AlertEvent A → Bool)
      → count_by p (hub_calls is_hub marshal os e) ≡ (if p e then count_by is_hub os else 0)
  unfolding hub_calls
  hub_calls-count [] e p = ground arith
  hub_calls-count (o ∷ os) e p = ground (arith, hub_calls-count os e p)

  pub record StreamInv (os : List O) (s : System A O P) : Type 0 where
    pub bus : BusInv os 200 s.bus
    pub hub : HubInv s.hub
    -- an event that was dispatched is with a goroutine of the hub, or what became of it
    pub split :
        (p : AlertEvent A → Bool)
        → count_by p s.bus.dispatched
          ≡ count_by p s.calls + count_by p s.queued + count_by p s.lost + count_by p s.failed
    -- the hub's messages are the alerts of its events, encoded, in order
    pub encoded : map (λ m. some m.payload) s.hub.queued ≡ map (λ e. marshal e.alert) s.queued
    pub dropped : length s.lost ≡ s.hub.dropped
    pub refused : map (λ e. marshal e.alert) s.failed ≡ map (λ e. none) s.failed

module _ {A O P : Type 0} (is_hub : O → Bool) (marshal : A → Option P) (os : List O)
    (once : count_by is_hub os ≡ 1) where
  abbrev pub Inv : System A O P → Type 0
  Inv s = StreamInv is_hub marshal os s

  -- The bus takes a step that dispatches nothing, or the event that is first.
  pub bus_moves :
      (s : System A O P) (a : Bus.Action A) (b : Bus.System A O) (calls : List (AlertEvent A))
      → Inv s
      → Bus.step s.bus a ≡ some b
      → ((p : AlertEvent A → Bool)
          → count_by p b.dispatched + count_by p s.calls
            ≡ count_by p s.bus.dispatched + count_by p calls)
      → Inv (record s { bus = b; calls = calls })
  bus_moves s a b calls inv on same = record {
    bus = step-BusInv os 200 s.bus a inv.bus on;
    hub = inv.hub;
    split = λ p. omega (arith, inv.split p, same p);
    encoded = inv.encoded;
    dropped = inv.dropped;
    refused = inv.refused;
  }

  pub dispatch-StreamInv :
      (s : System A O P) (r : Receiving (AlertEvent A)) (b : Bus.System A O)
      → Inv s
      → receive s.bus.bus.event_chan ≡ r
      → Bus.step s.bus dispatch ≡ some b
      → Inv (record s { bus = b; calls = calls_after is_hub marshal s dispatch r })
  dispatch-StreamInv s (received event ch) b inv got on =
      bus_moves s dispatch b (s.calls ++ hub_calls is_hub marshal s.bus.bus.observers event) inv on
        (λ p. ground (
          arith,
          once,
          inv.bus.fixed,
          bus_dispatches s.bus event ch got on,
          count_by-append p s.bus.dispatched (event ∷ []),
          count_by-append p s.calls (hub_calls is_hub marshal s.bus.bus.observers event),
          hub_calls-count is_hub marshal os event p,
          ap (λ os. hub_calls is_hub marshal os event) inv.bus.fixed,
        ))
  dispatch-StreamInv s drained b inv got on = ground (arith, no_event s.bus (inl got) on)
  dispatch-StreamInv s blocked b inv got on = ground (arith, no_event s.bus (inr got) on)

  pub bus_all :
      (s : System A O P) (a : Bus.Action A) (b : Bus.System A O)
      → Inv s
      → Bus.step s.bus a ≡ some b
      → Inv (record s {
        bus = b;
        calls = calls_after is_hub marshal s a (receive s.bus.bus.event_chan);
      })
  bus_all s dispatch b inv on = dispatch-StreamInv s _ b inv refl on
  bus_all s a b inv on =
      bus_moves s a b s.calls inv on
        (λ p. ap (λ l. count_by p l + count_by p s.calls) (bus_rests s.bus a refl on))

  pub hub_moves :
      (s : System A O P) (a : Defs.Action (Message P)) (h : Defs.System (Message P))
      → Inv s
      → is_broadcast a ≡ false
      → Defs.step s.hub a ≡ some h
      → Inv (record s { hub = h })
  hub_moves s a h inv quiet on =
      let (q, d) = hub_rests s.hub a quiet on in
      record {
        bus = inv.bus;
        hub = step-HubInv s.hub a inv.hub on;
        split = inv.split;
        encoded = ap (map (λ m. some m.payload)) q ∙ inv.encoded;
        dropped = inv.dropped ∙ sym d;
        refused = inv.refused;
      }

  -- The goroutine of one event runs OnAlert: the event goes from the calls to where `Broadcast` leaves it.
  pub broadcasts_one :
      (s : System A O P) (i now : ℕ) (event : AlertEvent A) (rest : List (AlertEvent A))
      (payload : P) (r : Sending (Message P)) (h : Defs.System (Message P))
      → Inv s
      → pick i s.calls ≡ some (event, rest)
      → marshal event.alert ≡ some payload
      → try_send s.hub.hub.broadcast (message_of is_hub marshal payload now) ≡ r
      → Defs.step s.hub (broadcasts (message_of is_hub marshal payload now)) ≡ some h
      → Inv (record (noted is_hub marshal (record s { calls = rest }) event r) { hub = h })
  broadcasts_one s i now event rest payload (sent ch) h inv got m sends on =
      let (q, d) = hub_takes s.hub _ ch sends on in
      record {
        bus = inv.bus;
        hub = step-HubInv s.hub _ inv.hub on;
        split = λ p. ground (
          arith,
          inv.split p,
          pick_count i s.calls event rest got p,
          count_by-append p s.queued (event ∷ []),
        );
        encoded =
            ap (map (λ m. some m.payload)) q
            ∙ map-snoc (λ m. some m.payload) s.hub.queued _
            ∙ ap (λ l. l ++ some payload ∷ []) inv.encoded
            ∙ ap (λ x. map (λ e. marshal e.alert) s.queued ++ x ∷ []) (sym m)
            ∙ sym (map-snoc (λ e. marshal e.alert) s.queued event);
        dropped = inv.dropped ∙ sym d;
        refused = inv.refused;
      }
  broadcasts_one s i now event rest payload full h inv got m sends on =
      let (q, d) = hub_full s.hub _ sends on in
      record {
        bus = inv.bus;
        hub = step-HubInv s.hub _ inv.hub on;
        split = λ p. ground (
          arith,
          inv.split p,
          pick_count i s.calls event rest got p,
          count_by-append p s.lost (event ∷ []),
        );
        encoded = ap (map (λ m. some m.payload)) q ∙ inv.encoded;
        dropped = ground (arith, inv.dropped, d, length-append s.lost (event ∷ []));
        refused = inv.refused;
      }
  broadcasts_one s i now event rest payload send_panic h inv got m sends on =
      ground (arith, never_closed s.hub _ inv.hub.open_chan sends)
