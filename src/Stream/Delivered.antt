-- ===== src/Stream/Delivered.antt =====
-- Every event that the dispatcher has taken is with one goroutine of the hub, or through with it.
use monitoring_tool.Prelude.{
  map-snoc, ℕ, ◌+◌, ◌≡◌, refl, ◌∙◌, ap, sym, inl, inr, Bool, List, [], ◌∷◌, ◌++◌, Option, none,
  some, map, length, count_by, count_by-append, arith, Option-cases, some_same, else_some,
}
use mathlib.Core.Path.{subst}
use monitoring_tool.Channel.{pick, try_send}
use monitoring_tool.Channel.Pick.{pick_count}
use monitoring_tool.Hub.Defs as Defs
use monitoring_tool.Hub.Defs.{broadcasts, new_hub}
use monitoring_tool.Hub.Invariant.{start-HubInv}
use monitoring_tool.Processor.Bus
use monitoring_tool.Processor.Bus.{
  AlertEvent, EventBus, dispatch, publishes, see_stop, see_cancel, cancel, stop, new_event_bus,
}
use monitoring_tool.Processor.Delivery.{start-BusInv, subscribed}
use monitoring_tool.Stream.Moves.{Inv, bus_all, hub_moves, broadcasts_one}
use monitoring_tool.Stream.System.{
  System, Action, bus_act, hub_act, on_alert, is_broadcast, bus_turns, hub_goes, message_of, noted,
  alerts_hub, call_runs, step, Reach, here, next, start,
}

module _ {A O P : Type 0} (is_hub : O → Bool) (marshal : A → Option P) (os : List O)
    (once : count_by is_hub os ≡ 1) where
  on_alert-StreamInv :
      (s : System A O P) (i now : ℕ) (event : AlertEvent A) (rest : List (AlertEvent A))
      (o : Option P) {t : System A O P}
      → Inv is_hub marshal os once s
      → pick i s.calls ≡ some (event, rest)
      → marshal event.alert ≡ o
      → alerts_hub is_hub marshal (record s { calls = rest }) event now o ≡ some t
      → Inv is_hub marshal os once t
  on_alert-StreamInv s i now event rest none inv got m e =
      subst (Inv is_hub marshal os once) (some_same e) (record {
        bus = inv.bus;
        hub = inv.hub;
        split = λ p. ground (
          arith,
          inv.split p,
          pick_count i s.calls event rest got p,
          count_by-append p s.failed (event ∷ []),
        );
        encoded = inv.encoded;
        dropped = inv.dropped;
        refused =
            map-snoc (λ e. marshal e.alert) s.failed event
            ∙ ap (λ x. map (λ e. marshal e.alert) s.failed ++ x ∷ []) m
            ∙ ap (λ l. l ++ none ∷ []) inv.refused
            ∙ sym (map-snoc (λ e. none) s.failed event);
      })
  on_alert-StreamInv s i now event rest (some payload) inv got m e =
      let message = message_of is_hub marshal payload now in
      elim (Option-cases (Defs.step s.hub (broadcasts message))) [
        | inl stuck ↦ ground (arith, e, stuck)
        | inr (h, on) ↦
            subst (Inv is_hub marshal os once)
              (some_same (
                ap
                  (hub_goes is_hub marshal (
                    noted is_hub marshal (record s { calls = rest }) event
                      (try_send s.hub.hub.broadcast message)))
                  (sym on)
                ∙ e))
              (broadcasts_one is_hub marshal os once s i now event rest payload _ h inv got m refl
                on)
      ]

  step-StreamInv :
      (s : System A O P) (a : Action A P) {t : System A O P}
      → Inv is_hub marshal os once s
      → step is_hub marshal s a ≡ some t
      → Inv is_hub marshal os once t
  unfolding step
  step-StreamInv s (bus_act a) inv e = elim (Option-cases (Bus.step s.bus a)) [
    | inl stuck ↦ cc (ap (bus_turns is_hub marshal s _) (sym stuck) ∙ e)
    | inr (b, on) ↦
        subst (Inv is_hub marshal os once)
          (some_same (ap (bus_turns is_hub marshal s _) (sym on) ∙ e))
          (bus_all is_hub marshal os once s a b inv on)
  ]
  step-StreamInv s (hub_act a) inv e =
      let (quiet, f) = else_some (is_broadcast a) _ e in
      elim (Option-cases (Defs.step s.hub a)) [
        | inl stuck ↦ cc (ap (hub_goes is_hub marshal s) (sym stuck) ∙ f)
        | inr (h, on) ↦
            subst (Inv is_hub marshal os once)
              (some_same (ap (hub_goes is_hub marshal s) (sym on) ∙ f))
              (hub_moves is_hub marshal os once s a h inv quiet on)
      ]
  step-StreamInv s (on_alert i now) inv e = elim (Option-cases (pick i s.calls)) [
    | inl nobody ↦ cc (ap (call_runs is_hub marshal s now) (sym nobody) ∙ e)
    | inr ((event, rest), got) ↦
        on_alert-StreamInv s i now event rest _ inv got refl
          (ap (call_runs is_hub marshal s now) (sym got) ∙ e)
  ]

  start-StreamInv : Inv is_hub marshal os once (start (subscribed os new_event_bus))
  unfolding Bus.start Defs.start new_hub
  start-StreamInv = record {
    bus = start-BusInv os;
    hub = start-HubInv;
    split = λ p. omega arith;
    encoded = refl;
    dropped = refl;
    refused = refl;
  }

  pub Reach-StreamInv :
      {s : System A O P}
      → Reach is_hub marshal (start (subscribed os new_event_bus)) s
      → Inv is_hub marshal os once s
  Reach-StreamInv here = start-StreamInv
  Reach-StreamInv (next {t = m} a r e) = step-StreamInv m a (Reach-StreamInv r) e

  -- A new bus with the hub subscribed once among any observers and a new hub, run in any order of the
  -- dispatcher, the goroutines of OnAlert, `Run` and all their callers: of the events that pass any
  -- test, as many were dispatched as are with a goroutine that has not run, were put on the hub's
  -- channel, were lost because that was full, or could not be encoded. The messages that `Run` has
  -- taken and those that wait are the alerts put on the channel, encoded, in order, and the hub has
  -- counted each loss.
  pub delivered :
      {s : System A O P} (p : AlertEvent A → Bool)
      → Reach is_hub marshal (start (subscribed os new_event_bus)) s
      → (count_by p s.bus.dispatched
          ≡ count_by p s.calls + count_by p s.queued + count_by p s.lost + count_by p s.failed)
        × (map (λ m. some m.payload) (s.hub.taken ++ s.hub.hub.broadcast.buffer)
            ≡ map (λ e. marshal e.alert) s.queued)
        × (length s.lost ≡ s.hub.dropped)
        × (map (λ e. marshal e.alert) s.failed ≡ map (λ e. none) s.failed)
  delivered {s} p r =
      let inv = Reach-StreamInv r in
      (
        inv.split p,
        ap (map (λ m. some m.payload)) (sym inv.hub.fifo) ∙ inv.encoded,
        inv.dropped,
        inv.refused,
      )
