-- ===== src/Examples/Streaming.antt =====
-- A bus with the hub and another observer, and two alerts, one of which cannot be encoded.
use monitoring_tool.Examples.Scripts.{run, run-keeps}
use monitoring_tool.Prelude.{
  ℕ, ◌+◌, ◌≡◌, refl, Bool, true, List, [], ◌∷◌, ◌++◌, Option, none, some, map, ◌==◌, count_by,
  length, if◌then◌else◌,
}
use monitoring_tool.Hub.Defs as Defs
use monitoring_tool.Hub.Defs.{take_broadcast, new_hub}
use monitoring_tool.Processor.Bus
use monitoring_tool.Processor.Bus.{publishes, dispatch, new_event_bus, subscribe}
use monitoring_tool.Processor.Delivery.{subscribed}
use monitoring_tool.Stream.System.{
  System, Action, bus_act, hub_act, on_alert, step, start, Reach, here, next, hub_calls,
}
use monitoring_tool.Stream.Delivered.{delivered}

abbrev State : Type 0
State = System ℕ ℕ ℕ

abbrev is_hub : ℕ → Bool
is_hub o = o == 1

abbrev marshal : ℕ → Option ℕ
marshal a = if a == 0 then none else some (a + 100)

abbrev first : State
first = start (subscribed (1 ∷ 2 ∷ []) new_event_bus)

abbrev script : List (Action ℕ ℕ)
script =
    bus_act (publishes (record { alert = 7; timestamp = 3 }))
    ∷ bus_act (publishes (record { alert = 0; timestamp = 4 }))
    ∷ bus_act dispatch
    ∷ bus_act dispatch
    ∷ on_alert 0 5
    ∷ on_alert 0 6
    ∷ hub_act take_broadcast
    ∷ []

run_from :
    {s : State} (m : State) (actions : List (Action ℕ ℕ)) {t : State}
    → Reach is_hub marshal s m
    → run (step is_hub marshal) m actions ≡ some t
    → Reach is_hub marshal s t
run_from {s} = run-keeps (step is_hub marshal) (Reach is_hub marshal s) (λ m a t r on. next a r on)

abbrev last : State
last = elim (run (step is_hub marshal) first script) [ none ↦ first | some t ↦ t ]

runs_script : run (step is_hub marshal) first script ≡ some last
unfolding run step hub_calls Bus.start Bus.step Defs.start Defs.step new_hub new_event_bus subscribe
    subscribed
runs_script = refl

delivered_example :
    (count_by (λ e. true) last.bus.dispatched
      ≡ count_by (λ e. true) last.calls
        + count_by (λ e. true) last.queued
        + count_by (λ e. true) last.lost
        + count_by (λ e. true) last.failed)
    × (map (λ m. some m.payload) (last.hub.taken ++ last.hub.hub.broadcast.buffer)
        ≡ map (λ e. marshal e.alert) last.queued)
    × (length last.lost ≡ last.hub.dropped)
    × (map (λ e. marshal e.alert) last.failed ≡ map (λ e. none) last.failed)
delivered_example =
    delivered is_hub marshal (1 ∷ 2 ∷ []) refl (λ e. true) (run_from first script here runs_script)
