-- ===== src/Examples/Whole.antt =====
-- The process at a concrete run: one check is submitted, runs and publishes, then `main` stops all.
use monitoring_tool.Examples.Scripts.{run, run-keeps}
use monitoring_tool.Prelude.{ℕ, false, ◌≡◌, refl, List, [], ◌∷◌, none, some, arith}
use monitoring_tool.Processor.Bus
use monitoring_tool.Collector.Watcher
use monitoring_tool.Collector.Watcher.{dispatch_returned}
use monitoring_tool.Collector.MetricsLoop
use monitoring_tool.Collector.MetricsLoop.{loop_returned}
use monitoring_tool.Pool.System
use monitoring_tool.App.System.{
  App, Action, worker, pod_act, node_act, metrics_act, bus_act, see_context, see_stopped, send,
  main_next, see_client_cancel, metrics, start,
}
use monitoring_tool.App.Step.{step, Reach, here, next}
use monitoring_tool.App.Ending.{shutdown_ends}
use monitoring_tool.App.System.{exited, any_panicked}
use monitoring_tool.App.Shutdown.{booted, stopped_in_order}
use monitoring_tool.Pool.{new_worker_pool}
use monitoring_tool.Processor.Bus.{new_event_bus, subscribe}
use monitoring_tool.Processor.Delivery.{subscribed}

abbrev Process : Type 0
Process = App ℕ ℕ ℕ ℕ

run_from :
    {s : Process} (m : Process) (actions : List (Action ℕ ℕ ℕ)) {t : Process}
    → Reach s m
    → run step m actions ≡ some t
    → Reach s t
run_from {s} = run-keeps step (Reach s) (λ m a t r on. next a r on)

abbrev first : Process
first = booted (1 ∷ 2 ∷ []) 5

abbrev script : List (Action ℕ ℕ ℕ)
script =
    see_context metrics
    ∷ see_stopped metrics
    ∷ send metrics 0
    ∷ worker System.take_task
    ∷ bus_act (Bus.publishes (record { alert = 7; timestamp = 3 }))
    ∷ bus_act Bus.dispatch
    ∷ worker (System.finish_task 0)
    ∷ main_next
    ∷ main_next
    ∷ main_next
    ∷ see_context metrics
    ∷ metrics_act MetricsLoop.leave_loop
    ∷ main_next
    ∷ main_next
    ∷ pod_act Watcher.loop
    ∷ pod_act Watcher.leave_dispatch
    ∷ main_next
    ∷ main_next
    ∷ node_act Watcher.loop
    ∷ node_act Watcher.leave_dispatch
    ∷ main_next
    ∷ main_next
    ∷ main_next
    ∷ worker System.exit_on_cancel
    ∷ worker System.exit_on_cancel
    ∷ worker System.exit_on_stop
    ∷ worker System.exit_on_stop
    ∷ worker System.exit_on_stop
    ∷ main_next
    ∷ main_next
    ∷ bus_act Bus.see_stop
    ∷ main_next
    ∷ see_client_cancel
    ∷ main_next
    ∷ main_next
    ∷ []

abbrev ended : Process
ended = elim (run step first script) [ none ↦ first | some t ↦ t ]

runs : run step first script ≡ some ended
unfolding run step start System.start new_worker_pool Watcher.start MetricsLoop.start Bus.start
    new_event_bus subscribe subscribed System.step Watcher.step MetricsLoop.step Bus.step
runs = refl

ended_reached : Reach first ended
ended_reached = run_from first script here runs

stopped_in_order_example :
    (ended.pool.idle ≡ 0)
    × (ended.pool.running ≡ [])
    × (ended.pool.checked ≡ [])
    × (ended.metrics_loop.looping ≡ loop_returned)
    × (ended.pod_watcher.dispatching ≡ dispatch_returned)
    × (ended.node_watcher.dispatching ≡ dispatch_returned)
unfolding run step start System.start new_worker_pool Watcher.start MetricsLoop.start Bus.start
    new_event_bus subscribe subscribed System.step Watcher.step MetricsLoop.step Bus.step
stopped_in_order_example = stopped_in_order (1 ∷ 2 ∷ []) 5 refl ended_reached (ground arith)

-- After the check, with `shutdown` begun and the second submission still to be answered.
abbrev half : List (Action ℕ ℕ ℕ)
half =
    see_context metrics
    ∷ see_stopped metrics
    ∷ send metrics 0
    ∷ worker System.take_task
    ∷ bus_act (Bus.publishes (record { alert = 7; timestamp = 3 }))
    ∷ bus_act Bus.dispatch
    ∷ worker (System.finish_task 0)
    ∷ main_next
    ∷ main_next
    ∷ []

abbrev halfway : Process
halfway = elim (run step first half) [ none ↦ first | some t ↦ t ]

runs_half : run step first half ≡ some halfway
unfolding run step start System.start new_worker_pool Watcher.start MetricsLoop.start Bus.start
    new_event_bus subscribe subscribed System.step Watcher.step MetricsLoop.step Bus.step
runs_half = refl

shutdown_ends_example :
    (t : Process) × Reach halfway t × (t.main ≡ exited) × (any_panicked t ≡ false)
shutdown_ends_example = shutdown_ends (1 ∷ 2 ∷ []) 5 refl (run_from first half here runs_half)
