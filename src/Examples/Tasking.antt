-- ===== src/Examples/Tasking.antt =====
-- The process with its tasks at a concrete run: a check of the pods finds a busy one, stores an
-- alert and publishes it, then `main` stops all.
use monitoring_tool.Examples.Scripts.{run, run-keeps}
use monitoring_tool.Prelude.{
  ℕ, ◌+◌, true, Bool, ◌≡◌, refl, List, [], ◌∷◌, none, some, arith, inl, inr, count_by, length,
}
use monitoring_tool.Platform.{Labels}
use monitoring_tool.Models.{Alert}
use monitoring_tool.Repository.InMemory.{in_memory, in_memory-RepoLaws}
use monitoring_tool.Processor.Bus
use monitoring_tool.Processor.Bus.{new_event_bus, subscribe}
use monitoring_tool.Processor.Delivery.{subscribed}
use monitoring_tool.Collector.Objects.{Pod, Node}
use monitoring_tool.Collector.Watcher
use monitoring_tool.Collector.MetricsLoop
use monitoring_tool.Collector.MetricsLoop.{pod_check}
use monitoring_tool.Collector.MetricsWatcher.Checks.{pod_alerts, stamped}
use monitoring_tool.Pool.System as Workers
use monitoring_tool.Pool.{new_worker_pool}
use monitoring_tool.App.System as Parts
use monitoring_tool.App.System.{
  worker, pod_act, node_act, metrics_act, bus_act, see_context, see_stopped, send, main_next,
  metrics, check_job,
}
use monitoring_tool.App.Step as Process
use monitoring_tool.App.Shutdown.{booted}
use monitoring_tool.Tasks.System.{
  System, Action, part, task_begins, creates, publishes, task_ends, start, step, Reach, here, next,
}
use monitoring_tool.Tasks.Hands.{sum_by}
use monitoring_tool.Tasks.Flow.{of_alert, in_hand}
use monitoring_tool.Tasks.Accounting.{accounted, settled}
use monitoring_tool.Tasks.Alone.{shared}
use monitoring_tool.Tasks.Evaluate.{Observed, Task, evaluate, run_task}
use monitoring_tool.Tasks.Effect.{task_effect}
use monitoring_tool.Examples.Toy.{toy, stamp_of}
use monitoring_tool.Examples.Watching.{busy_pod, thresholds}

abbrev Store : Type 0
Store = List (Alert ℕ Labels)

abbrev State : Type 0
State = System ℕ Labels Store Pod Node ℕ

abbrev Act : Type 0
Act = Action ℕ Labels Pod Node (Observed toy)

abbrev content : Task → Observed toy → List (Alert ℕ Labels)
content = evaluate toy thresholds 5

abbrev reading : Observed toy
reading = record {
  now = 9;
  stamps = stamp_of;
  pod_metrics = inr (busy_pod ∷ []);
  node_metrics = inl "no metrics";
}

run_from :
    {s : State} (m : State) (actions : List Act) {t : State}
    → Reach in_memory content s m
    → run (step in_memory content) m actions ≡ some t
    → Reach in_memory content s t
run_from {s} =
    run-keeps (step in_memory content) (Reach in_memory content s) (λ m a t r on. next a r on)

abbrev first : State
first = start (booted (1 ∷ 2 ∷ []) 5) []

abbrev submission : List Act
submission = part (see_context metrics) ∷ part (see_stopped metrics) ∷ part (send metrics 0) ∷ []

-- The alert is stored and not yet published.
abbrev halfway : List Act
halfway =
    part (see_context metrics)
    ∷ part (see_stopped metrics)
    ∷ part (send metrics 0)
    ∷ task_begins reading
    ∷ creates 0
    ∷ []

abbrev after : List Act → State
after script = elim (run (step in_memory content) first script) [ none ↦ first | some t ↦ t ]

runs_submission : run (step in_memory content) first submission ≡ some (after submission)
unfolding run step Process.step Parts.start Workers.start new_worker_pool Watcher.start
    MetricsLoop.start Bus.start new_event_bus subscribe subscribed Workers.step Watcher.step
    MetricsLoop.step Bus.step
runs_submission = refl

runs_halfway : run (step in_memory content) first halfway ≡ some (after halfway)
unfolding run step Process.step Parts.start Workers.start new_worker_pool Watcher.start
    MetricsLoop.start Bus.start new_event_bus subscribe subscribed Workers.step Watcher.step
    MetricsLoop.step Bus.step evaluate pod_alerts stamped
runs_halfway = refl

abbrev ending : List Act
ending =
    part (see_context metrics)
    ∷ part (see_stopped metrics)
    ∷ part (send metrics 0)
    ∷ task_begins reading
    ∷ creates 0
    ∷ publishes 0 9
    ∷ part (bus_act Bus.dispatch)
    ∷ task_ends 0
    ∷ part main_next
    ∷ part main_next
    ∷ part main_next
    ∷ part (see_context metrics)
    ∷ part (metrics_act MetricsLoop.leave_loop)
    ∷ part main_next
    ∷ part main_next
    ∷ part (pod_act Watcher.loop)
    ∷ part (pod_act Watcher.leave_dispatch)
    ∷ part main_next
    ∷ part main_next
    ∷ part (node_act Watcher.loop)
    ∷ part (node_act Watcher.leave_dispatch)
    ∷ part main_next
    ∷ part main_next
    ∷ part main_next
    ∷ part (worker Workers.exit_on_cancel)
    ∷ part (worker Workers.exit_on_cancel)
    ∷ part (worker Workers.exit_on_stop)
    ∷ part (worker Workers.exit_on_stop)
    ∷ part (worker Workers.exit_on_stop)
    ∷ part main_next
    ∷ []

runs_ending : run (step in_memory content) first ending ≡ some (after ending)
unfolding run step Process.step Parts.start Workers.start new_worker_pool Watcher.start
    MetricsLoop.start Bus.start new_event_bus subscribe subscribed Workers.step Watcher.step
    MetricsLoop.step Bus.step evaluate pod_alerts stamped
runs_ending = refl

-- One alert is stored, and it is in the hand of its task.
one_stored : length (after halfway).store ≡ 1
unfolding run step Process.step Parts.start Workers.start new_worker_pool Watcher.start
    MetricsLoop.start Bus.start new_event_bus subscribe subscribed Workers.step Watcher.step
    MetricsLoop.step Bus.step evaluate pod_alerts stamped
one_stored = refl

accounted_example :
    count_by (λ a. true) (after halfway).store
    ≡ count_by {A = Alert ℕ Labels} (λ a. true) []
      + count_by (of_alert (λ a. true)) (after halfway).app.bus.dispatched
      + count_by (of_alert (λ a. true)) (after halfway).app.bus.bus.event_chan.buffer
      + count_by (of_alert (λ a. true)) (after halfway).dropped
      + sum_by (in_hand (λ a. true)) (after halfway).hands
accounted_example =
    accounted in_memory content in_memory-RepoLaws (1 ∷ 2 ∷ []) 5 [] refl
      (run_from first halfway here runs_halfway) (λ a. true)

abbrev Settled : State → Type 0
Settled s =
    (s.hands ≡ [])
    × ((p : Alert ℕ Labels → Bool)
        → count_by p s.store
          ≡ count_by p []
            + count_by (of_alert p) s.app.bus.dispatched
            + count_by (of_alert p) s.app.bus.bus.event_chan.buffer
            + count_by (of_alert p) s.dropped)

settled_example : Settled (after ending)
unfolding run step Process.step Parts.start Workers.start new_worker_pool Watcher.start
    MetricsLoop.start Bus.start new_event_bus subscribe subscribed Workers.step Watcher.step
    MetricsLoop.step Bus.step evaluate pod_alerts stamped
settled_example =
    settled in_memory content in_memory-RepoLaws (1 ∷ 2 ∷ []) 5 [] refl
      (run_from first ending here runs_ending) (ground arith)

-- With the check at the head of the queue.
task_effect_example :
    (t : State) × Reach in_memory content (after submission) t
    × (t.hands ≡ [])
    × (shared t
        ≡ run_task toy thresholds 5 in_memory
            (λ a. 9)
            (λ n. n)
            (check_job pod_check)
            reading
            (shared (after submission)))
unfolding run step Process.step Parts.start Workers.start new_worker_pool Watcher.start
    MetricsLoop.start Bus.start new_event_bus subscribe subscribed Workers.step Watcher.step
    MetricsLoop.step Bus.step
task_effect_example =
    task_effect toy in_memory thresholds 5 in_memory-RepoLaws (1 ∷ 2 ∷ []) 5 [] reading
      (check_job pod_check) [] (λ a. 9) (λ n. n) refl
      (run_from first submission here runs_submission) refl (ground arith) refl
