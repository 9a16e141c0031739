-- ===== src/App/Shutdown.antt =====
-- The process as `init` starts it, and the order in which `shutdown` of main.go stops it.
use monitoring_tool.Prelude.{
  ℕ, ◌<◌, ◌≡◌, refl, ◌∙◌, Bool, true, false, not, List, [], ◌∷◌, count_by, arith, pos,
}
use monitoring_tool.Pool.Invariant.{start-PoolInv}
use monitoring_tool.Pool.System.{Stopper, not_called, closing, done}
use monitoring_tool.Collector.Watcher.{pod_capacity, node_capacity}
use monitoring_tool.Collector.Watcher.Events.{start-WatchInv}
use monitoring_tool.App.Step.{Reach, here, next}
use monitoring_tool.Pool.System
use monitoring_tool.Collector.Watcher.{
  Watching, watch_returned, Dispatching, selecting, submitting, dispatch_returned,
}
use monitoring_tool.Collector.Watcher
use monitoring_tool.Collector.MetricsLoop.{Looping, submitting_check, waiting, loop_returned}
use monitoring_tool.Collector.MetricsLoop
use monitoring_tool.Processor.Bus
use monitoring_tool.App.Invariant.{AppInv, stopper_at, held, is_inside, owned}
use monitoring_tool.App.System.{
  Job, pod_job, node_job, check_job, pods, nodes, metrics, Position, at_context, at_check, at_send,
  Main, serving, cancelling, metrics_stop, metrics_wait, pods_stop, pods_wait, nodes_stop,
  nodes_wait, pool_stop, pool_signal, pool_wait, bus_stop, bus_wait, client_stop, database_close,
  exited, App, rank, any_panicked,
}
use monitoring_tool.App.System.{start}
use monitoring_tool.Processor.Bus.{new_event_bus}
use monitoring_tool.Processor.Delivery.{subscribed, subscribed_lem}
use monitoring_tool.Prelude.{ap}
use monitoring_tool.Collector.Metrics.{int64_pos}
use monitoring_tool.Pool.{new_worker_pool}
use monitoring_tool.App.Safety.{step-AppInv}

late_stopper : (m : Main) → 10 < rank m → stopper_at m ≡ done
late_stopper serving h = ground arith
late_stopper cancelling h = ground arith
late_stopper metrics_stop h = ground arith
late_stopper metrics_wait h = ground arith
late_stopper pods_stop h = ground arith
late_stopper pods_wait h = ground arith
late_stopper nodes_stop h = ground arith
late_stopper nodes_wait h = ground arith
late_stopper pool_stop h = ground arith
late_stopper pool_signal h = ground arith
late_stopper pool_wait h = ground arith
late_stopper bus_stop h = refl
late_stopper bus_wait h = refl
late_stopper client_stop h = refl
late_stopper database_close h = refl
late_stopper exited h = refl

-- Every task has an owner.
unowned :
    {P N : Type 0} (js : List (Job P N))
    → count_by (owned pods) js ≡ 0
    → count_by (owned nodes) js ≡ 0
    → count_by (owned metrics) js ≡ 0
    → js ≡ []
unowned [] p n m = refl
unowned (pod_job e ∷ js) p n m = ground arith
unowned (node_job e ∷ js) p n m = ground arith
unowned (check_job c ∷ js) p n m = ground arith

position_free :
    (at : Position) (b : Bool) → b ≡ false → (is_inside at ≡ true → b ≡ true) → held at ≡ 0
position_free at_context b q h = refl
position_free at_check b q h = ground arith
position_free at_send b q h = ground (arith, h refl)

module _ {P N A O : Type 0} where
  -- `init` has left the process with the bus of these observers, and this interval of the metrics.
  abbrev pub booted : List O → ℕ → App P N A O
  booted os interval = start (subscribed os new_event_bus) interval

  pub start-AppInv :
      (os : List O) (interval : ℕ) → int64_pos interval ≡ true → AppInv (booted os interval)
  unfolding start System.start new_worker_pool Watcher.start MetricsLoop.start Bus.start
      new_event_bus
  start-AppInv os interval h = rw (subscribed_lem os new_event_bus) (record {
    pool = start-PoolInv (pos 5) (pos 300);
    pods_inv = start-WatchInv 500;
    nodes_inv = start-WatchInv 300;
    calm_pool = ground arith;
    calm_pods = refl;
    calm_nodes = refl;
    calm_metrics = ap not h;
    calm_bus = refl;
    calm_client = refl;
    metrics_flag = refl;
    pods_flag = refl;
    nodes_flag = refl;
    bus_flag = refl;
    bus_open = refl;
    stopper = refl;
    metrics_gone = λ h. ground arith;
    pods_gone = λ h. ground arith;
    nodes_gone = λ h. ground arith;
    pods_busy = λ h. ground arith;
    nodes_busy = λ h. ground arith;
    metrics_busy = λ h. ground arith;
    pods_held = refl;
    nodes_held = refl;
    metrics_held = refl;
  })

  pub Reach-AppInv :
      (os : List O) (interval : ℕ) {s : App P N A O}
      → int64_pos interval ≡ true
      → Reach (booted os interval) s
      → AppInv s
  Reach-AppInv os interval h here = start-AppInv os interval h
  Reach-AppInv os interval h (next a r e) = step-AppInv _ a (Reach-AppInv os interval h r) e

  pub calm : (s : App P N A O) → AppInv s → any_panicked s ≡ false
  calm s inv =
      rw inv.calm_pool (
        rw inv.calm_pods
          (rw inv.calm_nodes (rw inv.calm_metrics (rw inv.calm_bus inv.calm_client))))

  -- The process as `init` starts it, with any observers subscribed and an interval of the metrics that
  -- is positive, run in any order of its watchers, the pool's workers, the bus and `main`: no goroutine panics, so no submission meets the closed
  -- queue of the pool and nothing is stopped twice.
  pub never_panics :
      (os : List O) (interval : ℕ) {s : App P N A O}
      → int64_pos interval ≡ true
      → Reach (booted os interval) s
      → any_panicked s ≡ false
  never_panics os interval {s} h r = calm s (Reach-AppInv os interval h r)

  -- Once `main` is past the pool's `Stop`, in any run of the process from a
  -- positive interval: no worker is left and no task
  -- runs, so nothing is published on the bus any more, the metrics loop and the dispatchers of both
  -- watchers have returned, and no submission stands between its tests and its send.
  pub stopped_in_order :
      (os : List O) (interval : ℕ) {s : App P N A O}
      → int64_pos interval ≡ true
      → Reach (booted os interval) s
      → 10 < rank s.main
      → (s.pool.idle ≡ 0)
        × (s.pool.running ≡ [])
        × (s.pool.checked ≡ [])
        × (s.metrics_loop.looping ≡ loop_returned)
        × (s.pod_watcher.dispatching ≡ dispatch_returned)
        × (s.node_watcher.dispatching ≡ dispatch_returned)
  stopped_in_order os interval {s} h r late =
      let inv = Reach-AppInv os interval h r in
      let (idle, running) = inv.pool.quiet (inv.stopper ∙ late_stopper s.main late) in
      let m = inv.metrics_gone (omega arith) in
      let p = inv.pods_gone (omega arith) in
      let n = inv.nodes_gone (omega arith) in
      (
        idle,
        running,
        unowned s.pool.checked (inv.pods_held ∙ position_free s.pods_at _ (rw p refl) inv.pods_busy)
            (inv.nodes_held ∙ position_free s.nodes_at _ (rw n refl) inv.nodes_busy)
            (inv.metrics_held ∙ position_free s.metrics_at _ (rw m refl) inv.metrics_busy),
        m,
        p,
        n,
      )
