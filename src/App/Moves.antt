-- ===== src/App/Moves.antt =====
-- Every action of a goroutine but `main` keeps what holds of the process.
use monitoring_tool.Prelude.{◌≡◌, refl, ◌∙◌, then_some, some}
use monitoring_tool.Pool.Invariant.{step-PoolInv}
use monitoring_tool.Pool.System.{Stopper, not_called, closing, done}
use monitoring_tool.Collector.Watcher.{pod_capacity, node_capacity}
use monitoring_tool.Collector.Watcher.Events.{step-WatchInv}
use monitoring_tool.App.Senders.{worker_keeps, watcher_keeps, loop_keeps, bus_keeps}
use monitoring_tool.App.Step.{act}
use monitoring_tool.Pool.System
use monitoring_tool.Collector.Watcher.{
  Watching, watch_returned, Dispatching, selecting, submitting, dispatch_returned,
}
use monitoring_tool.Collector.Watcher
use monitoring_tool.Collector.MetricsLoop.{Looping, submitting_check, waiting, loop_returned}
use monitoring_tool.Collector.MetricsLoop
use monitoring_tool.Processor.Bus
use monitoring_tool.App.Invariant.{AppInv}
use mathlib.Core.Path.{subst}
use monitoring_tool.App.Frames.{
  bus-AppInv, KeptPool, same-KeptPool, pod_watcher-AppInv, node_watcher-AppInv, metrics_loop-AppInv,
}
use monitoring_tool.App.System.{
  with_pool-some, with_pods-some, with_nodes-some, with_metrics-some, with_bus-some, Job, App,
  worker, pod_act, node_act, metrics_act, bus_act,
}

module _ {P N A O : Type 0} where
  pub worker-AppInv :
      (s : App P N A O) (a : System.Action (Job P N)) {t : App P N A O}
      → AppInv s
      → act s (worker a) ≡ some t
      → AppInv t
  worker-AppInv s a inv e =
      let (w, f) = then_some _ _ e in
      let (p, on, eq) = with_pool-some s _ f in
      let (ch, st, pa, _) = worker_keeps s.pool a w on in
      let kept : KeptPool s p = record {
        inv = step-PoolInv s.pool a inv.pool on;
        calm = pa ∙ inv.calm_pool;
        same_stopper = st;
      } in
      subst AppInv eq (
        pod_watcher-AppInv s p s.pod_watcher s.pods_at inv kept inv.pods_inv inv.calm_pods refl
          (λ h. h) inv.pods_busy (rw ch inv.pods_held) (λ o _. rw ch refl))

  pub pod_act-AppInv :
      (s : App P N A O) (a : Watcher.Action P) {t : App P N A O}
      → AppInv s
      → act s (pod_act a) ≡ some t
      → AppInv t
  pod_act-AppInv s a inv e =
      let (w, f) = then_some _ _ e in
      let (m, on, eq) = with_pods-some s _ f in
      let (fl, pa, _, busy, gone) = watcher_keeps s.pod_watcher a w on inv.pods_inv.open_chan in
      subst AppInv eq (
        pod_watcher-AppInv s s.pool m s.pods_at inv (same-KeptPool s inv)
          (step-WatchInv _ s.pod_watcher a inv.pods_inv on) (pa ∙ inv.calm_pods) fl gone
          (λ h. rw (busy (inv.pods_busy h)) (inv.pods_busy h)) inv.pods_held (λ o _. refl))

  pub node_act-AppInv :
      (s : App P N A O) (a : Watcher.Action N) {t : App P N A O}
      → AppInv s
      → act s (node_act a) ≡ some t
      → AppInv t
  node_act-AppInv s a inv e =
      let (w, f) = then_some _ _ e in
      let (m, on, eq) = with_nodes-some s _ f in
      let (fl, pa, _, busy, gone) = watcher_keeps s.node_watcher a w on inv.nodes_inv.open_chan in
      subst AppInv eq (
        node_watcher-AppInv s s.pool m s.nodes_at inv (same-KeptPool s inv)
          (step-WatchInv _ s.node_watcher a inv.nodes_inv on) (pa ∙ inv.calm_nodes) fl gone
          (λ h. rw (busy (inv.nodes_busy h)) (inv.nodes_busy h)) inv.nodes_held (λ o _. refl))

  pub metrics_act-AppInv :
      (s : App P N A O) (a : MetricsLoop.Action) {t : App P N A O}
      → AppInv s
      → act s (metrics_act a) ≡ some t
      → AppInv t
  metrics_act-AppInv s a inv e =
      let (w, f) = then_some _ _ e in
      let (m, on, eq) = with_metrics-some s _ f in
      let (fl, pa, _, busy, gone) = loop_keeps s.metrics_loop a w on in
      subst AppInv eq (
        metrics_loop-AppInv s s.pool m s.metrics_at inv (same-KeptPool s inv)
          (pa ∙ inv.calm_metrics) fl gone (λ h. rw (busy (inv.metrics_busy h)) (inv.metrics_busy h))
          inv.metrics_held (λ o _. refl))

  pub bus_act-AppInv :
      (s : App P N A O) (a : Bus.Action A) {t : App P N A O}
      → AppInv s
      → act s (bus_act a) ≡ some t
      → AppInv t
  bus_act-AppInv s a inv e =
      let (w, f) = then_some _ _ e in
      let (_, g) = then_some _ _ f in
      let (b, on, eq) = with_bus-some s _ g in
      let (fl, pa, open_chan) = bus_keeps s.bus a w on inv.bus_open in
      subst AppInv eq (bus-AppInv s b inv (pa ∙ inv.calm_bus) fl open_chan)
