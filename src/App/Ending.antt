-- ===== src/App/Ending.antt =====
-- From any moment of the process `shutdown` can come to its end.
use monitoring_tool.Prelude.{
  if_then, if_else, ℕ, zero, suc, ◌+◌, ◌-◌, ◌≡◌, refl, ◌∙◌, ap, inl, inr, true, false, List,
  Bool-cases, ltb, if◌then◌else◌, arith,
}
use monitoring_tool.App.System.{
  App, Main, serving, cancelling, metrics_stop, metrics_wait, pods_stop, pods_wait, nodes_stop,
  nodes_wait, pool_stop, pool_signal, pool_wait, bus_stop, bus_wait, client_stop, database_close,
  exited, rank,
}
use monitoring_tool.App.Step.{Reach, here, is_exited, cancels}
use monitoring_tool.App.Invariant.{AppInv, stopper_at}
use monitoring_tool.App.Answering.{Reach-trans}
use monitoring_tool.App.Waits.{pods_return, nodes_return, loop_returns}
use monitoring_tool.App.Finishing.{
  signal_goes, stop_goes, watcher_goes, loop_goes, bus_goes, successor, Arrives, by_main, by_wait,
  pool_comes, bus_comes,
}
use monitoring_tool.App.Step.{loop_gone, watcher_gone}
use monitoring_tool.App.Shutdown.{booted, Reach-AppInv, calm}
use monitoring_tool.Collector.Metrics.{int64_pos}
use monitoring_tool.Collector.Client.{stop_once}
use monitoring_tool.App.System.{with_pool, any_panicked}
use monitoring_tool.Prelude.{◌≤◌}

rank-successor : (m : Main) → is_exited m ≡ false → rank (successor m) ≡ rank m + 1
rank-successor serving h = refl
rank-successor cancelling h = refl
rank-successor metrics_stop h = refl
rank-successor metrics_wait h = refl
rank-successor pods_stop h = refl
rank-successor pods_wait h = refl
rank-successor nodes_stop h = refl
rank-successor nodes_wait h = refl
rank-successor pool_stop h = refl
rank-successor pool_signal h = refl
rank-successor pool_wait h = refl
rank-successor bus_stop h = refl
rank-successor bus_wait h = refl
rank-successor client_stop h = refl
rank-successor database_close h = refl
rank-successor exited h = cc

exited-main : (m : Main) → is_exited m ≡ true → m ≡ exited
exited-main m h = ground arith

rank_bound : (m : Main) → rank m ≤ 15
rank_bound m = ground arith

last_rank : (m : Main) → rank m ≡ 15 → m ≡ exited
last_rank m h = elim (Bool-cases (is_exited m)) [
  | inl over ↦ exited-main m over
  | inr going ↦ ground (arith, h, rank-successor m going, rank_bound (successor m))
]

module _ {P N A O : Type 0} where
  -- The statement of `shutdown` that is next comes to its end.
  stage :
      (s : App P N A O) (m : Main)
      → AppInv s
      → s.main ≡ m
      → is_exited m ≡ false
      → Arrives s (successor m)
  stage s serving inv h x = by_main s (record s { main = cancelling }) serving inv h refl refl refl
  stage s cancelling inv h x = by_main s (cancels s) cancelling inv h refl refl refl
  stage s metrics_stop inv h x =
      let (w, on) = loop_goes s.metrics_loop inv.calm_metrics in
      by_main s (record s { metrics_loop = w; main = metrics_wait }) metrics_stop inv h refl
        (rw on refl) refl
  stage s metrics_wait inv h x =
      let flag = inv.metrics_flag ∙ ap (λ m. ltb 2 (rank m)) h in
      let (t, r, i, k, gone) = loop_returns s inv (ap is_exited h) flag in
      by_wait s t (record t { main = pods_stop }) metrics_wait r i (k ∙ h) refl
        (if_then (loop_gone t.metrics_loop.looping) _ _ (ap loop_gone gone)) refl
  stage s pods_stop inv h x =
      let (w, on) = watcher_goes s.pod_watcher inv.calm_pods in
      by_main s (record s { pod_watcher = w; main = pods_wait }) pods_stop inv h refl (rw on refl)
        refl
  stage s pods_wait inv h x =
      let flag = inv.pods_flag ∙ ap (λ m. ltb 4 (rank m)) h in
      let (t, r, i, k, left, gone) = pods_return s inv (ap is_exited h) flag in
      by_wait s t (record t { main = nodes_stop }) pods_wait r i (k ∙ h) refl
        (if_then (watcher_gone t.pod_watcher.watching t.pod_watcher.dispatching) _ _
          (rw left (rw gone refl)))
        refl
  stage s nodes_stop inv h x =
      let (w, on) = watcher_goes s.node_watcher inv.calm_nodes in
      by_main s (record s { node_watcher = w; main = nodes_wait }) nodes_stop inv h refl
        (rw on refl) refl
  stage s nodes_wait inv h x =
      let flag = inv.nodes_flag ∙ ap (λ m. ltb 6 (rank m)) h in
      let (t, r, i, k, left, gone) = nodes_return s inv (ap is_exited h) flag in
      by_wait s t (record t { main = pool_stop }) nodes_wait r i (k ∙ h) refl
        (if_then (watcher_gone t.node_watcher.watching t.node_watcher.dispatching) _ _
          (rw left (rw gone refl)))
        refl
  stage s pool_stop inv h x =
      let (p, on) = stop_goes s.pool inv.calm_pool in
      let fresh = inv.pool.fresh (inv.stopper ∙ ap stopper_at h) in
      by_main s
        (record s { pool = p; main = if s.pool.pool.stopped then bus_stop else pool_signal })
        pool_stop inv h refl
        (ap (with_pool (record s { main = if s.pool.pool.stopped then bus_stop else pool_signal }))
          on)
        (if_else s.pool.pool.stopped _ _ fresh)
  stage s pool_signal inv h x =
      let (p, on) = signal_goes s.pool inv.calm_pool (inv.stopper ∙ ap stopper_at h) in
      by_main s (record s { pool = p; main = pool_wait }) pool_signal inv h refl (rw on refl) refl
  stage s pool_wait inv h x = pool_comes s inv h
  stage s bus_stop inv h x =
      let (b, on) = bus_goes s.bus inv.calm_bus in
      by_main s (record s { bus = b; main = bus_wait }) bus_stop inv h refl (rw on refl) refl
  stage s bus_wait inv h x = bus_comes s inv h
  stage s client_stop inv h x =
      by_main s (record s { client = stop_once s.client; main = database_close }) client_stop inv h
        refl refl refl
  stage s database_close inv h x =
      by_main s (record s { main = exited }) database_close inv h refl refl refl
  stage s exited inv h x = cc

  stages : (n : ℕ) (s : App P N A O) → AppInv s → rank s.main + n ≡ 15 → Arrives s exited
  stages zero s inv h = (s, here, inv, last_rank s.main (omega (arith, h)))
  stages (suc n) s inv h = elim (Bool-cases (is_exited s.main)) [
    | inl over ↦ (s, here, inv, exited-main s.main over)
    | inr going ↦
        let (t, r, i, k) = stage s s.main inv refl going in
        let up = ap rank k ∙ rank-successor s.main going in
        let (u, q, j, l) = stages n t i (omega (arith, up, h)) in (u, Reach-trans r q, j, l)
  ]

  -- In every run of the process from a positive interval, from every moment of it, `shutdown` can come
  -- to its end: none of its waits is a deadlock. Wherever the watchers, the metrics loop, the workers
  -- and the bus stand, there is a continuation in which `main` returns, and nothing panics.
  pub shutdown_ends :
      (os : List O) (interval : ℕ) {s : App P N A O}
      → int64_pos interval ≡ true
      → Reach (booted os interval) s
      → (t : App P N A O) × Reach s t × (t.main ≡ exited) × (any_panicked t ≡ false)
  shutdown_ends os interval {s} h r =
      let inv = Reach-AppInv os interval h r in
      let (t, q, i, k) = stages (15 - rank s.main) s inv (omega (arith, rank_bound s.main)) in
      (t, q, k, calm t i)
