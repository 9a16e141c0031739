-- ===== src/App/Waits.antt =====
-- What `shutdown` waits for, in the process.
use monitoring_tool.Prelude.{
  if_then, enabled, ◌≡◌, refl, ◌∙◌, sym, ap, true, false, some, ltb, arith,
}
use monitoring_tool.Collector.Watcher.{
  Dispatching, selecting, submitting, dispatch_returned, watch_returned,
}
use monitoring_tool.Collector.MetricsLoop
use monitoring_tool.Collector.MetricsLoop.{
  Looping, submitting_check, waiting, loop_returned, pod_check, node_check,
}
use monitoring_tool.App.System.{
  App, pods, nodes, metrics, rank, pod_act, node_act, metrics_act, is_watcher, pod_job, node_job,
  check_job,
}
use monitoring_tool.App.Step.{Reach, here, next, is_exited}
use monitoring_tool.App.Invariant.{AppInv}
use monitoring_tool.App.Safety.{step-AppInv}
use monitoring_tool.App.Answering.{Reach-trans, acts}
use monitoring_tool.App.Returning.{submission_ends}
use monitoring_tool.App.Draining.{drains, is_idle}
use monitoring_tool.App.Answering.{after_looping}

loop_leaves :
    (w : MetricsLoop.System)
    → w.panicked ≡ false
    → w.stop_closed ≡ true
    → w.looping ≡ waiting
    → (t : MetricsLoop.System) × (MetricsLoop.step w MetricsLoop.leave_loop ≡ some t)
      × (t.looping ≡ loop_returned)
unfolding MetricsLoop.step
loop_leaves w c f h =
    let (t, on) = enabled (MetricsLoop.step w MetricsLoop.leave_loop) (λ stuck. ground arith) in
    (t, on, ground arith)

module _ {P N A O : Type 0} where
  abbrev pub PodsReturn : App P N A O → Type 0
  PodsReturn s =
      (t : App P N A O) × Reach s t
      × AppInv t
      × (t.main ≡ s.main)
      × (t.pod_watcher.watching ≡ watch_returned)
      × (t.pod_watcher.dispatching ≡ dispatch_returned)

  abbrev pub NodesReturn : App P N A O → Type 0
  NodesReturn s =
      (t : App P N A O) × Reach s t
      × AppInv t
      × (t.main ≡ s.main)
      × (t.node_watcher.watching ≡ watch_returned)
      × (t.node_watcher.dispatching ≡ dispatch_returned)

  abbrev pub LoopReturns : App P N A O → Type 0
  LoopReturns s =
      (t : App P N A O) × Reach s t
      × AppInv t
      × (t.main ≡ s.main)
      × (t.metrics_loop.looping ≡ loop_returned)

  pods_idle :
      (s : App P N A O)
      → AppInv s
      → is_exited s.main ≡ false
      → s.pod_watcher.stop_closed ≡ true
      → is_idle s.pod_watcher.dispatching ≡ true
      → PodsReturn s
  pods_idle s inv m f idle =
      let (w, (r, i), l, d) =
        drains (λ w. Reach s (record s { pod_watcher = w }) × AppInv (record s { pod_watcher = w }))
          (λ w t a (r, i) own on.
            let e =
              acts (record s { pod_watcher = w }) (pod_act a) i m
                (if_then (is_watcher a) _ _ own ∙ rw on refl) in
            (next (pod_act a) r e, step-AppInv _ (pod_act a) i e))
          s.pod_watcher s.pod_watcher.dispatching (here, inv) (inv.calm_pods, f) refl idle in
      (record s { pod_watcher = w }, r, i, refl, l, d)

  -- The wait of the pods' `Stop`.
  pub pods_return :
      (s : App P N A O)
      → AppInv s
      → is_exited s.main ≡ false
      → s.pod_watcher.stop_closed ≡ true
      → PodsReturn s
  pods_return s inv m f = from s.pod_watcher.dispatching refl
    where
      from : (d : Dispatching P) → s.pod_watcher.dispatching ≡ d → PodsReturn s
      from (submitting e) h =
          let (t, r, i, k, (d, l)) = submission_ends s pods (pod_job e) inv m (rw h refl) in
          let flag = i.pods_flag ∙ ap (λ x. ltb 4 (rank x)) k ∙ sym inv.pods_flag ∙ f in
          let (u, q, j, o, left, gone) = pods_idle t i (ap is_exited k ∙ m) flag (rw d refl) in
          (u, Reach-trans r q, j, o ∙ k, left, gone)
      from selecting h = pods_idle s inv m f (rw h refl)
      from dispatch_returned h = pods_idle s inv m f (rw h refl)

  nodes_idle :
      (s : App P N A O)
      → AppInv s
      → is_exited s.main ≡ false
      → s.node_watcher.stop_closed ≡ true
      → is_idle s.node_watcher.dispatching ≡ true
      → NodesReturn s
  nodes_idle s inv m f idle =
      let (w, (r, i), l, d) =
        drains
          (λ w. Reach s (record s { node_watcher = w }) × AppInv (record s { node_watcher = w }))
          (λ w t a (r, i) own on.
            let e =
              acts (record s { node_watcher = w }) (node_act a) i m
                (if_then (is_watcher a) _ _ own ∙ rw on refl) in
            (next (node_act a) r e, step-AppInv _ (node_act a) i e))
          s.node_watcher s.node_watcher.dispatching (here, inv) (inv.calm_nodes, f) refl idle in
      (record s { node_watcher = w }, r, i, refl, l, d)

  -- The wait of the nodes' `Stop`.
  pub nodes_return :
      (s : App P N A O)
      → AppInv s
      → is_exited s.main ≡ false
      → s.node_watcher.stop_closed ≡ true
      → NodesReturn s
  nodes_return s inv m f = from s.node_watcher.dispatching refl
    where
      from : (d : Dispatching N) → s.node_watcher.dispatching ≡ d → NodesReturn s
      from (submitting e) h =
          let (t, r, i, k, (d, l)) = submission_ends s nodes (node_job e) inv m (rw h refl) in
          let flag = i.nodes_flag ∙ ap (λ x. ltb 6 (rank x)) k ∙ sym inv.nodes_flag ∙ f in
          let (u, q, j, o, left, gone) = nodes_idle t i (ap is_exited k ∙ m) flag (rw d refl) in
          (u, Reach-trans r q, j, o ∙ k, left, gone)
      from selecting h = nodes_idle s inv m f (rw h refl)
      from dispatch_returned h = nodes_idle s inv m f (rw h refl)

  loop_waits :
      (s : App P N A O)
      → AppInv s
      → is_exited s.main ≡ false
      → s.metrics_loop.stop_closed ≡ true
      → s.metrics_loop.looping ≡ waiting
      → LoopReturns s
  loop_waits s inv m f h =
      let (w, on, gone) = loop_leaves s.metrics_loop inv.calm_metrics f h in
      let e = acts s (metrics_act MetricsLoop.leave_loop) inv m (rw on refl) in
      (record s { metrics_loop = w }, next _ here e, step-AppInv s _ inv e, refl, gone)

  second_check :
      (s : App P N A O)
      → AppInv s
      → is_exited s.main ≡ false
      → s.metrics_loop.stop_closed ≡ true
      → s.metrics_loop.looping ≡ submitting_check node_check
      → LoopReturns s
  second_check s inv m f h =
      let (t, r, i, k, l) = submission_ends s metrics (check_job node_check) inv m (rw h refl) in
      let flag = i.metrics_flag ∙ ap (λ x. ltb 2 (rank x)) k ∙ sym inv.metrics_flag ∙ f in
      let (u, q, j, o, gone) = loop_waits t i (ap is_exited k ∙ m) flag (l ∙ ap after_looping h) in
      (u, Reach-trans r q, j, o ∙ k, gone)

  loop_from :
      (s : App P N A O) (l : Looping)
      → AppInv s
      → is_exited s.main ≡ false
      → s.metrics_loop.stop_closed ≡ true
      → s.metrics_loop.looping ≡ l
      → LoopReturns s
  loop_from s loop_returned inv m f h = (s, here, inv, refl, h)
  loop_from s waiting inv m f h = loop_waits s inv m f h
  loop_from s (submitting_check node_check) inv m f h = second_check s inv m f h
  loop_from s (submitting_check pod_check) inv m f h =
      let (t, r, i, k, l) = submission_ends s metrics (check_job pod_check) inv m (rw h refl) in
      let flag = i.metrics_flag ∙ ap (λ x. ltb 2 (rank x)) k ∙ sym inv.metrics_flag ∙ f in
      let (u, q, j, o, gone) =
        second_check t i (ap is_exited k ∙ m) flag (l ∙ ap after_looping h) in
      (u, Reach-trans r q, j, o ∙ k, gone)

  -- The wait of the metrics watcher's `Stop`.
  pub loop_returns :
      (s : App P N A O)
      → AppInv s
      → is_exited s.main ≡ false
      → s.metrics_loop.stop_closed ≡ true
      → LoopReturns s
  loop_returns s inv m f = loop_from s s.metrics_loop.looping inv m f refl
