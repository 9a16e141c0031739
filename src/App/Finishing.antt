-- ===== src/App/Finishing.antt =====
-- `shutdown` comes to its end.
use monitoring_tool.Prelude.{
  if_then, enabled, ℕ, zero, suc, ◌+◌, ◌-◌, ◌≡◌, refl, ◌∙◌, ◌++◌, ap, inl, inr, true, false, not,
  List, [], ◌∷◌, some, Bool-cases, ltb, arith,
}
use monitoring_tool.Pool.System
use monitoring_tool.Processor.Bus
use monitoring_tool.Collector.Watcher
use monitoring_tool.Collector.MetricsLoop
use monitoring_tool.App.System.{
  App, Main, serving, cancelling, metrics_stop, metrics_wait, pods_stop, pods_wait, nodes_stop,
  nodes_wait, pool_stop, pool_signal, pool_wait, bus_stop, bus_wait, client_stop, database_close,
  exited, rank, worker, bus_act, main_next, is_worker,
}
use monitoring_tool.App.Step.{main_act, Reach, here, next, is_exited}
use monitoring_tool.App.Invariant.{AppInv, stopper_at}
use monitoring_tool.App.Safety.{step-AppInv}
use monitoring_tool.App.Answering.{Reach-trans, acts}

-- `Good` is what a step of a worker keeps.
module _ {T : Type 0} (Good : System.System T → Type 0)
    (keep : (p t : System.System T) (a : System.Action T)
      → Good p
      → is_worker a ≡ true
      → System.step p a ≡ some t
      → Good t) where
  abbrev Idle : System.System T → Type 0
  Idle p =
      (t : System.System T) × Good t
      × (t.idle ≡ 0)
      × (t.running ≡ [])
      × (t.stopper ≡ p.stopper)
      × (t.panicked ≡ false)

  workers_exit :
      (k : ℕ) (p : System.System T)
      → Good p
      → p.idle ≡ k
      → p.running ≡ []
      → p.pool.stop_closed ≡ true
      → p.panicked ≡ false
      → Idle p
  unfolding System.step
  workers_exit zero p g i r c f = (p, g, i, r, refl, f)
  workers_exit (suc k) p g i r c f =
      let m = record p { idle = p.idle - 1; exited = p.exited + 1 } in
      workers_exit k m (keep p m System.exit_on_stop g refl (ground arith)) (omega arith) r c f

  workers_leave :
      (tasks : List T) (p : System.System T)
      → Good p
      → p.running ≡ tasks
      → p.pool.stop_closed ≡ true
      → p.panicked ≡ false
      → Idle p
  unfolding System.step
  workers_leave [] p g e c f = workers_exit p.idle p g refl e c f
  workers_leave (x ∷ xs) p g e c f =
      let m = record p { running = xs; idle = p.idle + 1; finished = p.finished ++ x ∷ [] } in
      workers_leave xs m (keep p m (System.finish_task 0) g refl (ground arith)) refl c f

module _ {T : Type 0} where
  pub finish_goes :
      (p : System.System T)
      → p.panicked ≡ false
      → p.idle ≡ 0
      → p.running ≡ []
      → p.stopper ≡ System.waiting
      → (t : System.System T) × (System.step p System.stop_finish ≡ some t)
  unfolding System.step
  finish_goes p c i r w = enabled (System.step p System.stop_finish) (λ stuck. ground arith)

  pub signal_goes :
      (p : System.System T)
      → p.panicked ≡ false
      → p.stopper ≡ System.closing
      → (t : System.System T) × (System.step p System.stop_signal ≡ some t)
  unfolding System.step
  signal_goes p c w = enabled (System.step p System.stop_signal) (λ stuck. ground arith)

  pub stop_goes :
      (p : System.System T)
      → p.panicked ≡ false
      → (t : System.System T) × (System.step p System.stop_begin ≡ some t)
  unfolding System.step
  stop_goes p c = enabled (System.step p System.stop_begin) (λ stuck. ground arith)

module _ {E : Type 0} where
  pub watcher_goes :
      (w : Watcher.System E)
      → w.panicked ≡ false
      → (t : Watcher.System E) × (Watcher.step w Watcher.stop ≡ some t)
  unfolding Watcher.step
  watcher_goes w c = enabled (Watcher.step w Watcher.stop) (λ stuck. ground arith)

pub loop_goes :
    (w : MetricsLoop.System)
    → w.panicked ≡ false
    → (t : MetricsLoop.System) × (MetricsLoop.step w MetricsLoop.stop ≡ some t)
unfolding MetricsLoop.step
loop_goes w c = enabled (MetricsLoop.step w MetricsLoop.stop) (λ stuck. ground arith)

module _ {A O : Type 0} where
  pub bus_goes :
      (b : Bus.System A O)
      → b.panicked ≡ false
      → (t : Bus.System A O) × (Bus.step b Bus.stop ≡ some t)
  unfolding Bus.step
  bus_goes b c = enabled (Bus.step b Bus.stop) (λ stuck. ground arith)

  dispatcher_leaves :
      (b : Bus.System A O)
      → b.panicked ≡ false
      → b.bus.stop_closed ≡ true
      → b.dispatching ≡ true
      → (t : Bus.System A O) × (Bus.step b Bus.see_stop ≡ some t) × (t.dispatching ≡ false)
  unfolding Bus.step
  dispatcher_leaves b c f d =
      let (t, on) = enabled (Bus.step b Bus.see_stop) (λ stuck. ground arith) in
      (t, on, ground arith)

-- The statement of `shutdown` after this one.
abbrev pub successor : Main → Main
successor serving = cancelling
successor cancelling = metrics_stop
successor metrics_stop = metrics_wait
successor metrics_wait = pods_stop
successor pods_stop = pods_wait
successor pods_wait = nodes_stop
successor nodes_stop = nodes_wait
successor nodes_wait = pool_stop
successor pool_stop = pool_signal
successor pool_signal = pool_wait
successor pool_wait = bus_stop
successor bus_stop = bus_wait
successor bus_wait = client_stop
successor client_stop = database_close
successor database_close = exited
successor exited = exited

module _ {P N A O : Type 0} where
  -- A run from `s` to a state where `main` stands here.
  abbrev pub Arrives : App P N A O → Main → Type 0
  Arrives s m = (t : App P N A O) × Reach s t × AppInv t × (t.main ≡ m)

  pub by_main :
      (s u : App P N A O) (m : Main)
      → AppInv s
      → s.main ≡ m
      → is_exited m ≡ false
      → main_act s m ≡ some u
      → u.main ≡ successor m
      → Arrives s (successor m)
  by_main s u m inv h x e k =
      let on = acts s main_next inv (ap is_exited h ∙ x) (ap (main_act s) h ∙ e) in
      (u, next main_next here on, step-AppInv s main_next inv on, k)

  -- The same from a later state, in which the wait is over.
  pub by_wait :
      (s t u : App P N A O) (m : Main)
      → Reach s t
      → AppInv t
      → t.main ≡ m
      → is_exited m ≡ false
      → main_act t m ≡ some u
      → u.main ≡ successor m
      → Arrives s (successor m)
  by_wait s t u m r i h x e k =
      let (v, q, j, l) = by_main t u m i h x e k in (v, Reach-trans r q, j, l)

  pub pool_comes : (s : App P N A O) → AppInv s → s.main ≡ pool_wait → Arrives s bus_stop
  pool_comes s inv h =
      let waits = inv.stopper ∙ ap stopper_at h in
      let (p, (r, i), idle, none_left, same, calm) =
        workers_leave (λ p. Reach s (record s { pool = p }) × AppInv (record s { pool = p }))
          (λ p t a (r, i) own on.
            let e =
              acts (record s { pool = p }) (worker a) i (ap is_exited h)
                (if_then (is_worker a) _ _ own ∙ rw on refl) in
            (next (worker a) r e, step-AppInv _ (worker a) i e))
          s.pool.running s.pool (here, inv) refl (inv.pool.workers_told waits) inv.calm_pool in
      let (q, on) = finish_goes p calm idle none_left (same ∙ waits) in
      by_wait s (record s { pool = p }) (record s { pool = q; main = bus_stop }) pool_wait r i h
        refl (rw on refl) refl

  pub bus_comes : (s : App P N A O) → AppInv s → s.main ≡ bus_wait → Arrives s client_stop
  bus_comes s inv h = elim (Bool-cases s.bus.dispatching) [
    | inl still ↦
        let (b, on, gone) =
          dispatcher_leaves s.bus inv.calm_bus (inv.bus_flag ∙ ap (λ m. ltb 11 (rank m)) h) still in
        let e = acts s (bus_act Bus.see_stop) inv (ap is_exited h) (rw on refl) in
        let t = record s { bus = b } in
        by_wait s t (record t { main = client_stop }) bus_wait (next _ here e)
          (step-AppInv s _ inv e) h refl (if_then (not b.dispatching) _ _ (ap not gone)) refl
    | inr over ↦
        by_main s (record s { main = client_stop }) bus_wait inv h refl
          (if_then (not s.bus.dispatching) _ _ (ap not over)) refl
  ]
