-- ===== src/Pool/Races.antt =====
-- The answers of `Submit`, and `Submit` against `Stop`.
use monitoring_tool.Prelude.{
  ◌≤◌, ◌<◌, ◌≡◌, refl, ◌⊎◌, Bool, true, false, List, [], ◌∷◌, ◌++◌, ◌∙◌, some, arith,
}
use monitoring_tool.Pool.{
  WorkerPool, accepted, rejected, pool_stopped, queue_full, context_done, submit_with_context,
  get_queue_size,
}
use monitoring_tool.Pool.System.{
  not_called, closing, waiting, System, Action, submit_begin, submit_end, take_task, stop_begin,
  stop_signal, step, Reach, here, next,
}
use monitoring_tool.Pool.Invariant.{PoolInv, step-PoolInv}
use monitoring_tool.Pool.Stopping.{Reach-trans, Reach-PoolInv-from, stop_completes}

module _ {T : Type 0} where
  -- The pool between two calls: its queue is closed only when it is stopped.
  abbrev pub ClosedIsStopped : WorkerPool T → Type 0
  ClosedIsStopped wp = wp.task_queue.closed ≡ true → wp.stopped ≡ true

  -- An answer of `SubmitWithContext`, and what was so when it was given.
  abbrev pub SubmitCases : Bool → WorkerPool T → T → Type 0
  SubmitCases finished wp task =
      ((finished ≡ true) × (submit_with_context finished wp task ≡ rejected context_done))
      ⊎ ((finished ≡ false)
          × (wp.stopped ≡ true)
          × (submit_with_context finished wp task ≡ rejected pool_stopped))
      ⊎ ((finished ≡ false)
          × (wp.stopped ≡ false)
          × (get_queue_size wp < wp.task_queue.capacity)
          × (submit_with_context finished wp task
              ≡ accepted (record wp {
                task_queue = record wp.task_queue { buffer = wp.task_queue.buffer ++ task ∷ [] };
              })))
      ⊎ ((finished ≡ false)
          × (wp.stopped ≡ false)
          × (wp.task_queue.capacity ≤ get_queue_size wp)
          × (submit_with_context finished wp task ≡ rejected queue_full))

  -- What `SubmitWithContext` answers, by the state of the context and of the pool: the context's
  -- error, the stopped error, the task at the end of the queue, or the full error. It never panics
  -- when no other goroutine runs between its check and its send.
  pub submit_with_context_cases :
      (finished : Bool) (wp : WorkerPool T) (task : T)
      → ClosedIsStopped wp
      → SubmitCases finished wp task
  unfolding submit_with_context
  submit_with_context_cases finished wp task c = ground arith

  stop_panic_free_step :
      (m : System T) (a : Action T) {t : System T}
      → PoolInv m
      → m.pool.stopped ≡ true
      → m.checked ≡ []
      → m.panicked ≡ false
      → step m a ≡ some t
      → (t.panicked ≡ false) × (t.checked ≡ []) × (t.pool.stopped ≡ true)
  unfolding step
  stop_panic_free_step m (submit_begin x) inv st ch pa e = ground arith
  stop_panic_free_step m take_task inv st ch pa e = ground arith
  stop_panic_free_step m _ inv st ch pa e = ground arith

  -- Once the stop flag is set and no caller of `Submit` is past the check, no order of the
  -- remaining actions makes any goroutine panic: both channels are closed once, and nothing is sent
  -- on the closed queue.
  pub stop_panic_free :
      {s t : System T}
      → PoolInv s
      → s.pool.stopped ≡ true
      → s.checked ≡ []
      → s.panicked ≡ false
      → Reach s t
      → (t.panicked ≡ false) × (t.checked ≡ []) × (t.pool.stopped ≡ true) × PoolInv t
  unfolding step
  stop_panic_free inv st ch pa here = (pa, ch, st, inv)
  stop_panic_free {t} inv st ch pa (next {t = m} a r e) =
      let (pm, cm, sm, im) = stop_panic_free inv st ch pa r in
      let (pt, ct, st') = stop_panic_free_step m a im sm cm pm e in
      (pt, ct, st', step-PoolInv m a im e)

  before_stop :
      (s : System T) (task : T)
      → s.stopper ≡ not_called
      → PoolInv s
      → s.panicked ≡ false
      → (t : System T) × Reach s t
        × (t.stopper ≡ waiting)
        × (t.panicked ≡ false)
        × (t.checked ≡ s.checked ++ task ∷ [])
        × (t.pool.stop_closed ≡ true)
  unfolding step
  before_stop s task n inv p =
      let a = record s { checked = s.checked ++ task ∷ [] } in
      let b = record a { pool = record s.pool { stopped = true }; stopper = closing } in
      let c = record b { pool = record b.pool { stop_closed = true }; stopper = waiting } in
      (
        c,
        next {t = b} stop_signal
            (next {t = a} stop_begin (next {t = s} (submit_begin task) here (ground arith))
              (ground arith))
            (ground arith),
        refl,
        p,
        refl,
        refl,
      )

  submit_end_panics :
      (s : System T) (xs : List T) (task : T)
      → s.checked ≡ xs ++ task ∷ []
      → s.pool.task_queue.closed ≡ true
      → s.panicked ≡ false
      → (t : System T) × (step s (submit_end 0) ≡ some t) × (t.panicked ≡ true)
  unfolding step
  submit_end_panics s [] task c k p =
      (record s { checked = []; panicked = true }, ground arith, refl)
  submit_end_panics s (x ∷ xs) task c k p =
      (record s { checked = xs ++ task ∷ []; panicked = true }, ground arith, refl)

  -- The lock of `Submit` does not cover its send: from every moment before `Stop` is called, a call
  -- of `Submit` that has passed its check can be overtaken by a whole `Stop`, and its send on the
  -- closed queue panics.
  pub submit_stop_race :
      (s : System T) (task : T)
      → PoolInv s
      → s.stopper ≡ not_called
      → s.panicked ≡ false
      → (t : System T) × Reach s t × (t.panicked ≡ true)
  submit_stop_race s task inv n p =
      let (a, ra, wa, pa, ca, sa) = before_stop s task n inv p in
      let (b, rb, db, pb, _, cb, kb) = stop_completes (Reach-PoolInv-from inv ra) wa sa pa in
      let (t, e, panics) = submit_end_panics b s.checked task (cb ∙ ca) kb pb in
      (t, next (submit_end 0) (Reach-trans ra rb) e, panics)
