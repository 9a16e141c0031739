-- ===== src/Pool/Stopping.antt =====
-- How `Stop` runs to its end, and what is left once it has returned.
use monitoring_tool.Prelude.{
  ℕ, zero, suc, ◌+◌, ◌-◌, ◌≡◌, refl, Bool, true, false, List, [], ◌∷◌, ◌++◌, ◌∙◌, Option, none,
  some, any, arith, String, if◌then◌else◌,
}
use monitoring_tool.Pool.System.{
  waiting, done, System, Action, finish_task, exit_on_stop, stop_finish, step, Reach, here, next,
  stop_with_timeout, is_done, Stopper,
}
use monitoring_tool.Pool.Invariant.{PoolInv, step-PoolInv}

-- No error.
abbrev is_none : {E : Type 0} → Option E → Bool
is_none none = true
is_none (some e) = false

returned-done :
    (st : Stopper) (before expired : Bool)
    → before ≡ false
    → any (is_none {E = String}) (
        (if (if before then true else is_done st) then none ∷ [] else [])
        ++ (if expired then some "worker pool shutdown timeout exceeded" ∷ [] else []))
      ≡ true
    → st ≡ done
returned-done st before expired fresh h = ground arith

module _ {T : Type 0} where
  pub Reach-trans : {r s t : System T} → Reach r s → Reach s t → Reach r t
  Reach-trans p here = p
  Reach-trans p (next a q e) = next a (Reach-trans p q) e

  pub Reach-PoolInv-from : {s t : System T} → PoolInv s → Reach s t → PoolInv t
  Reach-PoolInv-from inv here = inv
  Reach-PoolInv-from inv (next a r e) = step-PoolInv _ a (Reach-PoolInv-from inv r) e

  -- What a worker's way out leaves alone.
  abbrev Same : System T → System T → Type 0
  Same s t =
      (t.pool ≡ s.pool)
      × (t.checked ≡ s.checked)
      × (t.running ≡ s.running)
      × (t.stopper ≡ s.stopper)
      × (t.panicked ≡ s.panicked)
      × (t.started ≡ s.started)

  exit_all :
      (k : ℕ) (s : System T)
      → s.idle ≡ k
      → s.pool.stop_closed ≡ true
      → s.panicked ≡ false
      → (t : System T) × Reach s t × Same s t × (t.idle ≡ 0)
  unfolding step
  exit_all zero s i c p = (s, here, (refl, refl, refl, refl, refl, refl), i)
  exit_all (suc k) s i c p =
      let m = record s { idle = s.idle - 1; exited = s.exited + 1 } in
      let (t, r, same, z) = exit_all k m (omega arith) c p in
      (t, Reach-trans (next exit_on_stop here (ground arith)) r, same, z)

  finish_all :
      (tasks : List T) (s : System T)
      → s.running ≡ tasks
      → s.panicked ≡ false
      → (t : System T) × Reach s t
        × (t.pool ≡ s.pool)
        × (t.checked ≡ s.checked)
        × (t.stopper ≡ s.stopper)
        × (t.panicked ≡ false)
        × (t.started ≡ s.started)
        × (t.running ≡ [])
  unfolding step
  finish_all [] s e p = (s, here, refl, refl, refl, p, refl, e)
  finish_all (x ∷ xs) s e p =
      let m = record s { running = xs; idle = s.idle + 1; finished = s.finished ++ x ∷ [] } in
      let (t, r, a, b, c, d, f, g) = finish_all xs m refl p in
      (t, Reach-trans (next (finish_task 0) here (ground arith)) r, a, b, c, d, f, g)

  stop_finish_lem :
      (s : System T)
      → s.stopper ≡ waiting
      → s.pool.task_queue.closed ≡ false
      → s.panicked ≡ false
      → s.idle ≡ 0
      → s.running ≡ []
      → (t : System T) × (step s stop_finish ≡ some t)
        × (t.stopper ≡ done)
        × (t.panicked ≡ false)
        × (t.started ≡ s.started)
        × (t.checked ≡ s.checked)
        × (t.pool.task_queue.closed ≡ true)
  unfolding step
  stop_finish_lem s w c p i r = (
    record s {
      pool = record s.pool { task_queue = record s.pool.task_queue { closed = true } };
      stopper = done;
    },
    ground arith,
    refl,
    p,
    refl,
    refl,
    refl,
  )

  -- `Stop` can always return: from any moment at which it waits, with the workers that then run
  -- let finish, there is a continuation that ends with the queue closed, and starts no further task.
  pub stop_completes :
      {s : System T}
      → PoolInv s
      → s.stopper ≡ waiting
      → s.pool.stop_closed ≡ true
      → s.panicked ≡ false
      → (t : System T) × Reach s t
        × (t.stopper ≡ done)
        × (t.panicked ≡ false)
        × (t.started ≡ s.started)
        × (t.checked ≡ s.checked)
        × (t.pool.task_queue.closed ≡ true)
  stop_completes {s} inv w c p =
      let (a, ra, pool_a, checked_a, stopper_a, fine_a, started_a, none_a) =
        finish_all s.running s refl p in
      let (b, rb, (pool_b, checked_b, running_b, stopper_b, fine_b, started_b), idle_b) =
        exit_all a.idle a refl (ground arith) fine_a in
      let (t, st, d, fine, started_t, checked_t, closed_t) =
        stop_finish_lem b (ground arith) (ground arith) (ground arith) idle_b (ground arith) in
      (t, next stop_finish (Reach-trans ra rb) st, d, fine, ground arith, ground arith, closed_t)

  step-done :
      (m : System T) (a : Action T) {t : System T}
      → PoolInv m
      → m.stopper ≡ done
      → step m a ≡ some t
      → (t.started ≡ m.started) × (t.finished ≡ m.finished) × (t.stopper ≡ done)
  unfolding step
  step-done m (finish_task i) inv d e = ground arith
  step-done m _ inv d e = ground arith

  -- Once `Stop` has returned, no task is ever started again: what it left in the queue is dropped.
  pub done_starts_nothing :
      {s t : System T}
      → PoolInv s
      → s.stopper ≡ done
      → Reach s t
      → (t.started ≡ s.started) × (t.finished ≡ s.finished) × (t.stopper ≡ done)
  done_starts_nothing inv d here = (refl, refl, d)
  done_starts_nothing {t} inv d (next {t = m} a r e) =
      let (sm, fm, dm) = done_starts_nothing inv d r in
      let (st, ft, dt) = step-done m a (Reach-PoolInv-from inv r) dm e in (st ∙ sm, ft ∙ fm, dt)

  -- A `StopWithTimeout` that returns no error, on a pool that no other `Stop` had stopped before, has
  -- waited for every worker: none is left and no task runs.
  pub stop_with_timeout-quiet :
      (found now : System T) (expired : Bool)
      → PoolInv now
      → found.pool.stopped ≡ false
      → any is_none (stop_with_timeout (some found) now expired) ≡ true
      → (now.idle ≡ 0) × (now.running ≡ [])
  unfolding stop_with_timeout
  stop_with_timeout-quiet found now expired inv fresh h =
      inv.quiet (returned-done now.stopper found.pool.stopped expired fresh h)
