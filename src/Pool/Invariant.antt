-- ===== src/Pool/Invariant.antt =====
-- What holds of a running pool at every moment, whatever the order of the goroutines.
use monitoring_tool.Prelude.{
  ℤ, ℕ, ◌+◌, ◌≤◌, ◌≡◌, refl, ◌⊎◌, inl, inr, Bool, true, false, List, [], ◌∷◌, ◌++◌, some, arith,
  length, length-append, count_by, count_by-append, append_assoc, append-cons,
}
use monitoring_tool.Channel.Pick.{pick-Picks}
use monitoring_tool.Pool.{new_worker_pool}
use monitoring_tool.Pool.System.{
  not_called, waiting, done, System, Action, submit_begin, submit_end, take_task, finish_task,
  exit_on_close, exit_on_stop, exit_on_cancel, cancel, stop_begin, stop_signal, stop_finish, start,
  step, Reach, here, next,
}

module _ {T : Type 0} where
  pub record PoolInv (s : System T) : Type 0 where
    -- every queued task has been handed to a worker or is still in the queue, in order
    pub fifo : s.queued ≡ s.started ++ s.pool.task_queue.buffer
    pub bounded : length s.pool.task_queue.buffer ≤ s.pool.task_queue.capacity
    pub counted :
        (p : T → Bool) → count_by p s.started ≡ count_by p s.finished + count_by p s.running
    pub workers : s.idle + length s.running + s.exited ≡ s.pool.worker_count
    pub fresh : s.stopper ≡ not_called → s.pool.stopped ≡ false
    pub stopping : s.pool.stopped ≡ false → s.stopper ≡ not_called
    pub signalled : s.pool.stop_closed ≡ true → (s.stopper ≡ waiting) ⊎ (s.stopper ≡ done)
    pub workers_told : s.stopper ≡ waiting → s.pool.stop_closed ≡ true
    pub closed : s.pool.task_queue.closed ≡ true → s.stopper ≡ done
    pub quiet : s.stopper ≡ done → (s.idle ≡ 0) × (s.running ≡ [])

  module _ (s : System T) (inv : PoolInv s) where
    abbrev waiting_tasks : List T
    waiting_tasks = s.pool.task_queue.buffer

    submit_end-PoolInv : (i : ℕ) {u : System T} → step s (submit_end i) ≡ some u → PoolInv u
    unfolding step
    submit_end-PoolInv i h = elim (pick-Picks i s.checked) [
      | inl none_left ↦ ground arith
      | inr (x, rest, e, l, c) ↦ ground (
        arith,
        append_assoc s.started waiting_tasks (x ∷ []),
        length-append waiting_tasks (x ∷ []),
      )
    ]

    take_task-PoolInv :
        (waits : List T) {u : System T}
        → waiting_tasks ≡ waits
        → step s take_task ≡ some u
        → PoolInv u
    unfolding step
    take_task-PoolInv [] w h = ground arith
    take_task-PoolInv (x ∷ rest) {u} w h = record {
      fifo = ground (arith, append-cons s.started x rest);
      bounded = ground arith;
      counted = λ p. ground (
        arith,
        inv.counted p,
        count_by-append p s.started (x ∷ []),
        count_by-append p s.running (x ∷ []),
      );
      workers = ground (arith, length-append s.running (x ∷ []));
      fresh = ground arith;
      stopping = ground arith;
      signalled = ground arith;
      workers_told = ground arith;
      closed = ground arith;
      quiet = ground arith;
    }

    finish_task-PoolInv : (i : ℕ) {u : System T} → step s (finish_task i) ≡ some u → PoolInv u
    unfolding step
    finish_task-PoolInv i h = elim (pick-Picks i s.running) [
      | inl none_left ↦ ground arith
      | inr (x, rest, e, l, c) ↦ record {
        fifo = ground arith;
        bounded = ground arith;
        counted = λ p. ground (arith, c p, inv.counted p, count_by-append p s.finished (x ∷ []));
        workers = ground arith;
        fresh = ground arith;
        stopping = ground arith;
        signalled = ground arith;
        workers_told = ground arith;
        closed = ground arith;
        quiet = ground arith;
      }
    ]

  -- Every action of every goroutine keeps the invariant.
  pub step-PoolInv :
      (s : System T) (a : Action T) {u : System T} → PoolInv s → step s a ≡ some u → PoolInv u
  unfolding step
  step-PoolInv s (submit_begin t) inv h = ground arith
  step-PoolInv s (submit_end i) inv h = submit_end-PoolInv s inv i h
  step-PoolInv s take_task inv h = take_task-PoolInv s inv s.pool.task_queue.buffer refl h
  step-PoolInv s (finish_task i) inv h = finish_task-PoolInv s inv i h
  step-PoolInv s exit_on_close inv h = ground arith
  step-PoolInv s exit_on_stop inv h = ground arith
  step-PoolInv s exit_on_cancel inv h = ground arith
  step-PoolInv s cancel inv h = ground arith
  step-PoolInv s stop_begin inv h = ground arith
  step-PoolInv s stop_signal inv h = ground arith
  step-PoolInv s stop_finish inv h = ground arith

  pub start-PoolInv : (workers size : ℤ) → PoolInv (start (new_worker_pool workers size))
  unfolding start new_worker_pool
  start-PoolInv workers size = ground arith

  -- A pool made by `NewWorkerPool`, started, and run through any interleaving of its workers, of
  -- callers of `Submit` and of callers of `Stop`: the tasks handed to workers and those still
  -- queued are, in order, the tasks accepted; the queue stays within its capacity; each started
  -- task is in a worker or finished; no worker is lost; and once `Stop` has closed the queue no
  -- worker is left and no task is in flight; while it waits the workers are told to leave.
  pub Reach-PoolInv :
      (workers size : ℤ) {s : System T} → Reach (start (new_worker_pool workers size)) s → PoolInv s
  Reach-PoolInv workers size here = start-PoolInv workers size
  Reach-PoolInv workers size (next a r e) = step-PoolInv _ a (Reach-PoolInv workers size r) e
