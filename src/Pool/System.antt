-- ===== src/Pool/System.antt =====
-- A running pool: workers in `worker`, callers inside `Submit` and callers inside `Stop`, one
-- atomic action at a time. Workers are alike, so they are counted by where they stand.
use monitoring_tool.Prelude.{
  ℕ, ◌+◌, ◌-◌, Bool, true, false, ◌&&◌, List, [], ◌∷◌, ◌++◌, Option, none, some, String, ltb, ◌==◌,
  length, if◌then◌else◌, ◌≡◌,
}
use monitoring_tool.Channel.{
  Channel, Receiving, received, drained, blocked, receive, close_chan, pick,
}
use monitoring_tool.Pool.{
  WorkerPool, SubmitError, Submitted, accepted, rejected, submit_panic, submit_check, submit_send,
}

-- Where the call of `Stop` that won the lock stands; `Stop` by others returns at once.
pub data Stopper : Type 0 where
  not_called : Stopper
  closing : Stopper  -- before close(stopChan)
  waiting : Stopper  -- in wg.Wait()
  done : Stopper

pub record System (T : Type 0) : Type 0 where
  pub pool : WorkerPool T
  pub checked : List T  -- callers of `Submit` between the check and the send
  pub idle : ℕ  -- workers at their `select`
  pub running : List T  -- workers inside a task
  pub exited : ℕ  -- workers that have returned
  pub cancelled : Bool  -- ctx.Done()
  pub stopper : Stopper
  pub queued : List T  -- every task that a send has put on the queue, in order
  pub started : List T  -- every task that a worker has received, in order
  pub finished : List T
  pub panicked : Bool

pub data Action (T : Type 0) : Type 0 where
  submit_begin : T → Action T
  submit_end : ℕ → Action T  -- the i-th of those that wait sends
  take_task : Action T
  finish_task : ℕ → Action T
  exit_on_close : Action T
  exit_on_stop : Action T
  exit_on_cancel : Action T
  cancel : Action T
  stop_begin : Action T
  stop_signal : Action T
  stop_finish : Action T

module _ {T : Type 0} where
  -- `Start`: every worker is at its `select`.
  unfoldable pub start : WorkerPool T → System T
  start wp = record {
    pool = wp;
    checked = [];
    idle = wp.worker_count;
    running = [];
    exited = 0;
    cancelled = false;
    stopper = not_called;
    queued = [];
    started = [];
    finished = [];
    panicked = false;
  }

  abbrev begins : System T → T → Option SubmitError → Option (System T)
  begins s task none = some (record s { checked = s.checked ++ task ∷ [] })
  begins s task (some e) = some s

  abbrev ends : System T → T → Submitted T → System T
  ends s task (accepted wp) = record s { pool = wp; queued = s.queued ++ task ∷ [] }
  ends s task (rejected e) = s
  ends s task submit_panic = record s { panicked = true }

  abbrev sends : System T → Option (T × List T) → Option (System T)
  sends s none = none
  sends s (some (task, rest)) =
      some (ends (record s { checked = rest }) task (submit_send s.pool task))

  abbrev takes : System T → Receiving T → Option (System T)
  takes s (received task ch) = some (record s {
    pool = record s.pool { task_queue = ch };
    idle = s.idle - 1;
    running = s.running ++ task ∷ [];
    started = s.started ++ task ∷ [];
  })
  takes s drained = none
  takes s blocked = none

  abbrev leaves : System T → Bool → Option (System T)
  leaves s enabled =
      if enabled && ltb 0 s.idle
      then some (record s { idle = s.idle - 1; exited = s.exited + 1 })
      else none

  abbrev is_drained : Receiving T → Bool
  is_drained drained = true
  is_drained _ = false

  abbrev finishes : System T → Option (T × List T) → Option (System T)
  finishes s none = none
  finishes s (some (task, rest)) =
      some (record s { running = rest; idle = s.idle + 1; finished = s.finished ++ task ∷ [] })

  abbrev signals : System T → Stopper → Option (System T)
  signals s closing =
      if s.pool.stop_closed
      then some (record s { panicked = true })
      else some (record s { pool = record s.pool { stop_closed = true }; stopper = waiting })
  signals s _ = none

  -- After `wg.Wait()`: no worker is left, at its `select` or in a task.
  abbrev completes : System T → Stopper → Option (Channel T) → Option (System T)
  completes s waiting none = some (record s { panicked = true })
  completes s waiting (some ch) =
      some (record s { pool = record s.pool { task_queue = ch }; stopper = done })
  completes s _ _ = none

  abbrev act : System T → Action T → Option (System T)
  act s (submit_begin task) = begins s task (submit_check s.pool)
  act s (submit_end i) = sends s (pick i s.checked)
  act s take_task = if ltb 0 s.idle then takes s (receive s.pool.task_queue) else none
  act s (finish_task i) = finishes s (pick i s.running)
  act s exit_on_close = leaves s (is_drained (receive s.pool.task_queue))
  act s exit_on_stop = leaves s s.pool.stop_closed
  act s exit_on_cancel = leaves s s.cancelled
  act s cancel = some (record s { cancelled = true })
  act s stop_begin =
      if s.pool.stopped
      then some s
      else some (record s { pool = record s.pool { stopped = true }; stopper = closing })
  act s stop_signal = signals s s.stopper
  act s stop_finish =
      if s.idle + length s.running == 0
      then completes s s.stopper (close_chan s.pool.task_queue)
      else none

  -- `none` where the action is not enabled; after a panic the process is gone.
  unfoldable pub step : System T → Action T → Option (System T)
  step s a = if s.panicked then none else act s a

  pub data Reach (s : System T) : System T → Type 0 where
    here : Reach s s
    next : {t u : System T} (a : Action T) → Reach s t → step t a ≡ some u → Reach s u

abbrev pub is_done : Stopper → Bool
is_done done = true
is_done _ = false

-- `StopWithTimeout`.
module _ {T : Type 0} where
  -- Whether the `Stop` of its goroutine has returned, where it found the pool in this state when it
  -- took the lock, if it has: a pool that is stopped already lets it return at once.
  abbrev stop_returned : Option (System T) → System T → Bool
  stop_returned none now = false
  stop_returned (some found) now = if found.pool.stopped then true else is_done now.stopper

  -- The results that its `select` may give now, with the timeout over or not; none while it waits.
  unfoldable pub stop_with_timeout : Option (System T) → System T → Bool → List (Option String)
  stop_with_timeout found now expired =
      (if stop_returned found now then none ∷ [] else [])
      ++ (if expired then some "worker pool shutdown timeout exceeded" ∷ [] else [])
