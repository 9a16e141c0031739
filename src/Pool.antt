-- ===== src/Pool.antt =====
-- internal/pool/worker_pool.go. The pool's fields, its operations one lock or channel action at a
-- time, and the goroutines of a running pool as a system whose actions interleave in any order.
pub mod System
pub mod Invariant
pub mod Stopping
pub mod Races
use monitoring_tool.Prelude.{
  ℕ, zero, suc, ◌+◌, ◌-◌, Bool, true, false, List, [], ◌∷◌, ◌++◌, Option, none, some, String, ltb,
  ◌==◌, length, if◌then◌else◌, ℤ, to_ℕ, is_non_pos,
}
use monitoring_tool.Channel.{
  Channel, make_chan, Sending, sent, full, send_panic, try_send, Receiving, received, drained,
  blocked, receive, close_chan, chan_len, pick,
}

-- `wg` is left to the system below: it counts the workers that have not returned.
pub record WorkerPool (T : Type 0) : Type 0 where
  pub worker_count : ℕ
  pub task_queue : Channel T
  pub stop_closed : Bool  -- stopChan
  pub stopped : Bool

pub data SubmitError : Type 0 where
  pool_stopped queue_full : SubmitError
  context_done : SubmitError  -- ctx.Err()

pub data Submitted (T : Type 0) : Type 0 where
  accepted : WorkerPool T → Submitted T
  rejected : SubmitError → Submitted T
  submit_panic : Submitted T

module _ {T : Type 0} where
  unfoldable pub new_worker_pool : ℤ → ℤ → WorkerPool T
  new_worker_pool workers queue_size = record {
    worker_count = if is_non_pos workers then 1 else to_ℕ workers;
    task_queue = make_chan (if is_non_pos queue_size then 100 else to_ℕ queue_size);
    stop_closed = false;
    stopped = false;
  }

  -- The part of `Submit` under the read lock.
  abbrev pub submit_check : WorkerPool T → Option SubmitError
  submit_check wp = if wp.stopped then some pool_stopped else none

  abbrev after_send : WorkerPool T → Sending T → Submitted T
  after_send wp (sent ch) = accepted (record wp { task_queue = ch })
  after_send wp full = rejected queue_full
  after_send wp send_panic = submit_panic

  -- The part of `Submit` after the lock is released.
  abbrev pub submit_send : WorkerPool T → T → Submitted T
  submit_send wp task = after_send wp (try_send wp.task_queue task)

  -- `Submit` when no other goroutine runs between its two parts.
  unfoldable pub submit : WorkerPool T → T → Submitted T
  submit wp task = elim (submit_check wp) [ some e ↦ rejected e | none ↦ submit_send wp task ]

  unfoldable pub submit_with_context : Bool → WorkerPool T → T → Submitted T
  unfolding submit
  submit_with_context done wp task = if done then rejected context_done else submit wp task

  abbrev pub get_worker_count : WorkerPool T → ℕ
  get_worker_count wp = wp.worker_count

  abbrev pub get_queue_size : WorkerPool T → ℕ
  get_queue_size wp = chan_len wp.task_queue

  abbrev pub is_stopped : WorkerPool T → Bool
  is_stopped wp = wp.stopped
