-- ===== src/App/Senders.antt =====
-- Who stands between the test of `stopped` and the send.
use monitoring_tool.Prelude.{ℕ, ◌≡◌, Bool, true, false, List, [], ◌∷◌, ◌++◌, none, some, arith}
use monitoring_tool.Channel.{pick}
use monitoring_tool.Pool.{submit_check}
use monitoring_tool.Pool.System
use monitoring_tool.Collector.Watcher.{
  submitting, watch_returned, dispatch_returned, pod_capacity, node_capacity,
}
use monitoring_tool.Collector.Watcher
use monitoring_tool.Collector.MetricsLoop
use monitoring_tool.Processor.Bus
use monitoring_tool.App.System.{is_worker, is_watcher, is_loop, is_bus_own}

module _ {T : Type 0} where
  -- What an action of a worker leaves alone.
  pub worker_keeps :
      (s : System.System T) (a : System.Action T) {t : System.System T}
      → is_worker a ≡ true
      → System.step s a ≡ some t
      → (t.checked ≡ s.checked)
        × (t.stopper ≡ s.stopper)
        × (t.panicked ≡ s.panicked)
        × (t.cancelled ≡ s.cancelled)
  unfolding System.step
  worker_keeps s a w e = ground arith

abbrev pub is_checking : MetricsLoop.Looping → Bool
is_checking (MetricsLoop.submitting_check c) = true
is_checking _ = false

abbrev pub is_submitting : {E : Type 0} → Watcher.Dispatching E → Bool
is_submitting (Watcher.submitting e) = true
is_submitting _ = false

module _ {E : Type 0} where
  -- What an action of a watcher's own goroutines leaves alone.
  pub watcher_keeps :
      (s : Watcher.System E) (a : Watcher.Action E) {t : Watcher.System E}
      → is_watcher a ≡ true
      → Watcher.step s a ≡ some t
      → s.event_chan.closed ≡ false
      → (t.stop_closed ≡ s.stop_closed)
        × (t.panicked ≡ s.panicked)
        × (t.cancelled ≡ s.cancelled)
        × ((is_submitting s.dispatching ≡ true) → t.dispatching ≡ s.dispatching)
        × ((s.dispatching ≡ dispatch_returned) → t.dispatching ≡ dispatch_returned)
  unfolding Watcher.step
  watcher_keeps s a w e c = ground arith

module _ {E : Type 0} where
  -- What the end of a submission leaves alone.
  pub submit_keeps :
      (s : Watcher.System E) (done : Bool) {t : Watcher.System E}
      → Watcher.step s (Watcher.submit_event done) ≡ some t
      → (t.stop_closed ≡ s.stop_closed)
        × (t.panicked ≡ s.panicked)
        × (s.dispatching ≡ dispatch_returned → t.dispatching ≡ dispatch_returned)
  unfolding Watcher.step
  submit_keeps s done e = ground arith

pub check_keeps :
    (s : MetricsLoop.System) (done : Bool) {t : MetricsLoop.System}
    → MetricsLoop.step s (MetricsLoop.submit_check done) ≡ some t
    → (t.stop_closed ≡ s.stop_closed)
      × (t.panicked ≡ s.panicked)
      × (s.looping ≡ MetricsLoop.loop_returned → t.looping ≡ MetricsLoop.loop_returned)
unfolding MetricsLoop.step
check_keeps s done e = ground arith

pub loop_keeps :
    (s : MetricsLoop.System) (a : MetricsLoop.Action) {t : MetricsLoop.System}
    → is_loop a ≡ true
    → MetricsLoop.step s a ≡ some t
    → (t.stop_closed ≡ s.stop_closed)
      × (t.panicked ≡ s.panicked)
      × (t.cancelled ≡ s.cancelled)
      × (is_checking s.looping ≡ true → t.looping ≡ s.looping)
      × (s.looping ≡ MetricsLoop.loop_returned → t.looping ≡ MetricsLoop.loop_returned)
unfolding MetricsLoop.step
loop_keeps s a l e = ground arith

module _ {T : Type 0} where
  -- The two halves of `Submit` in the pool.
  pub begin_keeps :
      (s : System.System T) (task : T) {t : System.System T}
      → submit_check s.pool ≡ none
      → System.step s (System.submit_begin task) ≡ some t
      → (t.checked ≡ s.checked ++ task ∷ []) × (t.stopper ≡ s.stopper) × (t.panicked ≡ s.panicked)
  unfolding System.step
  begin_keeps s task c e = ground arith

  pub end_keeps :
      (s : System.System T) (i : ℕ) (task : T) (rest : List T) {t : System.System T}
      → pick i s.checked ≡ some (task, rest)
      → s.pool.task_queue.closed ≡ false
      → System.step s (System.submit_end i) ≡ some t
      → (t.checked ≡ rest) × (t.stopper ≡ s.stopper) × (t.panicked ≡ s.panicked)
  unfolding System.step
  end_keeps s i task rest k c e = ground arith

module _ {A O : Type 0} where
  -- What an action of the dispatcher of the bus, or a publication, leaves alone.
  pub bus_keeps :
      (s : Bus.System A O) (a : Bus.Action A) {t : Bus.System A O}
      → is_bus_own a ≡ true
      → Bus.step s a ≡ some t
      → s.bus.event_chan.closed ≡ false
      → (t.bus.stop_closed ≡ s.bus.stop_closed)
        × (t.panicked ≡ s.panicked)
        × (t.bus.event_chan.closed ≡ false)
  unfolding Bus.step
  bus_keeps s a b e c = ground arith
