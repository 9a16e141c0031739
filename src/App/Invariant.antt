-- ===== src/App/Invariant.antt =====
-- What holds of the process at every moment.
use monitoring_tool.Prelude.{ℕ, ◌<◌, ◌≡◌, Bool, true, false, ltb, count_by}
use monitoring_tool.Pool.Invariant.{PoolInv}
use monitoring_tool.Pool.System.{Stopper, not_called, closing, done}
use monitoring_tool.Collector.Watcher.Events.{WatchInv}
use monitoring_tool.App.Senders.{is_submitting, is_checking}
use monitoring_tool.Pool.System
use monitoring_tool.Collector.Watcher.{dispatch_returned}
use monitoring_tool.Collector.MetricsLoop.{loop_returned}
use monitoring_tool.App.System.{
  Job, Who, pods, nodes, metrics, Position, at_context, at_send, Main, pool_signal, pool_wait,
  bus_stop, bus_wait, client_stop, database_close, exited, App, owner, same_who, rank,
}

-- Where the pool's `Stop` stands while `main` stands here.
abbrev pub stopper_at : Main → Stopper
stopper_at pool_signal = closing
stopper_at pool_wait = System.waiting
stopper_at bus_stop = done
stopper_at bus_wait = done
stopper_at client_stop = done
stopper_at database_close = done
stopper_at exited = done
stopper_at _ = not_called

-- How many tasks a goroutine at this position has past the test of `stopped`.
abbrev pub held : Position → ℕ
held at_send = 1
held _ = 0

abbrev pub is_inside : Position → Bool
is_inside at_context = false
is_inside _ = true

abbrev pub owned : {P N : Type 0} → Who → Job P N → Bool
owned who j = same_who (owner j) who

module _ {P N A O : Type 0} where
  pub record AppInv (s : App P N A O) : Type 0 where
    pub pool : PoolInv s.pool
    pub pods_inv : WatchInv 500 s.pod_watcher
    pub nodes_inv : WatchInv 300 s.node_watcher
    pub calm_pool : s.pool.panicked ≡ false
    pub calm_pods : s.pod_watcher.panicked ≡ false
    pub calm_nodes : s.node_watcher.panicked ≡ false
    pub calm_metrics : s.metrics_loop.panicked ≡ false
    pub calm_bus : s.bus.panicked ≡ false
    pub calm_client : s.client.panicked ≡ false
    -- each part is told to stop by its statement of `shutdown`, and has returned after the wait
    pub metrics_flag : s.metrics_loop.stop_closed ≡ ltb 2 (rank s.main)
    pub pods_flag : s.pod_watcher.stop_closed ≡ ltb 4 (rank s.main)
    pub nodes_flag : s.node_watcher.stop_closed ≡ ltb 6 (rank s.main)
    pub bus_flag : s.bus.bus.stop_closed ≡ ltb 11 (rank s.main)
    pub bus_open : s.bus.bus.event_chan.closed ≡ false
    pub stopper : s.pool.stopper ≡ stopper_at s.main
    pub metrics_gone : 3 < rank s.main → s.metrics_loop.looping ≡ loop_returned
    pub pods_gone : 5 < rank s.main → s.pod_watcher.dispatching ≡ dispatch_returned
    pub nodes_gone : 7 < rank s.main → s.node_watcher.dispatching ≡ dispatch_returned
    -- a goroutine that is past a test of SubmitWithContext is submitting
    pub pods_busy : is_inside s.pods_at ≡ true → is_submitting s.pod_watcher.dispatching ≡ true
    pub nodes_busy : is_inside s.nodes_at ≡ true → is_submitting s.node_watcher.dispatching ≡ true
    pub metrics_busy : is_inside s.metrics_at ≡ true → is_checking s.metrics_loop.looping ≡ true
    -- and has its task before the send exactly when it is past both
    pub pods_held : count_by (owned pods) s.pool.checked ≡ held s.pods_at
    pub nodes_held : count_by (owned nodes) s.pool.checked ≡ held s.nodes_at
    pub metrics_held : count_by (owned metrics) s.pool.checked ≡ held s.metrics_at
