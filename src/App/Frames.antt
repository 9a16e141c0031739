-- ===== src/App/Frames.antt =====
-- New states of one part of the process, with the rest left alone.
use monitoring_tool.Prelude.{◌≡◌, refl, ◌∙◌, true, false, count_by}
use monitoring_tool.Pool.Invariant.{PoolInv}
use monitoring_tool.Pool.System.{Stopper, not_called, closing, done}
use monitoring_tool.Collector.Watcher.{pod_capacity, node_capacity}
use monitoring_tool.Collector.Watcher.Events.{WatchInv}
use monitoring_tool.App.Senders.{is_submitting, is_checking}
use monitoring_tool.Pool.System
use monitoring_tool.Collector.Watcher.{
  Watching, watch_returned, Dispatching, selecting, submitting, dispatch_returned,
}
use monitoring_tool.Collector.Watcher
use monitoring_tool.Collector.MetricsLoop.{Looping, submitting_check, waiting, loop_returned}
use monitoring_tool.Collector.MetricsLoop
use monitoring_tool.Processor.Bus
use monitoring_tool.App.Invariant.{AppInv, held, is_inside, owned}
use monitoring_tool.App.System.{Job, Who, pods, nodes, metrics, Position, App, same_who}

module _ {P N A O : Type 0} where
  -- A state of the pool from which `main` and the other goroutines learn nothing new.
  pub record KeptPool (s : App P N A O) (p : System.System (Job P N)) : Type 0 where
    pub inv : PoolInv p
    pub calm : p.panicked ≡ false
    pub same_stopper : p.stopper ≡ s.pool.stopper

  pub same-KeptPool : (s : App P N A O) → AppInv s → KeptPool s s.pool
  same-KeptPool s inv = record { inv = inv.pool; calm = inv.calm_pool; same_stopper = refl }

  pub pod_watcher-AppInv :
      (s : App P N A O) (p : System.System (Job P N)) (w : Watcher.System P) (at : Position)
      → AppInv s
      → KeptPool s p
      → WatchInv 500 w
      → w.panicked ≡ false
      → w.stop_closed ≡ s.pod_watcher.stop_closed
      → (s.pod_watcher.dispatching ≡ dispatch_returned → w.dispatching ≡ dispatch_returned)
      → (is_inside at ≡ true → is_submitting w.dispatching ≡ true)
      → count_by (owned pods) p.checked ≡ held at
      → ((o : Who)
          → same_who o pods ≡ false
          → count_by (owned o) p.checked ≡ count_by (owned o) s.pool.checked)
      → AppInv (record s { pool = p; pod_watcher = w; pods_at = at })
  pod_watcher-AppInv s p w at inv kept w_inv w_calm w_flag w_gone w_busy w_held same = record {
    pool = kept.inv;
    pods_inv = w_inv;
    nodes_inv = inv.nodes_inv;
    calm_pool = kept.calm;
    calm_pods = w_calm;
    calm_nodes = inv.calm_nodes;
    calm_metrics = inv.calm_metrics;
    calm_bus = inv.calm_bus;
    calm_client = inv.calm_client;
    metrics_flag = inv.metrics_flag;
    pods_flag = w_flag ∙ inv.pods_flag;
    nodes_flag = inv.nodes_flag;
    bus_flag = inv.bus_flag;
    bus_open = inv.bus_open;
    stopper = kept.same_stopper ∙ inv.stopper;
    metrics_gone = inv.metrics_gone;
    pods_gone = λ h. w_gone (inv.pods_gone h);
    nodes_gone = inv.nodes_gone;
    pods_busy = w_busy;
    nodes_busy = inv.nodes_busy;
    metrics_busy = inv.metrics_busy;
    pods_held = w_held;
    nodes_held = same nodes refl ∙ inv.nodes_held;
    metrics_held = same metrics refl ∙ inv.metrics_held;
  }

  pub node_watcher-AppInv :
      (s : App P N A O) (p : System.System (Job P N)) (w : Watcher.System N) (at : Position)
      → AppInv s
      → KeptPool s p
      → WatchInv 300 w
      → w.panicked ≡ false
      → w.stop_closed ≡ s.node_watcher.stop_closed
      → (s.node_watcher.dispatching ≡ dispatch_returned → w.dispatching ≡ dispatch_returned)
      → (is_inside at ≡ true → is_submitting w.dispatching ≡ true)
      → count_by (owned nodes) p.checked ≡ held at
      → ((o : Who)
          → same_who o nodes ≡ false
          → count_by (owned o) p.checked ≡ count_by (owned o) s.pool.checked)
      → AppInv (record s { pool = p; node_watcher = w; nodes_at = at })
  node_watcher-AppInv s p w at inv kept w_inv w_calm w_flag w_gone w_busy w_held same = record {
    pool = kept.inv;
    pods_inv = inv.pods_inv;
    nodes_inv = w_inv;
    calm_pool = kept.calm;
    calm_pods = inv.calm_pods;
    calm_nodes = w_calm;
    calm_metrics = inv.calm_metrics;
    calm_bus = inv.calm_bus;
    calm_client = inv.calm_client;
    metrics_flag = inv.metrics_flag;
    pods_flag = inv.pods_flag;
    nodes_flag = w_flag ∙ inv.nodes_flag;
    bus_flag = inv.bus_flag;
    bus_open = inv.bus_open;
    stopper = kept.same_stopper ∙ inv.stopper;
    metrics_gone = inv.metrics_gone;
    pods_gone = inv.pods_gone;
    nodes_gone = λ h. w_gone (inv.nodes_gone h);
    pods_busy = inv.pods_busy;
    nodes_busy = w_busy;
    metrics_busy = inv.metrics_busy;
    pods_held = same pods refl ∙ inv.pods_held;
    nodes_held = w_held;
    metrics_held = same metrics refl ∙ inv.metrics_held;
  }

  pub metrics_loop-AppInv :
      (s : App P N A O) (p : System.System (Job P N)) (w : MetricsLoop.System) (at : Position)
      → AppInv s
      → KeptPool s p
      → w.panicked ≡ false
      → w.stop_closed ≡ s.metrics_loop.stop_closed
      → (s.metrics_loop.looping ≡ loop_returned → w.looping ≡ loop_returned)
      → (is_inside at ≡ true → is_checking w.looping ≡ true)
      → count_by (owned metrics) p.checked ≡ held at
      → ((o : Who)
          → same_who o metrics ≡ false
          → count_by (owned o) p.checked ≡ count_by (owned o) s.pool.checked)
      → AppInv (record s { pool = p; metrics_loop = w; metrics_at = at })
  metrics_loop-AppInv s p w at inv kept w_calm w_flag w_gone w_busy w_held same = record {
    pool = kept.inv;
    pods_inv = inv.pods_inv;
    nodes_inv = inv.nodes_inv;
    calm_pool = kept.calm;
    calm_pods = inv.calm_pods;
    calm_nodes = inv.calm_nodes;
    calm_metrics = w_calm;
    calm_bus = inv.calm_bus;
    calm_client = inv.calm_client;
    metrics_flag = w_flag ∙ inv.metrics_flag;
    pods_flag = inv.pods_flag;
    nodes_flag = inv.nodes_flag;
    bus_flag = inv.bus_flag;
    bus_open = inv.bus_open;
    stopper = kept.same_stopper ∙ inv.stopper;
    metrics_gone = λ h. w_gone (inv.metrics_gone h);
    pods_gone = inv.pods_gone;
    nodes_gone = inv.nodes_gone;
    pods_busy = inv.pods_busy;
    nodes_busy = inv.nodes_busy;
    metrics_busy = w_busy;
    pods_held = same pods refl ∙ inv.pods_held;
    nodes_held = same nodes refl ∙ inv.nodes_held;
    metrics_held = w_held;
  }

  pub bus-AppInv :
      (s : App P N A O) (b : Bus.System A O)
      → AppInv s
      → b.panicked ≡ false
      → b.bus.stop_closed ≡ s.bus.bus.stop_closed
      → b.bus.event_chan.closed ≡ false
      → AppInv (record s { bus = b })
  bus-AppInv s b inv calm flag open_chan = record {
    pool = inv.pool;
    pods_inv = inv.pods_inv;
    nodes_inv = inv.nodes_inv;
    calm_pool = inv.calm_pool;
    calm_pods = inv.calm_pods;
    calm_nodes = inv.calm_nodes;
    calm_metrics = inv.calm_metrics;
    calm_bus = calm;
    calm_client = inv.calm_client;
    metrics_flag = inv.metrics_flag;
    pods_flag = inv.pods_flag;
    nodes_flag = inv.nodes_flag;
    bus_flag = flag ∙ inv.bus_flag;
    bus_open = open_chan;
    stopper = inv.stopper;
    metrics_gone = inv.metrics_gone;
    pods_gone = inv.pods_gone;
    nodes_gone = inv.nodes_gone;
    pods_busy = inv.pods_busy;
    nodes_busy = inv.nodes_busy;
    metrics_busy = inv.metrics_busy;
    pods_held = inv.pods_held;
    nodes_held = inv.nodes_held;
    metrics_held = inv.metrics_held;
  }
