-- ===== src/App/Turns.antt =====
-- What is true of the parts after each statement of `shutdown`.
use monitoring_tool.Prelude.{◌≡◌, refl, true, arith}
use monitoring_tool.Pool.System.{Stopper, not_called, closing, done}
use monitoring_tool.Collector.Watcher.{pod_capacity, node_capacity}
use monitoring_tool.App.Step.{loop_gone, watcher_gone}
use monitoring_tool.Pool.System
use monitoring_tool.Collector.Watcher.{
  Watching, watch_returned, Dispatching, selecting, submitting, dispatch_returned,
}
use monitoring_tool.Collector.Watcher
use monitoring_tool.Collector.MetricsLoop.{Looping, submitting_check, waiting, loop_returned}
use monitoring_tool.Collector.MetricsLoop
use monitoring_tool.Processor.Bus
use monitoring_tool.App.System.{
  Job, serving, cancelling, metrics_stop, metrics_wait, pods_stop, pods_wait, nodes_stop,
  nodes_wait, pool_stop, pool_signal, pool_wait, bus_stop, bus_wait, client_stop, database_close,
  exited,
}
use monitoring_tool.App.Order.{Order}

loop_gone-returned : (l : Looping) → loop_gone l ≡ true → l ≡ loop_returned
loop_gone-returned loop_returned h = refl
loop_gone-returned (submitting_check c) h = cc
loop_gone-returned waiting h = cc

watcher_gone-returned :
    {E : Type 0} (w : Watching) (d : Dispatching E)
    → watcher_gone w d ≡ true
    → d ≡ dispatch_returned
watcher_gone-returned watch_returned dispatch_returned h = refl
watcher_gone-returned w selecting h = ground arith
watcher_gone-returned w (submitting e) h = ground arith
watcher_gone-returned w dispatch_returned h = refl

module _ {P N A O : Type 0} where
  pub order_serving :
      (p : System.System (Job P N)) (pw : Watcher.System P) (nw : Watcher.System N)
      (ml : MetricsLoop.System) (b : Bus.System A O)
      → Order serving p pw nw ml b
      → Order cancelling p pw nw ml b
  order_serving p pw nw ml b o = ground arith

  pub order_metrics_stop :
      (p : System.System (Job P N)) (pw : Watcher.System P) (nw : Watcher.System N)
      (ml ml' : MetricsLoop.System) (b : Bus.System A O)
      → Order metrics_stop p pw nw ml b
      → ml'.stop_closed ≡ true
      → ml'.looping ≡ ml.looping
      → Order metrics_wait p pw nw ml' b
  order_metrics_stop p pw nw ml ml' b o h0 h1 = ground arith

  pub order_metrics_wait :
      (p : System.System (Job P N)) (pw : Watcher.System P) (nw : Watcher.System N)
      (ml : MetricsLoop.System) (b : Bus.System A O)
      → Order metrics_wait p pw nw ml b
      → ml.looping ≡ loop_returned
      → Order pods_stop p pw nw ml b
  order_metrics_wait p pw nw ml b o h0 = ground arith

  pub order_pods_stop :
      (p : System.System (Job P N)) (pw pw' : Watcher.System P) (nw : Watcher.System N)
      (ml : MetricsLoop.System) (b : Bus.System A O)
      → Order pods_stop p pw nw ml b
      → pw'.stop_closed ≡ true
      → pw'.dispatching ≡ pw.dispatching
      → Order pods_wait p pw' nw ml b
  order_pods_stop p pw pw' nw ml b o h0 h1 = ground arith

  pub order_pods_wait :
      (p : System.System (Job P N)) (pw : Watcher.System P) (nw : Watcher.System N)
      (ml : MetricsLoop.System) (b : Bus.System A O)
      → Order pods_wait p pw nw ml b
      → pw.dispatching ≡ dispatch_returned
      → Order nodes_stop p pw nw ml b
  order_pods_wait p pw nw ml b o h0 = ground arith

  pub order_nodes_stop :
      (p : System.System (Job P N)) (pw : Watcher.System P) (nw nw' : Watcher.System N)
      (ml : MetricsLoop.System) (b : Bus.System A O)
      → Order nodes_stop p pw nw ml b
      → nw'.stop_closed ≡ true
      → nw'.dispatching ≡ nw.dispatching
      → Order nodes_wait p pw nw' ml b
  order_nodes_stop p pw nw nw' ml b o h0 h1 = ground arith

  pub order_nodes_wait :
      (p : System.System (Job P N)) (pw : Watcher.System P) (nw : Watcher.System N)
      (ml : MetricsLoop.System) (b : Bus.System A O)
      → Order nodes_wait p pw nw ml b
      → nw.dispatching ≡ dispatch_returned
      → Order pool_stop p pw nw ml b
  order_nodes_wait p pw nw ml b o h0 = ground arith

  pub order_pool_stop :
      (p p' : System.System (Job P N)) (pw : Watcher.System P) (nw : Watcher.System N)
      (ml : MetricsLoop.System) (b : Bus.System A O)
      → Order pool_stop p pw nw ml b
      → p'.stopper ≡ closing
      → Order pool_signal p' pw nw ml b
  order_pool_stop p p' pw nw ml b o h0 = ground arith

  pub order_pool_signal :
      (p p' : System.System (Job P N)) (pw : Watcher.System P) (nw : Watcher.System N)
      (ml : MetricsLoop.System) (b : Bus.System A O)
      → Order pool_signal p pw nw ml b
      → p'.stopper ≡ System.waiting
      → Order pool_wait p' pw nw ml b
  order_pool_signal p p' pw nw ml b o h0 = ground arith

  pub order_pool_wait :
      (p p' : System.System (Job P N)) (pw : Watcher.System P) (nw : Watcher.System N)
      (ml : MetricsLoop.System) (b : Bus.System A O)
      → Order pool_wait p pw nw ml b
      → p'.stopper ≡ done
      → Order bus_stop p' pw nw ml b
  order_pool_wait p p' pw nw ml b o h0 = ground arith

  pub order_bus_stop :
      (p : System.System (Job P N)) (pw : Watcher.System P) (nw : Watcher.System N)
      (ml : MetricsLoop.System) (b b' : Bus.System A O)
      → Order bus_stop p pw nw ml b
      → b'.bus.stop_closed ≡ true
      → Order bus_wait p pw nw ml b'
  order_bus_stop p pw nw ml b b' o h0 = ground arith

  pub order_bus_wait :
      (p : System.System (Job P N)) (pw : Watcher.System P) (nw : Watcher.System N)
      (ml : MetricsLoop.System) (b : Bus.System A O)
      → Order bus_wait p pw nw ml b
      → Order client_stop p pw nw ml b
  order_bus_wait p pw nw ml b o = ground arith

  pub order_client_stop :
      (p : System.System (Job P N)) (pw : Watcher.System P) (nw : Watcher.System N)
      (ml : MetricsLoop.System) (b : Bus.System A O)
      → Order client_stop p pw nw ml b
      → Order database_close p pw nw ml b
  order_client_stop p pw nw ml b o = ground arith

  pub order_database_close :
      (p : System.System (Job P N)) (pw : Watcher.System P) (nw : Watcher.System N)
      (ml : MetricsLoop.System) (b : Bus.System A O)
      → Order database_close p pw nw ml b
      → Order exited p pw nw ml b
  order_database_close p pw nw ml b o = ground arith

  pub order_cancelling :
      (p : System.System (Job P N)) (pw : Watcher.System P) (nw : Watcher.System N)
      (ml : MetricsLoop.System) (b : Bus.System A O)
      → Order cancelling p pw nw ml b
      → Order metrics_stop
          (record p { cancelled = true })
          (record pw { cancelled = true })
          (record nw { cancelled = true })
          (record ml { cancelled = true })
          (record b { cancelled = true })
  order_cancelling p pw nw ml b o = ground arith
