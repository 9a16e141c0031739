-- ===== src/App/Sequence.antt =====
-- The statements of `shutdown` one after the other.
use monitoring_tool.Prelude.{some_same, ◌≡◌, refl, Bool, true, false, some, if◌then◌else◌, arith}
use monitoring_tool.Pool.Invariant.{PoolInv}
use monitoring_tool.Pool.System.{Stopper, not_called, closing, done}
use monitoring_tool.Collector.Watcher.{pod_capacity, node_capacity}
use monitoring_tool.Collector.Watcher.Events.{WatchInv}
use monitoring_tool.App.Step.{loop_gone, watcher_gone, goes_on, cancels}
use monitoring_tool.Pool.System
use monitoring_tool.Collector.Watcher.{
  Watching, watch_returned, Dispatching, selecting, submitting, dispatch_returned,
}
use monitoring_tool.Collector.Watcher
use monitoring_tool.Collector.MetricsLoop.{Looping, submitting_check, waiting, loop_returned}
use monitoring_tool.Collector.MetricsLoop
use monitoring_tool.Processor.Bus
use monitoring_tool.App.Invariant.{AppInv}
use mathlib.Core.Path.{subst}
use monitoring_tool.Collector.Client.{StopCh}
use monitoring_tool.App.System.{
  Job, Main, cancelling, metrics_stop, metrics_wait, pods_stop, pods_wait, nodes_stop, nodes_wait,
  pool_stop, pool_signal, pool_wait, bus_stop, bus_wait, App,
}
use monitoring_tool.App.Order.{
  Order, order-at, main-AppInv, watcher_stop, watcher_cancel, loop_stop, bus_stops, After,
  pool_cancel, pool_begins, pool_signals, pool_finishes,
}
use monitoring_tool.App.Turns.{
  order_metrics_stop, order_pods_stop, order_nodes_stop, order_pool_stop, order_pool_signal,
  order_pool_wait, order_bus_stop, order_cancelling,
}
use monitoring_tool.Prelude.{then_some}

pub loop_gone-returned : (l : Looping) → loop_gone l ≡ true → l ≡ loop_returned
loop_gone-returned loop_returned h = refl
loop_gone-returned (submitting_check c) h = cc
loop_gone-returned waiting h = cc

pub watcher_gone-returned :
    {E : Type 0} (w : Watching) (d : Dispatching E)
    → watcher_gone w d ≡ true
    → d ≡ dispatch_returned
watcher_gone-returned watch_returned dispatch_returned h = refl
watcher_gone-returned w selecting h = ground arith
watcher_gone-returned w (submitting e) h = ground arith
watcher_gone-returned w dispatch_returned h = refl

module _ {P N A O : Type 0} (s : App P N A O) (inv : AppInv s) where
  pool_kept : PoolInv s.pool × (s.pool.panicked ≡ false) × (s.pool.checked ≡ s.pool.checked)
  pool_kept = (inv.pool, inv.calm_pool, refl)

  pods_kept :
      WatchInv 500 s.pod_watcher
      × (s.pod_watcher.panicked ≡ false)
      × (s.pod_watcher.dispatching ≡ s.pod_watcher.dispatching)
  pods_kept = (inv.pods_inv, inv.calm_pods, refl)

  nodes_kept :
      WatchInv 300 s.node_watcher
      × (s.node_watcher.panicked ≡ false)
      × (s.node_watcher.dispatching ≡ s.node_watcher.dispatching)
  nodes_kept = (inv.nodes_inv, inv.calm_nodes, refl)

  loop_kept : (s.metrics_loop.panicked ≡ false) × (s.metrics_loop.looping ≡ s.metrics_loop.looping)
  loop_kept = (inv.calm_metrics, refl)

  bus_kept : (s.bus.panicked ≡ false) × (s.bus.bus.event_chan.closed ≡ false)
  bus_kept = (inv.calm_bus, inv.bus_open)

  -- A statement that waits, or that changes none of the parts.
  pub advance :
      (c : StopCh) (m : Main)
      → c.panicked ≡ false
      → Order m s.pool s.pod_watcher s.node_watcher s.metrics_loop s.bus
      → AppInv (record s { client = c; main = m })
  advance c m fine o =
      main-AppInv s s.pool s.pod_watcher s.node_watcher s.metrics_loop s.bus c m inv fine o
        pool_kept pods_kept nodes_kept loop_kept bus_kept

  pub waits :
      (gone : Bool) (m : Main) {t : App P N A O}
      → goes_on s gone m ≡ some t
      → (gone ≡ true → Order m s.pool s.pod_watcher s.node_watcher s.metrics_loop s.bus)
      → AppInv t
  waits gone m e o =
      let (g, f) = then_some gone (some (record s { main = m })) e in
      subst AppInv (some_same f) (advance s.client m inv.calm_client (o g))

  pub stops_metrics :
      (ml : MetricsLoop.System)
      → s.main ≡ metrics_stop
      → MetricsLoop.step s.metrics_loop MetricsLoop.stop ≡ some ml
      → AppInv (record s { metrics_loop = ml; main = metrics_wait })
  stops_metrics ml h e =
      let o = order-at s metrics_stop inv h in
      let (f, c, k) = loop_stop s.metrics_loop o.metrics_flag inv.calm_metrics e in
      main-AppInv s s.pool s.pod_watcher s.node_watcher ml s.bus s.client metrics_wait inv
        inv.calm_client
        (order_metrics_stop s.pool s.pod_watcher s.node_watcher s.metrics_loop ml s.bus o f k)
        pool_kept pods_kept nodes_kept (c, k) bus_kept

  pub stops_pods :
      (w : Watcher.System P)
      → s.main ≡ pods_stop
      → Watcher.step s.pod_watcher Watcher.stop ≡ some w
      → AppInv (record s { pod_watcher = w; main = pods_wait })
  stops_pods w h e =
      let o = order-at s pods_stop inv h in
      let (f, wi, c, k) = watcher_stop _ s.pod_watcher inv.pods_inv o.pods_flag inv.calm_pods e in
      main-AppInv s s.pool w s.node_watcher s.metrics_loop s.bus s.client pods_wait inv
        inv.calm_client
        (order_pods_stop s.pool s.pod_watcher w s.node_watcher s.metrics_loop s.bus o f k) pool_kept
        (wi, c, k) nodes_kept loop_kept bus_kept

  pub stops_nodes :
      (w : Watcher.System N)
      → s.main ≡ nodes_stop
      → Watcher.step s.node_watcher Watcher.stop ≡ some w
      → AppInv (record s { node_watcher = w; main = nodes_wait })
  stops_nodes w h e =
      let o = order-at s nodes_stop inv h in
      let (f, wi, c, k) =
        watcher_stop _ s.node_watcher inv.nodes_inv o.nodes_flag inv.calm_nodes e in
      main-AppInv s s.pool s.pod_watcher w s.metrics_loop s.bus s.client nodes_wait inv
        inv.calm_client
        (order_nodes_stop s.pool s.pod_watcher s.node_watcher w s.metrics_loop s.bus o f k)
        pool_kept pods_kept (wi, c, k) loop_kept bus_kept

  pool_moves :
      (p : System.System (Job P N)) (m : Main) (st : Stopper)
      → After s.pool p st
      → Order m p s.pod_watcher s.node_watcher s.metrics_loop s.bus
      → AppInv (record s { pool = p; main = m })
  pool_moves p m st (_, pi, c, k) o =
      main-AppInv s p s.pod_watcher s.node_watcher s.metrics_loop s.bus s.client m inv
        inv.calm_client o (pi, c, k) pods_kept nodes_kept loop_kept bus_kept

  pub begins_pool :
      (p : System.System (Job P N))
      → s.main ≡ pool_stop
      → System.step s.pool System.stop_begin ≡ some p
      → AppInv (record s { pool = p; main = if s.pool.pool.stopped then bus_stop else pool_signal })
  begins_pool p h e =
      let o = order-at s pool_stop inv h in
      let (fresh, after) = pool_begins s.pool inv.pool inv.calm_pool o.stopper e in
      rw fresh (
        pool_moves p pool_signal closing after
          (order_pool_stop s.pool p s.pod_watcher s.node_watcher s.metrics_loop s.bus o after.0))

  pub signals_pool :
      (p : System.System (Job P N))
      → s.main ≡ pool_signal
      → System.step s.pool System.stop_signal ≡ some p
      → AppInv (record s { pool = p; main = pool_wait })
  signals_pool p h e =
      let o = order-at s pool_signal inv h in
      let after = pool_signals s.pool inv.pool inv.calm_pool o.stopper e in
      pool_moves p pool_wait System.waiting after
        (order_pool_signal s.pool p s.pod_watcher s.node_watcher s.metrics_loop s.bus o after.0)

  pub finishes_pool :
      (p : System.System (Job P N))
      → s.main ≡ pool_wait
      → System.step s.pool System.stop_finish ≡ some p
      → AppInv (record s { pool = p; main = bus_stop })
  finishes_pool p h e =
      let o = order-at s pool_wait inv h in
      let after = pool_finishes s.pool inv.pool inv.calm_pool o.stopper e in
      pool_moves p bus_stop done after
        (order_pool_wait s.pool p s.pod_watcher s.node_watcher s.metrics_loop s.bus o after.0)

  pub stops_bus :
      (b : Bus.System A O)
      → s.main ≡ bus_stop
      → Bus.step s.bus Bus.stop ≡ some b
      → AppInv (record s { bus = b; main = bus_wait })
  stops_bus b h e =
      let o = order-at s bus_stop inv h in
      let (f, c, open_chan) = bus_stops s.bus o.bus_flag inv.calm_bus inv.bus_open e in
      main-AppInv s s.pool s.pod_watcher s.node_watcher s.metrics_loop b s.client bus_wait inv
        inv.calm_client
        (order_bus_stop s.pool s.pod_watcher s.node_watcher s.metrics_loop s.bus b o f) pool_kept
        pods_kept nodes_kept loop_kept (c, open_chan)

  pub cancels-AppInv : s.main ≡ cancelling → AppInv (cancels s)
  cancels-AppInv h =
      let o = order-at s cancelling inv h in
      main-AppInv s (record s.pool { cancelled = true }) (record s.pod_watcher { cancelled = true })
        (record s.node_watcher { cancelled = true }) (record s.metrics_loop { cancelled = true })
        (record s.bus { cancelled = true }) s.client metrics_stop inv inv.calm_client
        (order_cancelling s.pool s.pod_watcher s.node_watcher s.metrics_loop s.bus o)
        (pool_cancel s.pool inv.pool inv.calm_pool, inv.calm_pool, refl)
        (watcher_cancel _ s.pod_watcher inv.pods_inv inv.calm_pods, inv.calm_pods, refl)
        (watcher_cancel _ s.node_watcher inv.nodes_inv inv.calm_nodes, inv.calm_nodes, refl)
        (inv.calm_metrics, refl) (inv.calm_bus, inv.bus_open)
