-- ===== src/App/Safety.antt =====
-- The process from its start to the end of `main`.
use monitoring_tool.Prelude.{some_same, ◌≡◌, refl, not, some, if◌then◌else◌}
use monitoring_tool.App.Step.{step, act, main_act, position, job_of, loop_gone, watcher_gone}
use monitoring_tool.App.Invariant.{AppInv}
use mathlib.Core.Path.{subst}
use monitoring_tool.App.System.{
  Main, serving, cancelling, metrics_stop, metrics_wait, pods_stop, pods_wait, nodes_stop,
  nodes_wait, pool_stop, pool_signal, pool_wait, bus_stop, bus_wait, client_stop, database_close,
  exited, App, Action, worker, pod_act, node_act, metrics_act, bus_act, see_context, see_stopped,
  send, see_client_cancel, main_next, any_panicked,
}
use monitoring_tool.Collector.Client.{stop_once, stop_once-calm}
use monitoring_tool.App.Order.{order-at}
use monitoring_tool.App.Turns.{
  order_serving, order_metrics_wait, order_pods_wait, order_nodes_wait, order_bus_wait,
  order_client_stop, order_database_close,
}
use monitoring_tool.Prelude.{then_some, else_some}
use monitoring_tool.App.Sequence.{
  advance, waits, stops_metrics, stops_pods, stops_nodes, begins_pool, signals_pool, finishes_pool,
  stops_bus, cancels-AppInv, loop_gone-returned, watcher_gone-returned,
}
use monitoring_tool.App.System.{
  with_pool-some, with_pods-some, with_nodes-some, with_metrics-some, with_bus-some,
}
use monitoring_tool.App.Step.{is_exited}
use monitoring_tool.App.Moves.{
  worker-AppInv, pod_act-AppInv, node_act-AppInv, metrics_act-AppInv, bus_act-AppInv,
}
use monitoring_tool.App.Submissions.{see_context-AppInv}
use monitoring_tool.App.Sends.{see_stopped-AppInv, sent-AppInv}

module _ {P N A O : Type 0} where
  main_act-AppInv :
      (s : App P N A O) (m : Main) {t : App P N A O}
      → AppInv s
      → s.main ≡ m
      → main_act s m ≡ some t
      → AppInv t
  main_act-AppInv s serving inv h e =
      let o = order-at s serving inv h in
      subst AppInv (some_same e) (
        advance s inv s.client cancelling inv.calm_client
          (order_serving s.pool s.pod_watcher s.node_watcher s.metrics_loop s.bus o))
  main_act-AppInv s cancelling inv h e = subst AppInv (some_same e) (cancels-AppInv s inv h)
  main_act-AppInv s metrics_stop inv h e =
      let (ml, on, eq) = with_metrics-some (record s { main = metrics_wait }) _ e in
      subst AppInv eq (stops_metrics s inv ml h on)
  main_act-AppInv s metrics_wait inv h e =
      waits s inv (loop_gone s.metrics_loop.looping) pods_stop e (λ g.
        order_metrics_wait s.pool s.pod_watcher s.node_watcher s.metrics_loop s.bus
          (order-at s metrics_wait inv h) (loop_gone-returned _ g))
  main_act-AppInv s pods_stop inv h e =
      let (w, on, eq) = with_pods-some (record s { main = pods_wait }) _ e in
      subst AppInv eq (stops_pods s inv w h on)
  main_act-AppInv s pods_wait inv h e =
      waits s inv (watcher_gone s.pod_watcher.watching s.pod_watcher.dispatching) nodes_stop e (λ g.
        order_pods_wait s.pool s.pod_watcher s.node_watcher s.metrics_loop s.bus
          (order-at s pods_wait inv h) (watcher_gone-returned s.pod_watcher.watching _ g))
  main_act-AppInv s nodes_stop inv h e =
      let (w, on, eq) = with_nodes-some (record s { main = nodes_wait }) _ e in
      subst AppInv eq (stops_nodes s inv w h on)
  main_act-AppInv s nodes_wait inv h e =
      waits s inv (watcher_gone s.node_watcher.watching s.node_watcher.dispatching) pool_stop e
        (λ g.
          order_nodes_wait s.pool s.pod_watcher s.node_watcher s.metrics_loop s.bus
            (order-at s nodes_wait inv h) (watcher_gone-returned s.node_watcher.watching _ g))
  main_act-AppInv s pool_stop inv h e =
      let (p, on, eq) =
        with_pool-some (record s { main = if s.pool.pool.stopped then bus_stop else pool_signal }) _
          e in
      subst AppInv eq (begins_pool s inv p h on)
  main_act-AppInv s pool_signal inv h e =
      let (p, on, eq) = with_pool-some (record s { main = pool_wait }) _ e in
      subst AppInv eq (signals_pool s inv p h on)
  main_act-AppInv s pool_wait inv h e =
      let (p, on, eq) = with_pool-some (record s { main = bus_stop }) _ e in
      subst AppInv eq (finishes_pool s inv p h on)
  main_act-AppInv s bus_stop inv h e =
      let (b, on, eq) = with_bus-some (record s { main = bus_wait }) _ e in
      subst AppInv eq (stops_bus s inv b h on)
  main_act-AppInv s bus_wait inv h e = waits s inv (not s.bus.dispatching) client_stop e (λ g.
      order_bus_wait s.pool s.pod_watcher s.node_watcher s.metrics_loop s.bus
        (order-at s bus_wait inv h))
  main_act-AppInv s client_stop inv h e =
      let o = order-at s client_stop inv h in
      subst AppInv (some_same e) (
        advance s inv (stop_once s.client) database_close (stop_once-calm s.client inv.calm_client)
          (order_client_stop s.pool s.pod_watcher s.node_watcher s.metrics_loop s.bus o))
  main_act-AppInv s database_close inv h e =
      let o = order-at s database_close inv h in
      subst AppInv (some_same e) (
        advance s inv s.client exited inv.calm_client
          (order_database_close s.pool s.pod_watcher s.node_watcher s.metrics_loop s.bus o))
  main_act-AppInv s exited inv h e = cc

  act-AppInv :
      (s : App P N A O) (a : Action P N A) {t : App P N A O}
      → AppInv s
      → act s a ≡ some t
      → AppInv t
  act-AppInv s (worker a) inv e = worker-AppInv s a inv e
  act-AppInv s (pod_act a) inv e = pod_act-AppInv s a inv e
  act-AppInv s (node_act a) inv e = node_act-AppInv s a inv e
  act-AppInv s (metrics_act a) inv e = metrics_act-AppInv s a inv e
  act-AppInv s (bus_act a) inv e = bus_act-AppInv s a inv e
  act-AppInv s (see_context who) inv e =
      see_context-AppInv s who (job_of s who) (position s who) inv refl refl e
  act-AppInv s (see_stopped who) inv e =
      see_stopped-AppInv s who (job_of s who) (position s who) inv refl refl e
  act-AppInv s (send who i) inv e = sent-AppInv s who i (position s who) inv refl e
  act-AppInv s see_client_cancel inv e =
      let (_, f) = then_some s.pool.cancelled _ e in
      subst AppInv (some_same f) (
        advance s inv (stop_once s.client) s.main (stop_once-calm s.client inv.calm_client)
          (order-at s s.main inv refl))
  act-AppInv s main_next inv e = main_act-AppInv s s.main inv refl e

  pub step-AppInv :
      (s : App P N A O) (a : Action P N A) {t : App P N A O}
      → AppInv s
      → step s a ≡ some t
      → AppInv t
  unfolding step
  step-AppInv s a inv e =
      let (_, f) = else_some (any_panicked s) _ e in
      let (_, g) = else_some (is_exited s.main) _ f in act-AppInv s a inv g
