-- ===== src/App/System.antt =====
-- The parts of cmd/monitoring-tool/main.go as they run together: the three watchers submit to the
-- pool of the evaluator engine, its tasks publish on the bus, and `main` stops them in order. `P` and
-- `N` are the events of pods and nodes, `A` the alerts and `O` the observers.
use monitoring_tool.Prelude.{
  refl, ℕ, ◌≡◌, Bool, true, false, Option, none, some, length, ltb, pos, if◌then◌else◌,
}
use monitoring_tool.Pool.{new_worker_pool}
use monitoring_tool.Pool.System
use monitoring_tool.Collector.Watcher.{submitting, watch_returned, dispatch_returned, pod_capacity}
use monitoring_tool.Collector.Watcher
use monitoring_tool.Collector.MetricsLoop.{Check, submitting_check, loop_returned}
use monitoring_tool.Collector.MetricsLoop
use monitoring_tool.Collector.Client.{StopCh, make_stop}
use monitoring_tool.Processor.Bus.{AlertEvent, EventBus}
use monitoring_tool.Processor.Bus

-- A task of the pool: the event or the check that the watcher's closure holds.
pub data Job (P N : Type 0) : Type 0 where
  pod_job : P → Job P N
  node_job : N → Job P N
  check_job : Check → Job P N

-- The goroutines that submit: the two dispatchers and the metrics loop.
pub data Who : Type 0 where
  pods nodes metrics : Who

-- Where such a goroutine stands inside SubmitWithContext: before the test of the context, before
-- the test of `stopped`, or before the send.
pub data Position : Type 0 where
  at_context at_check at_send : Position

-- Where `main` stands: the next statement of `shutdown`.
pub data Main : Type 0 where
  serving : Main  -- before the signal and the end of srv.Shutdown
  cancelling : Main
  metrics_stop metrics_wait pods_stop pods_wait nodes_stop nodes_wait : Main
  pool_stop pool_signal pool_wait : Main
  bus_stop bus_wait client_stop database_close exited : Main

-- How many statements of `shutdown` are done.
abbrev pub rank : Main → ℕ
rank serving = 0
rank cancelling = 1
rank metrics_stop = 2
rank metrics_wait = 3
rank pods_stop = 4
rank pods_wait = 5
rank nodes_stop = 6
rank nodes_wait = 7
rank pool_stop = 8
rank pool_signal = 9
rank pool_wait = 10
rank bus_stop = 11
rank bus_wait = 12
rank client_stop = 13
rank database_close = 14
rank exited = 15

pub record App (P N A O : Type 0) : Type 0 where
  pub pool : System.System (Job P N)
  pub pod_watcher : Watcher.System P
  pub node_watcher : Watcher.System N
  pub metrics_loop : MetricsLoop.System
  pub bus : Bus.System A O
  pub pods_at : Position
  pub nodes_at : Position
  pub metrics_at : Position
  pub client : StopCh  -- of the Kubernetes client
  pub main : Main

pub data Action (P N A : Type 0) : Type 0 where
  worker : System.Action (Job P N) → Action P N A
  pod_act : Watcher.Action P → Action P N A
  node_act : Watcher.Action N → Action P N A
  metrics_act : MetricsLoop.Action → Action P N A
  bus_act : Bus.Action A → Action P N A
  see_context : Who → Action P N A
  see_stopped : Who → Action P N A
  send : Who → ℕ → Action P N A
  see_client_cancel : Action P N A  -- the goroutine of K8sClient.Start
  main_next : Action P N A

abbrev pub owner : {P N : Type 0} → Job P N → Who
owner (pod_job e) = pods
owner (node_job e) = nodes
owner (check_job c) = metrics

abbrev pub same_who : Who → Who → Bool
same_who pods pods = true
same_who nodes nodes = true
same_who metrics metrics = true
same_who _ _ = false

-- The actions that belong to the goroutines of a part; the others stand for its callers.
abbrev pub is_worker : {T : Type 0} → System.Action T → Bool
is_worker System.take_task = true
is_worker (System.finish_task i) = true
is_worker System.exit_on_close = true
is_worker System.exit_on_stop = true
is_worker System.exit_on_cancel = true
is_worker _ = false

abbrev pub is_watcher : {E : Type 0} → Watcher.Action E → Bool
is_watcher (Watcher.submit_event done) = false
is_watcher Watcher.cancel = false
is_watcher Watcher.stop = false
is_watcher _ = true

abbrev pub is_loop : MetricsLoop.Action → Bool
is_loop MetricsLoop.tick = true
is_loop MetricsLoop.leave_loop = true
is_loop _ = false

abbrev pub is_bus_own : {A : Type 0} → Bus.Action A → Bool
is_bus_own Bus.cancel = false
is_bus_own Bus.stop = false
is_bus_own _ = true

module _ {P N A O : Type 0} where
  -- `init` up to `main`, with the observers of the bus subscribed, and the interval of the metrics.
  unfoldable pub start : EventBus A O → ℕ → App P N A O
  start eb interval = record {
    pool = System.start (new_worker_pool (pos 5) (pos 300));
    pod_watcher = Watcher.start pod_capacity;
    node_watcher = Watcher.node_start;
    metrics_loop = MetricsLoop.start interval;
    bus = Bus.start eb;
    pods_at = at_context;
    nodes_at = at_context;
    metrics_at = at_context;
    client = make_stop;
    main = serving;
  }

  -- Only a task that runs publishes.
  abbrev pub may_publish : App P N A O → Bus.Action A → Bool
  may_publish s (Bus.publishes e) = ltb 0 (length s.pool.running)
  may_publish s _ = true

  abbrev pub with_pool : App P N A O → Option (System.System (Job P N)) → Option (App P N A O)
  with_pool s none = none
  with_pool s (some p) = some (record s { pool = p })

  abbrev pub with_pods : App P N A O → Option (Watcher.System P) → Option (App P N A O)
  with_pods s none = none
  with_pods s (some w) = some (record s { pod_watcher = w })

  abbrev pub with_nodes : App P N A O → Option (Watcher.System N) → Option (App P N A O)
  with_nodes s none = none
  with_nodes s (some w) = some (record s { node_watcher = w })

  abbrev pub with_metrics : App P N A O → Option MetricsLoop.System → Option (App P N A O)
  with_metrics s none = none
  with_metrics s (some m) = some (record s { metrics_loop = m })

  abbrev pub with_bus : App P N A O → Option (Bus.System A O) → Option (App P N A O)
  with_bus s none = none
  with_bus s (some b) = some (record s { bus = b })

  abbrev pub any_panicked : App P N A O → Bool
  any_panicked s =
      if s.pool.panicked
      then true
      else if s.pod_watcher.panicked
      then true
      else if s.node_watcher.panicked
      then true
      else if s.metrics_loop.panicked
      then true
      else if s.bus.panicked
      then true
      else s.client.panicked

  pub with_pool-some :
      (s : App P N A O) (o : Option (System.System (Job P N))) {t : App P N A O}
      → with_pool s o ≡ some t
      → (p : System.System (Job P N)) × (o ≡ some p) × (record s { pool = p } ≡ t)
  with_pool-some s (some p) e = (p, refl, cc)
  with_pool-some s none e = cc

  pub with_pods-some :
      (s : App P N A O) (o : Option (Watcher.System P)) {t : App P N A O}
      → with_pods s o ≡ some t
      → (w : Watcher.System P) × (o ≡ some w) × (record s { pod_watcher = w } ≡ t)
  with_pods-some s (some w) e = (w, refl, cc)
  with_pods-some s none e = cc

  pub with_nodes-some :
      (s : App P N A O) (o : Option (Watcher.System N)) {t : App P N A O}
      → with_nodes s o ≡ some t
      → (w : Watcher.System N) × (o ≡ some w) × (record s { node_watcher = w } ≡ t)
  with_nodes-some s (some w) e = (w, refl, cc)
  with_nodes-some s none e = cc

  pub with_metrics-some :
      (s : App P N A O) (o : Option MetricsLoop.System) {t : App P N A O}
      → with_metrics s o ≡ some t
      → (m : MetricsLoop.System) × (o ≡ some m) × (record s { metrics_loop = m } ≡ t)
  with_metrics-some s (some m) e = (m, refl, cc)
  with_metrics-some s none e = cc

  pub with_bus-some :
      (s : App P N A O) (o : Option (Bus.System A O)) {t : App P N A O}
      → with_bus s o ≡ some t
      → (b : Bus.System A O) × (o ≡ some b) × (record s { bus = b } ≡ t)
  with_bus-some s (some b) e = (b, refl, cc)
  with_bus-some s none e = cc
