-- ===== src/App/Step.antt =====
-- What each goroutine of the process does next.
use monitoring_tool.Prelude.{
  ℕ, ◌≡◌, Bool, true, false, not, List, Option, none, some, if◌then◌else◌,
}
use monitoring_tool.Channel.{pick}
use monitoring_tool.Pool.{SubmitError, Submitted, accepted, submit_check, submit_send}
use monitoring_tool.Pool.System
use monitoring_tool.Collector.Watcher.{
  Watching, watch_returned, Dispatching, selecting, submitting, dispatch_returned,
}
use monitoring_tool.Collector.Watcher
use monitoring_tool.Collector.MetricsLoop.{Looping, submitting_check, waiting, loop_returned}
use monitoring_tool.Collector.MetricsLoop
use monitoring_tool.Collector.Client.{stop_once}
use monitoring_tool.Processor.Bus
use monitoring_tool.App.System.{
  Job, pod_job, node_job, check_job, Who, pods, nodes, metrics, Position, at_context, at_check,
  at_send, Main, serving, cancelling, metrics_stop, metrics_wait, pods_stop, pods_wait, nodes_stop,
  nodes_wait, pool_stop, pool_signal, pool_wait, bus_stop, bus_wait, client_stop, database_close,
  exited, App, Action, worker, pod_act, node_act, metrics_act, bus_act, see_context, see_stopped,
  send, see_client_cancel, main_next, owner, same_who, is_worker, is_watcher, is_loop, is_bus_own,
  may_publish, with_pool, with_pods, with_nodes, with_metrics, with_bus, any_panicked,
}

abbrev pub pod_task : {P N : Type 0} → Dispatching P → Option (Job P N)
pod_task (submitting e) = some (pod_job e)
pod_task _ = none

abbrev pub node_task : {P N : Type 0} → Dispatching N → Option (Job P N)
node_task (submitting e) = some (node_job e)
node_task _ = none

abbrev pub check_task : {P N : Type 0} → Looping → Option (Job P N)
check_task (submitting_check c) = some (check_job c)
check_task _ = none

abbrev pub was_accepted : {T : Type 0} → Submitted T → Bool
was_accepted (accepted wp) = true
was_accepted _ = false

abbrev pub loop_gone : Looping → Bool
loop_gone loop_returned = true
loop_gone _ = false

-- Both goroutines of a watcher have returned.
abbrev pub watcher_gone : {E : Type 0} → Watching → Dispatching E → Bool
watcher_gone watch_returned dispatch_returned = true
watcher_gone _ _ = false

-- Once `main` has returned, or after a panic, the process is gone.
abbrev pub is_exited : Main → Bool
is_exited exited = true
is_exited _ = false

module _ {P N A O : Type 0} where
  -- The task that a goroutine is submitting, if it is.
  abbrev pub job_of : App P N A O → Who → Option (Job P N)
  job_of s pods = pod_task s.pod_watcher.dispatching
  job_of s nodes = node_task s.node_watcher.dispatching
  job_of s metrics = check_task s.metrics_loop.looping

  abbrev pub position : App P N A O → Who → Position
  position s pods = s.pods_at
  position s nodes = s.nodes_at
  position s metrics = s.metrics_at

  abbrev pub move : App P N A O → Who → Position → App P N A O
  move s pods at = record s { pods_at = at }
  move s nodes at = record s { nodes_at = at }
  move s metrics at = record s { metrics_at = at }

  -- SubmitWithContext returns to its caller, without an error or with one.
  abbrev pub answer : App P N A O → Who → Bool → Option (App P N A O)
  answer s pods done =
      with_pods (move s pods at_context) (Watcher.step s.pod_watcher (Watcher.submit_event done))
  answer s nodes done =
      with_nodes (move s nodes at_context)
        (Watcher.node_step s.node_watcher (Watcher.submit_event done))
  answer s metrics done =
      with_metrics (move s metrics at_context)
        (MetricsLoop.step s.metrics_loop (MetricsLoop.submit_check done))

  abbrev pub context_seen : App P N A O → Who → Option (Job P N) → Position → Option (App P N A O)
  context_seen s who (some j) at_context =
      let refused = answer s who false in
      if s.pool.cancelled then refused else some (move s who at_check)
  context_seen s who _ _ = none

  abbrev pub checks : App P N A O → Who → Job P N → Option SubmitError → Option (App P N A O)
  checks s who j (some e) = answer s who false
  checks s who j none = with_pool (move s who at_send) (System.step s.pool (System.submit_begin j))

  abbrev pub stopped_seen : App P N A O → Who → Option (Job P N) → Position → Option (App P N A O)
  stopped_seen s who (some j) at_check = checks s who j (submit_check s.pool.pool)
  stopped_seen s who _ _ = none

  abbrev pub sends_job :
      App P N A O → Who → ℕ → Option (Job P N × List (Job P N)) → Option (App P N A O)
  sends_job s who i none = none
  sends_job s who i (some (j, rest)) =
      if same_who (owner j) who
      then elim (System.step s.pool (System.submit_end i)) [
        | none ↦ none
        | some p ↦ answer (record s { pool = p }) who (was_accepted (submit_send s.pool.pool j))
      ]
      else none

  abbrev pub sent : App P N A O → Who → ℕ → Position → Option (App P N A O)
  sent s who i at_send = sends_job s who i (pick i s.pool.checked)
  sent s who i _ = none

  abbrev pub cancels : App P N A O → App P N A O
  cancels s = record s {
    pool = record s.pool { cancelled = true };
    pod_watcher = record s.pod_watcher { cancelled = true };
    node_watcher = record s.node_watcher { cancelled = true };
    metrics_loop = record s.metrics_loop { cancelled = true };
    bus = record s.bus { cancelled = true };
    main = metrics_stop;
  }

  abbrev pub goes_on : App P N A O → Bool → Main → Option (App P N A O)
  goes_on s done m = if done then some (record s { main = m }) else none

  -- `shutdown`, and the three statements of the pool's `Stop` in it. `Wait` waits.
  abbrev pub main_act : App P N A O → Main → Option (App P N A O)
  main_act s serving = some (record s { main = cancelling })
  main_act s cancelling = some (cancels s)
  main_act s metrics_stop =
      with_metrics (record s { main = metrics_wait })
        (MetricsLoop.step s.metrics_loop MetricsLoop.stop)
  main_act s metrics_wait = goes_on s (loop_gone s.metrics_loop.looping) pods_stop
  main_act s pods_stop =
      with_pods (record s { main = pods_wait }) (Watcher.step s.pod_watcher Watcher.stop)
  main_act s pods_wait =
      goes_on s (watcher_gone s.pod_watcher.watching s.pod_watcher.dispatching) nodes_stop
  main_act s nodes_stop =
      with_nodes (record s { main = nodes_wait }) (Watcher.node_step s.node_watcher Watcher.stop)
  main_act s nodes_wait =
      goes_on s (watcher_gone s.node_watcher.watching s.node_watcher.dispatching) pool_stop
  main_act s pool_stop =
      with_pool (record s { main = if s.pool.pool.stopped then bus_stop else pool_signal })
        (System.step s.pool System.stop_begin)
  main_act s pool_signal =
      with_pool (record s { main = pool_wait }) (System.step s.pool System.stop_signal)
  main_act s pool_wait =
      with_pool (record s { main = bus_stop }) (System.step s.pool System.stop_finish)
  main_act s bus_stop = with_bus (record s { main = bus_wait }) (Bus.step s.bus Bus.stop)
  main_act s bus_wait = goes_on s (not s.bus.dispatching) client_stop
  main_act s client_stop = some (record s { client = stop_once s.client; main = database_close })
  main_act s database_close = some (record s { main = exited })
  main_act s exited = none

  abbrev pub act : App P N A O → Action P N A → Option (App P N A O)
  act s (worker a) = if is_worker a then with_pool s (System.step s.pool a) else none
  act s (pod_act a) = if is_watcher a then with_pods s (Watcher.step s.pod_watcher a) else none
  act s (node_act a) =
      if is_watcher a then with_nodes s (Watcher.node_step s.node_watcher a) else none
  act s (metrics_act a) =
      if is_loop a then with_metrics s (MetricsLoop.step s.metrics_loop a) else none
  act s (bus_act a) =
      if is_bus_own a then if may_publish s a then with_bus s (Bus.step s.bus a) else none else none
  act s (see_context who) = context_seen s who (job_of s who) (position s who)
  act s (see_stopped who) = stopped_seen s who (job_of s who) (position s who)
  act s (send who i) = sent s who i (position s who)
  act s see_client_cancel =
      if s.pool.cancelled then some (record s { client = stop_once s.client }) else none
  act s main_next = main_act s s.main

  unfoldable pub step : App P N A O → Action P N A → Option (App P N A O)
  step s a = if any_panicked s then none else if is_exited s.main then none else act s a

  pub data Reach (s : App P N A O) : App P N A O → Type 0 where
    here : Reach s s
    next : {t u : App P N A O} (a : Action P N A) → Reach s t → step t a ≡ some u → Reach s u
