-- ===== src/Examples/Watching.antt =====
-- The watchers at concrete pods, nodes and metrics.
use monitoring_tool.Prelude.{
  ℕ, ◌≡◌, ◌≢◌, ◌↔◌, refl, List, [], ◌∷◌, Option, none, some, arith, All, String,
}
use monitoring_tool.Platform.{
  pod_running, pod_failed, node_ready, node_disk_pressure, condition_true,
}
use monitoring_tool.Repository.Postgres.{postgres}
use monitoring_tool.Processor.StateManager.{process_all}
use monitoring_tool.Collector.Objects.{Pod, ContainerStatus, Node, get_label}
use monitoring_tool.Collector.Builder.{pod_draft, get_highest_restart_container}
use monitoring_tool.Collector.Builder
use monitoring_tool.Collector.Severities.{IsCounted}
use monitoring_tool.Collector.Dashboard.{KeepsShortfall, process_event-KeepsShortfall}
use monitoring_tool.Collector.PodWatcher.{evaluate_pod_conditions}
use monitoring_tool.Collector.PodWatcher.Healthy.{IsHealthy, evaluate_nil_iff_IsHealthy}
use monitoring_tool.Collector.PodWatcher.Containers.{oom_names_first}
use monitoring_tool.Collector.NodeWatcher.{evaluate_node_conditions}
use monitoring_tool.Collector.NodeWatcher.Raised.{build_from, IsFine, evaluate_node_conditions_lem}
use monitoring_tool.Collector.NodeWatcher.Rules.{called_for}
use monitoring_tool.Collector.Metrics.{PodMetrics, NodeMetrics}
use monitoring_tool.Collector.MetricsWatcher.{Thresholds, check_pods, check_nodes}
use monitoring_tool.Collector.MetricsWatcher.Checks.{pod_alerts, node_alerts, stamped, checks_lem}
use monitoring_tool.Collector.PodWatcher
use monitoring_tool.Collector.NodeWatcher
use monitoring_tool.Examples.Toy.{toy, stamp_of}
use monitoring_tool.Examples.Storing.{table, rows, table-RepoLaws, shared}

abbrev container : String → ℕ → Option String → ContainerStatus
container name restarts killed = record {
  name = name;
  restart_count = restarts;
  terminated_reason = killed;
  waiting = none;
}

abbrev two_killed : List ContainerStatus
two_killed = container "app" 2 (some "OOMKilled") ∷ container "proxy" 5 (some "OOMKilled") ∷ []

abbrev failed_pod : Pod
failed_pod = record {
  namespace = "default";
  name = "web";
  phase = pod_failed;
  reason = "Evicted";
  message = "";
  container_statuses = two_killed;
  creation_timestamp = 10;
}

abbrev running_pod : Pod
running_pod = record failed_pod {
  phase = pod_running;
  container_statuses = container "app" 2 none ∷ [];
}

abbrev full_node : Node
full_node = record {
  name = "worker";
  conditions =
      record { kind = node_ready; status = condition_true; reason = "" }
      ∷ record { kind = node_disk_pressure; status = condition_true; reason = "" }
      ∷ [];
}

-- A failed phase, two containers killed for memory, and seven restarts against a threshold of five.
evaluate_nil_iff_IsHealthy_example :
    (evaluate_pod_conditions toy stamp_of 5 20 running_pod ≡ []) ↔ IsHealthy 5 20 running_pod
evaluate_nil_iff_IsHealthy_example =
    evaluate_nil_iff_IsHealthy toy stamp_of running_pod 5 20 (omega arith) (omega arith)

oom_names_first_example :
    (get_label "container" (pod_draft toy failed_pod Builder.pod_oom_killed 5).labels ≡ "app")
    × (get_label "container" (pod_draft toy failed_pod Builder.pod_oom_killed 5).labels ≢ "proxy")
oom_names_first_example =
    oom_names_first toy failed_pod [] (container "app" 2 (some "OOMKilled")) []
      (container "proxy" 5 (some "OOMKilled")) [] 5 refl tt refl refl (λ e. cc)

evaluate_node_conditions_lem_example :
    (evaluate_node_conditions toy stamp_of full_node
      ≡ build_from toy stamp_of full_node 0 (called_for full_node.conditions))
    × All IsCounted (evaluate_node_conditions toy stamp_of full_node)
    × ((evaluate_node_conditions toy stamp_of full_node ≡ []) ↔ All IsFine full_node.conditions)
evaluate_node_conditions_lem_example = evaluate_node_conditions_lem toy stamp_of full_node

process_event-KeepsShortfall_example :
    KeepsShortfall
      (postgres table)
      rows
      none
      (PodWatcher.process_event toy stamp_of
        (postgres table)
        shared
        5
        20
        (λ a. 21)
        failed_pod).store
    × KeepsShortfall
        (postgres table)
        rows
        none
        (NodeWatcher.process_event toy stamp_of (postgres table) shared (λ a. 21) full_node).store
process_event-KeepsShortfall_example =
    process_event-KeepsShortfall toy stamp_of (postgres table) table-RepoLaws shared (λ a. 21) 5 20
      failed_pod full_node

abbrev pub busy_pod : PodMetrics toy
busy_pod = record {
  namespace = "default";
  pod_name = "web";
  cpu_usage = 95;
  cpu_percent = 95;
  memory_usage = 10;
  memory_percent = 0;
  cpu_request = 100;
  memory_request = 0;
}

abbrev pub busy_node : NodeMetrics toy
busy_node = record {
  node_name = "worker";
  cpu_usage = 95;
  cpu_percent = 95;
  memory_usage = 10;
  memory_percent = 10;
  cpu_capacity = 100;
  memory_capacity = 100;
}

abbrev pub thresholds : Thresholds ℕ
thresholds = record { pod_cpu = 80; pod_memory = 80; node_cpu = 85; node_memory = 85 }

checks_lem_example :
    ((check_pods toy (postgres table) thresholds stamp_of (λ n. n) (busy_pod ∷ []) (shared, 0)).0
      ≡ (process_all
          (postgres table)
          shared
          (stamped stamp_of (λ n. n) 0 (pod_alerts toy thresholds (busy_pod ∷ [])))).0)
    × ((check_nodes toy
          (postgres table)
          thresholds
          stamp_of
          (λ n. n)
          (busy_node ∷ [])
          (shared, 0)).0
        ≡ (process_all
            (postgres table)
            shared
            (stamped stamp_of (λ n. n) 0 (node_alerts toy thresholds (busy_node ∷ [])))).0)
checks_lem_example =
    checks_lem toy (postgres table) thresholds stamp_of (λ n. n) (busy_pod ∷ []) (busy_node ∷ [])
      shared 0
