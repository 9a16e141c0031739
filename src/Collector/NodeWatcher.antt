-- ===== src/Collector/NodeWatcher.antt =====
-- internal/collector/node_collector.go: the conditions of a node, and the processing of its events.
pub mod Rules
pub mod Raised
use monitoring_tool.Prelude.{
  ℕ, Bool, true, false, not, List, [], ◌∷◌, ◌++◌, Option, none, some, length, map, if◌then◌else◌,
}
use monitoring_tool.Platform.{
  Platform, ConditionStatus, condition_true, condition_false, condition_unknown, NodeConditionType,
  node_ready, node_memory_pressure, node_disk_pressure, node_pid_pressure, node_network_unavailable,
}
use monitoring_tool.Models.{Alert, Stamp}
use monitoring_tool.Repository.{AlertRepo}
use monitoring_tool.Processor.StateManager.{Shared, process_all}
use monitoring_tool.Collector.Objects.{Node, NodeCondition}
use monitoring_tool.Collector.Builder.{
  AlertType, node_not_ready, node_memory_pressure_alert, node_disk_pressure_alert,
  node_pid_pressure_alert, build_node_alert,
}

abbrev pub is_true : ConditionStatus → Bool
is_true condition_true = true
is_true _ = false

-- The `switch` of the loop: the alert that a condition calls for.
abbrev pub alert_for : NodeConditionType → ConditionStatus → Option AlertType
alert_for node_ready st = if is_true st then none else some node_not_ready
alert_for node_memory_pressure st = if is_true st then some node_memory_pressure_alert else none
alert_for node_disk_pressure st = if is_true st then some node_disk_pressure_alert else none
alert_for node_pid_pressure st = if is_true st then some node_pid_pressure_alert else none
alert_for node_network_unavailable st = none

module _ (p : Platform) (stamps : ℕ → Stamp) where
  abbrev pub append_alert :
      Node → Option AlertType → List (Alert p.Float p.Json) → List (Alert p.Float p.Json)
  append_alert node none alerts = alerts
  append_alert node (some t) alerts =
      alerts ++ build_node_alert p node t (p.of_int32 1) (stamps (length alerts)) ∷ []

  unfoldable pub check_conditions :
      Node → List NodeCondition → List (Alert p.Float p.Json) → List (Alert p.Float p.Json)
  check_conditions node [] alerts = alerts
  check_conditions node (c ∷ rest) alerts =
      check_conditions node rest (append_alert node (alert_for c.kind c.status) alerts)

  unfoldable pub evaluate_node_conditions : Node → List (Alert p.Float p.Json)
  evaluate_node_conditions node = check_conditions node node.conditions []

  unfoldable pub process_event :
      {S O : Type 0}
      → AlertRepo p.Float p.Json S
      → Shared p.Float p.Json S O
      → (Alert p.Float p.Json → ℕ)
      → Node
      → Shared p.Float p.Json S O
  process_event repo sh published_at node =
      (process_all repo sh (map (λ a. (a, published_at a)) (evaluate_node_conditions node))).0
