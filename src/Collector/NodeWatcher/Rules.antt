-- ===== src/Collector/NodeWatcher/Rules.antt =====
-- Which conditions of a node call for which alert, as a table beside the `switch` of
-- evaluateNodeConditions in internal/collector/node_collector.go.
use monitoring_tool.Prelude.{Bool, true, false, ◌&&◌, List, [], ◌∷◌, ◌++◌, if◌then◌else◌}
use monitoring_tool.Platform.{
  ConditionStatus, condition_true, condition_false, condition_unknown, NodeConditionType,
  node_ready, node_memory_pressure, node_disk_pressure, node_pid_pressure, node_network_unavailable,
}
use monitoring_tool.Collector.Objects.{NodeCondition}
use monitoring_tool.Collector.Builder.{
  AlertType, node_not_ready, node_memory_pressure_alert, node_disk_pressure_alert,
  node_pid_pressure_alert,
}

-- A kind of condition, the statuses in which it calls for an alert, and the type of that alert.
pub record Rule : Type 0 where
  pub kind : NodeConditionType
  pub statuses : List ConditionStatus
  pub raises : AlertType

abbrev pub rules : List Rule
rules =
    record {
      kind = node_ready;
      statuses = condition_false ∷ condition_unknown ∷ [];
      raises = node_not_ready;
    }
    ∷ record {
      kind = node_memory_pressure;
      statuses = condition_true ∷ [];
      raises = node_memory_pressure_alert;
    }
    ∷ record {
      kind = node_disk_pressure;
      statuses = condition_true ∷ [];
      raises = node_disk_pressure_alert;
    }
    ∷ record {
      kind = node_pid_pressure;
      statuses = condition_true ∷ [];
      raises = node_pid_pressure_alert;
    }
    ∷ []

abbrev pub is_kind : NodeConditionType → NodeConditionType → Bool
is_kind node_ready node_ready = true
is_kind node_memory_pressure node_memory_pressure = true
is_kind node_disk_pressure node_disk_pressure = true
is_kind node_pid_pressure node_pid_pressure = true
is_kind node_network_unavailable node_network_unavailable = true
is_kind _ _ = false

abbrev pub same_status : ConditionStatus → ConditionStatus → Bool
same_status condition_true condition_true = true
same_status condition_false condition_false = true
same_status condition_unknown condition_unknown = true
same_status _ _ = false

abbrev pub is_among : ConditionStatus → List ConditionStatus → Bool
is_among st [] = false
is_among st (x ∷ rest) = let later = is_among st rest in if same_status st x then true else later

-- The types of the rules that a condition meets.
abbrev pub raised_by : List Rule → NodeConditionType → ConditionStatus → List AlertType
raised_by [] kind st = []
raised_by (r ∷ rest) kind st =
    let others = raised_by rest kind st in
    if is_kind kind r.kind && is_among st r.statuses then r.raises ∷ others else others

-- The alert types that a list of conditions calls for, one for each rule that one of them meets.
unfoldable pub called_for : List NodeCondition → List AlertType
called_for [] = []
called_for (c ∷ rest) = raised_by rules c.kind c.status ++ called_for rest
