-- ===== src/Collector/Builder.antt =====
-- internal/collector/alert_builder.go, the alerts raised on events.
use monitoring_tool.Prelude.{
  ℕ, Bool, true, false, String, str_eq, List, [], ◌∷◌, if◌then◌else◌, ◌<>◌,
}
use monitoring_tool.Platform.{
  Platform, Labels, NodeConditionType, node_ready, node_memory_pressure, node_disk_pressure,
  node_pid_pressure, node_network_unavailable,
}
use monitoring_tool.Models.{
  Alert, Stamp, new_alert, severity_critical, severity_high, severity_medium,
}
use monitoring_tool.Text.{show_int32}
use monitoring_tool.Collector.Objects.{
  Pod, ContainerStatus, Node, NodeCondition, oom_killed, crash_looping, image_pull_failing,
  waiting_message, concat, set_label, int32_gt,
}

pub data AlertType : Type 0 where
  pod_failed pod_oom_killed pod_crash_loop pod_restart_threshold pod_image_pull pod_pending :
      AlertType
  pod_unknown node_not_ready node_memory_pressure_alert node_disk_pressure_alert : AlertType
  node_pid_pressure_alert pod_cpu_high pod_memory_high node_cpu_high node_memory_high : AlertType

abbrev pub alert_type_name : AlertType → String
alert_type_name pod_failed = "pod_failed"
alert_type_name pod_oom_killed = "pod_oom_killed"
alert_type_name pod_crash_loop = "pod_crash_loop"
alert_type_name pod_restart_threshold = "pod_restart_threshold"
alert_type_name pod_image_pull = "pod_image_pull"
alert_type_name pod_pending = "pod_pending"
alert_type_name pod_unknown = "pod_unknown"
alert_type_name node_not_ready = "node_not_ready"
alert_type_name node_memory_pressure_alert = "node_memory_pressure"
alert_type_name node_disk_pressure_alert = "node_disk_pressure"
alert_type_name node_pid_pressure_alert = "node_pid_pressure"
alert_type_name pod_cpu_high = "pod_cpu_high"
alert_type_name pod_memory_high = "pod_memory_high"
alert_type_name node_cpu_high = "node_cpu_high"
alert_type_name node_memory_high = "node_memory_high"

unfoldable pub get_oom_killed_container : List ContainerStatus → String
get_oom_killed_container [] = "unknown"
get_oom_killed_container (cs ∷ rest) =
    if oom_killed cs then cs.name else get_oom_killed_container rest

unfoldable pub get_crash_loop_container : List ContainerStatus → String × String
get_crash_loop_container [] = ("unknown", "unknown")
get_crash_loop_container (cs ∷ rest) =
    if crash_looping cs
    then (cs.name, waiting_message cs.waiting)
    else get_crash_loop_container rest

-- The loop of `getHighestRestartContainer`, from the maximum and the name found so far.
unfoldable pub highest_restart : ℕ → String → List ContainerStatus → String
highest_restart max_restarts container [] = container
highest_restart max_restarts container (cs ∷ rest) =
    let higher = int32_gt cs.restart_count max_restarts in
    highest_restart (if higher then cs.restart_count else max_restarts)
      (if higher then cs.name else container) rest

unfoldable pub get_highest_restart_container : List ContainerStatus → String
unfolding highest_restart
get_highest_restart_container css = highest_restart 0 "unknown" css

unfoldable pub get_image_pull_error : List ContainerStatus → String × String
get_image_pull_error [] = ("unknown", "unknown")
get_image_pull_error (cs ∷ rest) =
    if image_pull_failing cs
    then (cs.name, waiting_message cs.waiting)
    else get_image_pull_error rest

abbrev same_kind : NodeConditionType → NodeConditionType → Bool
same_kind node_ready node_ready = true
same_kind node_memory_pressure node_memory_pressure = true
same_kind node_disk_pressure node_disk_pressure = true
same_kind node_pid_pressure node_pid_pressure = true
same_kind node_network_unavailable node_network_unavailable = true
same_kind _ _ = false

-- What an alert says, before `models.NewAlert` stamps it.
pub record Draft : Type 0 where
  pub severity : String
  pub message : String
  pub labels : Labels

module _ (p : Platform) where
  unfoldable pub get_node_condition_reason : NodeConditionType → List NodeCondition → String
  get_node_condition_reason kind [] = "Unknown"
  get_node_condition_reason kind (c ∷ rest) =
      if same_kind c.kind kind
      then (if str_eq c.reason "" then p.status_text c.status else c.reason)
      else get_node_condition_reason kind rest

  -- The labels that every pod alert starts from.
  abbrev pub pod_labels : Pod → AlertType → Labels
  pod_labels pod t =
      ("namespace", pod.namespace) ∷ ("pod", pod.name) ∷ ("alert_type", alert_type_name t) ∷ []

  -- "…, Message: m", where there is a message.
  abbrev suffix : String → String → String
  suffix lead m = if str_eq m "" then "" else lead <> m

  unfoldable pub pod_draft : Pod → AlertType → p.Float → Draft
  pod_draft pod pod_failed value = record {
    severity = severity_critical;
    message = concat (
        "Pod "
        ∷ pod.namespace
        ∷ "/"
        ∷ pod.name
        ∷ " has FAILED - Phase: "
        ∷ p.phase_text pod.phase
        ∷ ", Reason: "
        ∷ pod.reason
        ∷ suffix ", Message: " pod.message
        ∷ []);
    labels = pod_labels pod pod_failed;
  }
  pod_draft pod pod_oom_killed value =
      let container = get_oom_killed_container pod.container_statuses in
      record {
        severity = severity_critical;
        message = concat (
            "Pod " ∷ pod.namespace ∷ "/" ∷ pod.name ∷ " container '" ∷ container
            ∷ "' was OOM KILLED - Out of memory" ∷ []);
        labels = set_label "container" container (pod_labels pod pod_oom_killed);
      }
  pod_draft pod pod_crash_loop value =
      let (container, reason) = get_crash_loop_container pod.container_statuses in
      record {
        severity = severity_high;
        message = concat (
            "Pod " ∷ pod.namespace ∷ "/" ∷ pod.name ∷ " container '" ∷ container
            ∷ "' is in CRASH LOOP BACKOFF - Reason: " ∷ reason ∷ []);
        labels =
            set_label "reason" reason
              (set_label "container" container (pod_labels pod pod_crash_loop));
      }
  pod_draft pod pod_restart_threshold value =
      let container = get_highest_restart_container pod.container_statuses in
      record {
        severity = severity_high;
        message = concat (
            "Pod "
            ∷ pod.namespace
            ∷ "/"
            ∷ pod.name
            ∷ " has EXCESSIVE RESTARTS - Total restarts: "
            ∷ show_int32 (p.to_int32 value)
            ∷ ", Container: "
            ∷ container
            ∷ []);
        labels = set_label "container" container (pod_labels pod pod_restart_threshold);
      }
  pod_draft pod pod_image_pull value =
      let (container, error) = get_image_pull_error pod.container_statuses in
      record {
        severity = severity_high;
        message = concat (
            "Pod " ∷ pod.namespace ∷ "/" ∷ pod.name ∷ " container '" ∷ container
            ∷ "' cannot pull image - Error: " ∷ error ∷ []);
        labels = set_label "container" container (pod_labels pod pod_image_pull);
      }
  pod_draft pod pod_pending value = record {
    severity = severity_medium;
    message = concat (
        "Pod "
        ∷ pod.namespace
        ∷ "/"
        ∷ pod.name
        ∷ " is PENDING for extended period - Reason: "
        ∷ pod.reason
        ∷ suffix ", Details: " pod.message
        ∷ []);
    labels = pod_labels pod pod_pending;
  }
  pod_draft pod pod_unknown value = record {
    severity = severity_critical;
    message = concat (
        "Pod "
        ∷ pod.namespace
        ∷ "/"
        ∷ pod.name
        ∷ " is in UNKNOWN state - Last known phase: "
        ∷ p.phase_text pod.phase
        ∷ []);
    labels = pod_labels pod pod_unknown;
  }
  pod_draft pod t value = record {
    severity = severity_medium;
    message = concat (
        "Pod "
        ∷ pod.namespace
        ∷ "/"
        ∷ pod.name
        ∷ " issue detected - Type: "
        ∷ alert_type_name t
        ∷ []);
    labels = pod_labels pod t;
  }

  abbrev pub from_draft : Draft → String → p.Float → Stamp → Alert p.Float p.Json
  from_draft d source value stamp = new_alert p d.severity d.message source value d.labels stamp

  unfoldable pub build_pod_alert : Pod → AlertType → p.Float → Stamp → Alert p.Float p.Json
  unfolding pod_draft
  build_pod_alert pod t value stamp = from_draft (pod_draft pod t value) "k8s_pod" value stamp

  abbrev node_labels : Node → AlertType → Labels
  node_labels node t = ("node", node.name) ∷ ("alert_type", alert_type_name t) ∷ []

  abbrev node_text : Node → AlertType → String × String
  node_text node node_not_ready = (
    severity_critical,
    " is NOT READY - Status: " <> get_node_condition_reason node_ready node.conditions,
  )
  node_text node node_memory_pressure_alert =
      (severity_high, " has MEMORY PRESSURE - Available memory is low")
  node_text node node_disk_pressure_alert =
      (severity_high, " has DISK PRESSURE - Disk space is running low")
  node_text node node_pid_pressure_alert =
      (severity_medium, " has PID PRESSURE - Too many processes running")
  node_text node t = (severity_medium, " issue detected - Type: " <> alert_type_name t)

  unfoldable pub build_node_alert : Node → AlertType → p.Float → Stamp → Alert p.Float p.Json
  build_node_alert node t value stamp =
      let (severity, text) = node_text node t in
      from_draft
        (record {
          severity = severity;
          message = concat ("Node " ∷ node.name ∷ text ∷ []);
          labels = node_labels node t;
        })
        "k8s_node" value stamp
