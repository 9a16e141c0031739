-- ===== src/Collector/MetricBuilder.antt =====
-- internal/collector/alert_builder.go, the alerts raised on metrics.
use monitoring_tool.Prelude.{String, List, [], ◌∷◌}
use monitoring_tool.Platform.{Platform, Labels}
use monitoring_tool.Models.{Alert, Stamp, severity_critical, severity_high, severity_medium}
use monitoring_tool.Collector.Objects.{concat, set_label}
use monitoring_tool.Collector.Builder.{
  AlertType, pod_cpu_high, pod_memory_high, node_cpu_high, node_memory_high, alert_type_name, Draft,
  from_draft,
}

module _ (p : Platform) where
  abbrev pod_metric_labels : String → String → AlertType → Labels
  pod_metric_labels namespace pod t =
      ("namespace", namespace)
      ∷ ("pod", pod)
      ∷ ("alert_type", alert_type_name t)
      ∷ ("metric", "")
      ∷ []

  abbrev usage : String → p.Float → p.Float → List String
  usage lead value threshold =
      lead ∷ p.format_1 value ∷ "% (threshold: " ∷ p.format_1 threshold ∷ "%)" ∷ []

  unfoldable pub pod_metric_draft : String → String → AlertType → p.Float → p.Float → Draft
  pod_metric_draft namespace pod pod_cpu_high value threshold = record {
    severity = severity_high;
    message =
        concat ("Pod " ∷ namespace ∷ "/" ∷ pod ∷ usage " CPU usage is HIGH: " value threshold);
    labels = set_label "metric" "cpu" (pod_metric_labels namespace pod pod_cpu_high);
  }
  pod_metric_draft namespace pod pod_memory_high value threshold = record {
    severity = severity_high;
    message =
        concat ("Pod " ∷ namespace ∷ "/" ∷ pod ∷ usage " Memory usage is HIGH: " value threshold);
    labels = set_label "metric" "memory" (pod_metric_labels namespace pod pod_memory_high);
  }
  pod_metric_draft namespace pod t value threshold = record {
    severity = severity_medium;
    message = concat ("Pod " ∷ namespace ∷ "/" ∷ pod ∷ " metric alert" ∷ []);
    labels = pod_metric_labels namespace pod t;
  }

  unfoldable pub build_pod_metric_alert :
      String → String → AlertType → p.Float → p.Float → Stamp → Alert p.Float p.Json
  unfolding pod_metric_draft
  build_pod_metric_alert namespace pod t value threshold stamp =
      from_draft p (pod_metric_draft namespace pod t value threshold) "k8s_pod_metrics" value stamp

  abbrev node_metric_labels : String → AlertType → Labels
  node_metric_labels node t =
      ("node", node) ∷ ("alert_type", alert_type_name t) ∷ ("metric", "") ∷ []

  unfoldable pub node_metric_draft : String → AlertType → p.Float → p.Float → Draft
  node_metric_draft node node_cpu_high value threshold = record {
    severity = severity_critical;
    message = concat ("Node " ∷ node ∷ usage " CPU usage is CRITICAL: " value threshold);
    labels = set_label "metric" "cpu" (node_metric_labels node node_cpu_high);
  }
  node_metric_draft node node_memory_high value threshold = record {
    severity = severity_critical;
    message = concat ("Node " ∷ node ∷ usage " Memory usage is CRITICAL: " value threshold);
    labels = set_label "metric" "memory" (node_metric_labels node node_memory_high);
  }
  node_metric_draft node t value threshold = record {
    severity = severity_medium;
    message = concat ("Node " ∷ node ∷ " metric alert" ∷ []);
    labels = node_metric_labels node t;
  }

  unfoldable pub build_node_metric_alert :
      String → AlertType → p.Float → p.Float → Stamp → Alert p.Float p.Json
  unfolding node_metric_draft
  build_node_metric_alert node t value threshold stamp =
      from_draft p (node_metric_draft node t value threshold) "k8s_node_metrics" value stamp
