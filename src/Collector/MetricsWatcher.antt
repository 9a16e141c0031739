-- ===== src/Collector/MetricsWatcher.antt =====
-- internal/collector/metrics_collector.go: the checks of pod and node metrics against thresholds.
pub mod Checks
use monitoring_tool.Prelude.{
  ℕ, suc, ◌+◌, ◌*◌, Bool, true, false, ◌&&◌, List, [], ◌∷◌, ◌++◌, String, Option, none, some, ◌==◌,
  if◌then◌else◌,
}
use monitoring_tool.Platform.{Platform}
use monitoring_tool.Results.{Result, ok, err, panics}
use monitoring_tool.Models.{Alert, Stamp}
use monitoring_tool.Repository.{AlertRepo}
use monitoring_tool.Processor.StateManager.{Shared, process_alert}
use monitoring_tool.Collector.Builder.{
  AlertType, pod_cpu_high, pod_memory_high, node_cpu_high, node_memory_high,
}
use monitoring_tool.Collector.MetricBuilder.{build_pod_metric_alert, build_node_metric_alert}
use monitoring_tool.Collector.Metrics.{PodMetrics, NodeMetrics, int64_pos}

-- The thresholds of `config.AlertRulesConfig`, in percent.
pub record Thresholds (F : Type 0) : Type 0 where
  pub pod_cpu : F
  pub pod_memory : F
  pub node_cpu : F
  pub node_memory : F

module _ (p : Platform) (thresholds : Thresholds p.Float) where
  abbrev pub pod_cpu_exceeded : PodMetrics p → Bool
  pod_cpu_exceeded m = int64_pos m.cpu_request && p.float_gt m.cpu_percent thresholds.pod_cpu

  abbrev pub pod_memory_exceeded : PodMetrics p → Bool
  pod_memory_exceeded m =
      int64_pos m.memory_request && p.float_gt m.memory_percent thresholds.pod_memory

  abbrev pub pod_cpu_alert : PodMetrics p → Stamp → Alert p.Float p.Json
  pod_cpu_alert m =
      build_pod_metric_alert p m.namespace m.pod_name pod_cpu_high m.cpu_percent thresholds.pod_cpu

  abbrev pub pod_memory_alert : PodMetrics p → Stamp → Alert p.Float p.Json
  pod_memory_alert m =
      build_pod_metric_alert p m.namespace m.pod_name pod_memory_high m.memory_percent
        thresholds.pod_memory

  abbrev pub node_cpu_exceeded : NodeMetrics p → Bool
  node_cpu_exceeded m = p.float_gt m.cpu_percent thresholds.node_cpu

  abbrev pub node_memory_exceeded : NodeMetrics p → Bool
  node_memory_exceeded m = p.float_gt m.memory_percent thresholds.node_memory

  abbrev pub node_cpu_alert : NodeMetrics p → Stamp → Alert p.Float p.Json
  node_cpu_alert m =
      build_node_metric_alert p m.node_name node_cpu_high m.cpu_percent thresholds.node_cpu

  abbrev pub node_memory_alert : NodeMetrics p → Stamp → Alert p.Float p.Json
  node_memory_alert m =
      build_node_metric_alert p m.node_name node_memory_high m.memory_percent thresholds.node_memory

-- The shared state, and how many alerts this run has built.
abbrev pub Run : Platform → Type 0 → Type 0 → Type 0
Run p S O = Shared p.Float p.Json S O × ℕ

module _ (p : Platform) {S : Type 0} (repo : AlertRepo p.Float p.Json S)
    (thresholds : Thresholds p.Float) (stamps : ℕ → Stamp) (published_at : ℕ → ℕ) where
  -- `if test { alert := …; ProcessAlert(alert) }`, whose error is only logged. The n-th alert of a
  -- run has the n-th stamp and is published at the n-th time.
  unfoldable pub process_if :
      {O : Type 0} → Bool → (Stamp → Alert p.Float p.Json) → Run p S O → Run p S O
  process_if test alert (sh, n) =
      if test
      then ((process_alert repo sh (alert (stamps n)) (published_at n)).0, suc n)
      else (sh, n)

  -- The body of the loop: a pod with no request at all is skipped.
  unfoldable pub check_pod : {O : Type 0} → PodMetrics p → Run p S O → Run p S O
  unfolding process_if
  check_pod m run =
      if m.cpu_request == 0 && m.memory_request == 0
      then run
      else process_if (pod_memory_exceeded p thresholds m) (pod_memory_alert p thresholds m)
          (process_if (pod_cpu_exceeded p thresholds m) (pod_cpu_alert p thresholds m) run)

  unfoldable pub check_pods : {O : Type 0} → List (PodMetrics p) → Run p S O → Run p S O
  check_pods [] run = run
  check_pods (m ∷ rest) run = check_pods rest (check_pod m run)

  unfoldable pub check_node : {O : Type 0} → NodeMetrics p → Run p S O → Run p S O
  unfolding process_if
  check_node m run =
      process_if (node_memory_exceeded p thresholds m) (node_memory_alert p thresholds m)
        (process_if (node_cpu_exceeded p thresholds m) (node_cpu_alert p thresholds m) run)

  unfoldable pub check_nodes : {O : Type 0} → List (NodeMetrics p) → Run p S O → Run p S O
  check_nodes [] run = run
  check_nodes (m ∷ rest) run = check_nodes rest (check_node m run)

  -- `checkPodMetrics` and `checkNodeMetrics`: an error of the client ends the task.
  unfoldable pub check_pod_metrics :
      {O : Type 0} → Result (List (PodMetrics p)) → Run p S O → Run p S O × Result (Unit {0})
  check_pod_metrics (ok ms) run = (check_pods ms run, ok tt)
  check_pod_metrics (err e) run = (run, err e)
  check_pod_metrics panics run = (run, panics)

  unfoldable pub check_node_metrics :
      {O : Type 0} → Result (List (NodeMetrics p)) → Run p S O → Run p S O × Result (Unit {0})
  check_node_metrics (ok ms) run = (check_nodes ms run, ok tt)
  check_node_metrics (err e) run = (run, err e)
  check_node_metrics panics run = (run, panics)
