-- ===== src/Collector/MetricsWatcher/Checks.antt =====
-- The checks of metrics as one list of alerts.
use monitoring_tool.Prelude.{
  ℕ, suc, ◌≡◌, refl, ap, ◌∙◌, inl, inr, Bool, true, false, ◌&&◌, ◌==◌, List, [], ◌∷◌, arith,
  if◌then◌else◌, Bool-cases,
}
use monitoring_tool.Platform.{Platform}
use monitoring_tool.Models.{Alert, Stamp}
use monitoring_tool.Repository.{AlertRepo}
use monitoring_tool.Processor.StateManager.{Shared, process_all}
use monitoring_tool.Collector.Metrics.{PodMetrics, NodeMetrics, int64_pos}
use monitoring_tool.Collector.Builder.{
  AlertType, pod_cpu_high, pod_memory_high, node_cpu_high, node_memory_high,
}
use monitoring_tool.Collector.MetricBuilder.{build_pod_metric_alert, build_node_metric_alert}
use monitoring_tool.Collector.MetricsWatcher.{
  Thresholds, Run, process_if, check_pod, check_pods, check_node, check_nodes, pod_cpu_exceeded,
  pod_memory_exceeded, pod_cpu_alert, pod_memory_alert, node_cpu_exceeded, node_memory_exceeded,
  node_cpu_alert, node_memory_alert,
}

-- A list of at most one alert in front of others.
abbrev pub if_cons {ℓ} : {A : Type ℓ} → Bool → A → List A → List A
if_cons test a as' = if test then a ∷ as' else as'

-- A usage in percent that is watched, the threshold for it, the type of the alert that it calls for,
-- and whether there is a request that it is a percentage of.
pub record Measure (F : Type 0) : Type 0 where
  pub has_base : Bool
  pub value : F
  pub threshold : F
  pub raises : AlertType

module _ (p : Platform) (thresholds : Thresholds p.Float) where
  abbrev pub pod_measures : PodMetrics p → List (Measure p.Float)
  pod_measures m =
      record {
        has_base = int64_pos m.cpu_request;
        value = m.cpu_percent;
        threshold = thresholds.pod_cpu;
        raises = pod_cpu_high;
      }
      ∷ record {
        has_base = int64_pos m.memory_request;
        value = m.memory_percent;
        threshold = thresholds.pod_memory;
        raises = pod_memory_high;
      }
      ∷ []

  -- The percentages of a node are of what it can allocate.
  abbrev pub node_measures : NodeMetrics p → List (Measure p.Float)
  node_measures m =
      record {
        has_base = true;
        value = m.cpu_percent;
        threshold = thresholds.node_cpu;
        raises = node_cpu_high;
      }
      ∷ record {
        has_base = true;
        value = m.memory_percent;
        threshold = thresholds.node_memory;
        raises = node_memory_high;
      }
      ∷ []

  -- One alert for each measure that exceeds its threshold, in front of others. `build` takes the
  -- type, the value and the threshold.
  abbrev pub exceeding :
      (AlertType → p.Float → p.Float → Stamp → Alert p.Float p.Json)
      → List (Measure p.Float)
      → List (Stamp → Alert p.Float p.Json)
      → List (Stamp → Alert p.Float p.Json)
  exceeding build [] others = others
  exceeding build (x ∷ rest) others =
      if_cons (x.has_base && p.float_gt x.value x.threshold) (build x.raises x.value x.threshold)
        (exceeding build rest others)

  -- The alerts that a list of pods calls for: one for each pod whose CPU request is positive and
  -- whose CPU percentage exceeds the threshold of CPU, and likewise for memory.
  unfoldable pub pod_alerts : List (PodMetrics p) → List (Stamp → Alert p.Float p.Json)
  pod_alerts [] = []
  pod_alerts (m ∷ rest) =
      exceeding (build_pod_metric_alert p m.namespace m.pod_name) (pod_measures m) (pod_alerts rest)

  unfoldable pub node_alerts : List (NodeMetrics p) → List (Stamp → Alert p.Float p.Json)
  node_alerts [] = []
  node_alerts (m ∷ rest) =
      exceeding (build_node_metric_alert p m.node_name) (node_measures m) (node_alerts rest)

-- The alerts with their stamps and times, from the n-th on.
unfoldable pub stamped : {A : Type 0} → (ℕ → Stamp) → (ℕ → ℕ) → ℕ → List (Stamp → A) → List (A × ℕ)
stamped stamps at n [] = []
stamped stamps at n (a ∷ rest) = (a (stamps n), at n) ∷ stamped stamps at (suc n) rest

module _ (p : Platform) {S O : Type 0} (repo : AlertRepo p.Float p.Json S)
    (thresholds : Thresholds p.Float) (stamps : ℕ → Stamp) (published_at : ℕ → ℕ) where
  -- What is left of a run: its alerts one after the other.
  abbrev rest_of : Run p S O → List (Stamp → Alert p.Float p.Json) → Shared p.Float p.Json S O
  rest_of (sh, n) as' = (process_all repo sh (stamped stamps published_at n as')).0

  process_if-rest :
      (test : Bool) (a : Stamp → Alert p.Float p.Json) (run : Run p S O)
      (as' : List (Stamp → Alert p.Float p.Json))
      → rest_of (process_if p repo thresholds stamps published_at test a run) as'
        ≡ rest_of run (if_cons test a as')
  unfolding process_if process_all stamped
  process_if-rest true a (sh, n) as' = refl
  process_if-rest false a (sh, n) as' = refl

  -- The skip of a pod without requests changes nothing: both of its tests ask for a request.
  check_pod_no_skip :
      (m : PodMetrics p) (run : Run p S O)
      → check_pod p repo thresholds stamps published_at m run
        ≡ process_if p repo thresholds stamps published_at
            (pod_memory_exceeded p thresholds m)
            (pod_memory_alert p thresholds m)
            (process_if p repo thresholds stamps published_at
              (pod_cpu_exceeded p thresholds m)
              (pod_cpu_alert p thresholds m)
              run)
  unfolding check_pod
  check_pod_no_skip m (sh, n) = elim (Bool-cases (m.cpu_request == 0 && m.memory_request == 0)) [
    | inl skip ↦
        let cpu : pod_cpu_exceeded p thresholds m ≡ false = ground (arith, skip) in
        let memory : pod_memory_exceeded p thresholds m ≡ false = ground (arith, skip) in
        rw (skip, cpu, memory) refl
    | inr go ↦ rw go refl
  ]

  check_pods-rest :
      (ms : List (PodMetrics p)) (run : Run p S O)
      → (check_pods p repo thresholds stamps published_at ms run).0
        ≡ rest_of run (pod_alerts p thresholds ms)
  unfolding check_pods pod_alerts process_all stamped
  check_pods-rest [] run = refl
  check_pods-rest (m ∷ ms) run =
      let cpu =
        process_if p repo thresholds stamps published_at (pod_cpu_exceeded p thresholds m)
          (pod_cpu_alert p thresholds m) run in
      let others = pod_alerts p thresholds ms in
      check_pods-rest ms (check_pod p repo thresholds stamps published_at m run)
      ∙ ap (λ r. rest_of r others) (check_pod_no_skip m run)
      ∙ process_if-rest (pod_memory_exceeded p thresholds m) (pod_memory_alert p thresholds m) cpu
          others
      ∙ process_if-rest (pod_cpu_exceeded p thresholds m) (pod_cpu_alert p thresholds m) run
          (if_cons (pod_memory_exceeded p thresholds m) (pod_memory_alert p thresholds m) others)

  check_nodes-rest :
      (ms : List (NodeMetrics p)) (run : Run p S O)
      → (check_nodes p repo thresholds stamps published_at ms run).0
        ≡ rest_of run (node_alerts p thresholds ms)
  unfolding check_nodes check_node node_alerts process_all stamped
  check_nodes-rest [] run = refl
  check_nodes-rest (m ∷ ms) run =
      let cpu =
        process_if p repo thresholds stamps published_at (node_cpu_exceeded p thresholds m)
          (node_cpu_alert p thresholds m) run in
      let others = node_alerts p thresholds ms in
      check_nodes-rest ms (check_node p repo thresholds stamps published_at m run)
      ∙ process_if-rest (node_memory_exceeded p thresholds m) (node_memory_alert p thresholds m) cpu
          others
      ∙ process_if-rest (node_cpu_exceeded p thresholds m) (node_cpu_alert p thresholds m) run
          (if_cons (node_memory_exceeded p thresholds m) (node_memory_alert p thresholds m) others)

  -- The checks of a list of pods, and of a list of nodes, do to the store and the bus what giving the
  -- state manager one alert for each usage does that exceeds its own threshold and, in a pod, has a
  -- positive request: in the order of the list, CPU first, each alert built from the type of its
  -- usage, the percentage and the threshold.
  pub checks_lem :
      (pods : List (PodMetrics p)) (nodes : List (NodeMetrics p)) (sh : Shared p.Float p.Json S O)
      (n : ℕ)
      → ((check_pods p repo thresholds stamps published_at pods (sh, n)).0
          ≡ (process_all repo sh (stamped stamps published_at n (pod_alerts p thresholds pods))).0)
        × ((check_nodes p repo thresholds stamps published_at nodes (sh, n)).0
            ≡ (process_all repo sh
                (stamped stamps published_at n (node_alerts p thresholds nodes))).0)
  checks_lem pods nodes sh n = (check_pods-rest pods (sh, n), check_nodes-rest nodes (sh, n))
