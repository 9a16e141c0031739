-- ===== src/Collector/Severities.antt =====
-- Every alert that a builder makes has one of the four severities that the service counts.
use monitoring_tool.Prelude.{
  ℕ, ◌≡◌, refl, Bool, true, false, String, List, [], ◌∷◌, All, All-append,
}
use monitoring_tool.Platform.{Platform}
use monitoring_tool.Models.{Alert, Stamp, new_alert, is_firing}
use monitoring_tool.Service.Counts.{known_severity}
use monitoring_tool.Collector.Objects.{
  Pod, ContainerStatus, Node, oom_killed, crash_looping, image_pull_failing,
}
use monitoring_tool.Collector.Builder.{AlertType, build_pod_alert, build_node_alert}
use monitoring_tool.Collector.MetricBuilder.{build_pod_metric_alert, build_node_metric_alert}
use monitoring_tool.Collector.Builder
use monitoring_tool.Collector.PodWatcher.{
  add_if, check_container, check_containers, evaluate_pod_conditions,
}

-- A new alert with a severity that the service counts.
abbrev pub IsCounted : {F J : Type 0} → Alert F J → Type 0
IsCounted a = (known_severity a ≡ true) × (is_firing a ≡ true)

module _ (p : Platform) where
  pub build_pod_alert-IsCounted :
      (pod : Pod) (t : AlertType) (v : p.Float) (s : Stamp)
      → IsCounted (build_pod_alert p pod t v s)
  unfolding build_pod_alert new_alert is_firing
  build_pod_alert-IsCounted pod Builder.pod_failed v s = (refl, refl)
  build_pod_alert-IsCounted pod t v s = (refl, refl)

  pub build_node_alert-IsCounted :
      (node : Node) (t : AlertType) (v : p.Float) (s : Stamp)
      → IsCounted (build_node_alert p node t v s)
  unfolding build_node_alert new_alert is_firing
  build_node_alert-IsCounted node Builder.node_not_ready v s = (refl, refl)
  build_node_alert-IsCounted node t v s = (refl, refl)

  pub build_pod_metric_alert-IsCounted :
      (namespace pod : String) (t : AlertType) (v threshold : p.Float) (s : Stamp)
      → IsCounted (build_pod_metric_alert p namespace pod t v threshold s)
  unfolding build_pod_metric_alert new_alert is_firing
  build_pod_metric_alert-IsCounted namespace pod Builder.pod_cpu_high v threshold s = (refl, refl)
  build_pod_metric_alert-IsCounted namespace pod t v threshold s = (refl, refl)

  pub build_node_metric_alert-IsCounted :
      (node : String) (t : AlertType) (v threshold : p.Float) (s : Stamp)
      → IsCounted (build_node_metric_alert p node t v threshold s)
  unfolding build_node_metric_alert new_alert is_firing
  build_node_metric_alert-IsCounted node Builder.node_cpu_high v threshold s = (refl, refl)
  build_node_metric_alert-IsCounted node t v threshold s = (refl, refl)

module _ (p : Platform) (stamps : ℕ → Stamp) (pod : Pod) where
  add_if-All :
      (test : Bool) (t : AlertType) (v : p.Float) (alerts : List (Alert p.Float p.Json))
      → All IsCounted alerts
      → All IsCounted (add_if p stamps test pod t v alerts)
  unfolding add_if
  add_if-All true t v alerts h =
      All-append IsCounted alerts _ h (build_pod_alert-IsCounted p pod t v _, tt)
  add_if-All false t v alerts h = h

  check_container-All :
      (cs : ContainerStatus) (alerts : List (Alert p.Float p.Json))
      → All IsCounted alerts
      → All IsCounted (check_container p stamps pod cs alerts)
  unfolding check_container
  check_container-All cs alerts h =
      let after_oom =
        add_if p stamps (oom_killed cs) pod Builder.pod_oom_killed (p.of_int32 cs.restart_count)
          alerts in
      let after_crash =
        add_if p stamps (crash_looping cs) pod Builder.pod_crash_loop (p.of_int32 cs.restart_count)
          after_oom in
      add_if-All (image_pull_failing cs) Builder.pod_image_pull (p.of_int32 1) after_crash (
        add_if-All (crash_looping cs) Builder.pod_crash_loop (p.of_int32 cs.restart_count) after_oom
          (add_if-All (oom_killed cs) Builder.pod_oom_killed (p.of_int32 cs.restart_count) alerts
            h))

  check_containers-All :
      (css : List ContainerStatus) (total : ℕ) (alerts : List (Alert p.Float p.Json))
      → All IsCounted alerts
      → All IsCounted (check_containers p stamps pod css total alerts).1
  unfolding check_containers
  check_containers-All [] total alerts h = h
  check_containers-All (cs ∷ rest) total alerts h =
      check_containers-All rest _ _ (check_container-All cs alerts h)

  -- Every alert that a pod raises fires, with one of the four severities that the service counts.
  pub evaluate_pod_conditions-All :
      (threshold now : ℕ) → All IsCounted (evaluate_pod_conditions p stamps threshold now pod)
  unfolding evaluate_pod_conditions
  evaluate_pod_conditions-All threshold now = add_if-All _ _ _ _ (
      add_if-All _ _ _ _ (
        check_containers-All pod.container_statuses 0 _
          (add_if-All _ _ _ _ (add_if-All _ _ _ [] tt))))
