-- ===== src/Collector/PodWatcher.antt =====
-- internal/collector/pod_collector.go: the conditions of a pod, and the processing of its events.
pub mod Healthy
pub mod Containers
use monitoring_tool.Prelude.{
  ℕ, suc, ◌+◌, ◌-◌, ◌*◌, ◌^◌, ◌%◌, Bool, true, false, ◌&&◌, String, List, [], ◌∷◌, ◌++◌, Option,
  none, some, ltb, length, if◌then◌else◌, map,
}
use monitoring_tool.Platform.{
  Platform, PodPhase, pod_pending, pod_running, pod_succeeded, pod_failed, pod_unknown,
}
use monitoring_tool.Models.{Alert, Stamp}
use monitoring_tool.Repository.{AlertRepo}
use monitoring_tool.Processor.StateManager.{Shared, process_all}
use monitoring_tool.Collector.Objects.{
  Pod, ContainerStatus, oom_killed, crash_looping, image_pull_failing, int32_gt, int32_add,
}
use monitoring_tool.Collector.Builder.{
  AlertType, pod_oom_killed, pod_crash_loop, pod_restart_threshold, pod_image_pull, build_pod_alert,
}
use monitoring_tool.Collector.Builder

-- Five minutes, in nanoseconds.
abbrev pub pending_timeout : ℕ
pending_timeout = 300000000000

abbrev pub phase_is_failed : PodPhase → Bool
phase_is_failed pod_failed = true
phase_is_failed _ = false

abbrev pub phase_is_unknown : PodPhase → Bool
phase_is_unknown pod_unknown = true
phase_is_unknown _ = false

abbrev pub phase_is_pending : PodPhase → Bool
phase_is_pending pod_pending = true
phase_is_pending _ = false

-- `time.Since(created) > timeout`. A time to come gives a negative duration, and 0 here.
abbrev pub pending_too_long : ℕ → Pod → Bool
pending_too_long now pod =
    phase_is_pending pod.phase && ltb pending_timeout (now - pod.creation_timestamp)

module _ (p : Platform) (stamps : ℕ → Stamp) where
  -- `if test { alerts = append(alerts, BuildPodAlert(pod, t, value)) }`; the n-th alert of the call
  -- gets the n-th stamp.
  unfoldable pub add_if :
      Bool → Pod → AlertType → p.Float → List (Alert p.Float p.Json) → List (Alert p.Float p.Json)
  add_if test pod t value alerts =
      if test then alerts ++ build_pod_alert p pod t value (stamps (length alerts)) ∷ [] else alerts

  -- The body of the loop over the containers.
  unfoldable pub check_container :
      Pod → ContainerStatus → List (Alert p.Float p.Json) → List (Alert p.Float p.Json)
  unfolding add_if
  check_container pod cs alerts =
      let after_oom =
        add_if (oom_killed cs) pod pod_oom_killed (p.of_int32 cs.restart_count) alerts in
      let after_crash =
        add_if (crash_looping cs) pod pod_crash_loop (p.of_int32 cs.restart_count) after_oom in
      add_if (image_pull_failing cs) pod pod_image_pull (p.of_int32 1) after_crash

  unfoldable pub check_containers :
      Pod → List ContainerStatus → ℕ → List (Alert p.Float p.Json) → ℕ × List (Alert p.Float p.Json)
  unfolding check_container
  check_containers pod [] total alerts = (total, alerts)
  check_containers pod (cs ∷ rest) total alerts =
      check_containers pod rest (int32_add total cs.restart_count) (check_container pod cs alerts)

  unfoldable pub evaluate_pod_conditions : ℕ → ℕ → Pod → List (Alert p.Float p.Json)
  evaluate_pod_conditions restart_threshold now pod =
      let failed = add_if (phase_is_failed pod.phase) pod Builder.pod_failed (p.of_int32 1) [] in
      let unknown =
        add_if (phase_is_unknown pod.phase) pod Builder.pod_unknown (p.of_int32 1) failed in
      let (total, containers) = check_containers pod pod.container_statuses 0 unknown in
      let restarts =
        add_if (int32_gt total restart_threshold) pod pod_restart_threshold (p.of_int32 total)
          containers in
      add_if (pending_too_long now pod) pod Builder.pod_pending (p.of_int32 1) restarts

  -- `processEvent`: each alert goes to the state manager at a time of its own.
  unfoldable pub process_event :
      {S O : Type 0}
      → AlertRepo p.Float p.Json S
      → Shared p.Float p.Json S O
      → ℕ
      → ℕ
      → (Alert p.Float p.Json → ℕ)
      → Pod
      → Shared p.Float p.Json S O
  unfolding evaluate_pod_conditions
  process_event repo sh restart_threshold now published_at pod =
      (process_all repo sh
        (map (λ a. (a, published_at a)) (evaluate_pod_conditions restart_threshold now pod))).0
