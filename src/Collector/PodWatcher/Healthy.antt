-- ===== src/Collector/PodWatcher/Healthy.antt =====
-- How many alerts a pod raises, and when it raises none.
use monitoring_tool.Prelude.{
  ℕ, ◌+◌, ◌^◌, ◌≤◌, ◌<◌, ◌≡◌, refl, ap, ◌↔◌, ◌≢◌, Bool, true, false, List, [], ◌∷◌, arith, ltb,
  length, length-append, nil_of_length, All, if◌then◌else◌,
}
use monitoring_tool.Platform.{Platform, pod_pending, pod_failed, pod_unknown}
use monitoring_tool.Models.{Alert, Stamp}
use monitoring_tool.Collector.Objects.{
  Pod, ContainerStatus, oom_killed, crash_looping, image_pull_failing, int32_gt, int32_add,
}
use monitoring_tool.Collector.Builder.{AlertType, build_pod_alert}
use monitoring_tool.Collector.Builder
use monitoring_tool.Collector.PodWatcher.{
  phase_is_failed, phase_is_unknown, pending_too_long, pending_timeout, add_if, check_container,
  check_containers, evaluate_pod_conditions,
}

abbrev pub total_restarts : List ContainerStatus → ℕ
total_restarts [] = 0
total_restarts (cs ∷ rest) = cs.restart_count + total_restarts rest

-- A pod in good order: the phase is neither failed nor unknown nor pending for too long, no
-- container was killed for memory, is in a crash loop or cannot pull its image, and the restart counts
-- of all containers together do not exceed the threshold. A count goes back to the start of the pod:
-- there is no window of time, unlike what the comment on the threshold in configs/config.yaml says.
pub record IsHealthy (threshold now : ℕ) (pod : Pod) : Type 0 where
  pub not_failed : pod.phase ≢ pod_failed
  pub not_unknown : pod.phase ≢ pod_unknown
  pub not_overdue : pod.phase ≡ pod_pending → now ≤ pod.creation_timestamp + pending_timeout
  pub containers :
      All
        (λ cs.
          (oom_killed cs ≡ false) × (crash_looping cs ≡ false) × (image_pull_failing cs ≡ false))
        pod.container_statuses
  pub few_restarts : total_restarts pod.container_statuses ≤ threshold

abbrev pub issues : ContainerStatus → ℕ
issues cs =
    (if oom_killed cs then 1 else 0)
    + (if crash_looping cs then 1 else 0)
    + (if image_pull_failing cs then 1 else 0)

abbrev pub all_issues : List ContainerStatus → ℕ
all_issues [] = 0
all_issues (cs ∷ rest) = issues cs + all_issues rest

module _ (p : Platform) (stamps : ℕ → Stamp) (pod : Pod) where
  -- The length tells how many alerts a stage has added.
  length-add_if :
      (test : Bool) (t : AlertType) (v : p.Float) (alerts : List (Alert p.Float p.Json))
      → length (add_if p stamps test pod t v alerts) ≡ length alerts + (if test then 1 else 0)
  unfolding add_if
  length-add_if true t v alerts = length-append alerts _
  length-add_if false t v alerts = omega arith

  length-check_container :
      (cs : ContainerStatus) (alerts : List (Alert p.Float p.Json))
      → length (check_container p stamps pod cs alerts) ≡ length alerts + issues cs
  length-check_container cs alerts = unfold check_container in grind (arith, length-add_if)

  check_containers_lem :
      (css : List ContainerStatus) (total : ℕ) (alerts : List (Alert p.Float p.Json))
      → total + total_restarts css < 2 ^ 31
      → ((check_containers p stamps pod css total alerts).0 ≡ total + total_restarts css)
        × (length (check_containers p stamps pod css total alerts).1
            ≡ length alerts + all_issues css)
  unfolding check_containers
  check_containers_lem [] total alerts h = (omega arith, omega arith)
  check_containers_lem (cs ∷ rest) total alerts h =
      let small : int32_add total cs.restart_count ≡ total + cs.restart_count = omega arith in
      let more = check_container p stamps pod cs alerts in
      let (sum, size) =
        check_containers_lem rest (int32_add total cs.restart_count) more (omega arith) in
      (omega arith, omega (arith, length-check_container cs alerts))

  -- While the restarts fit an int32, a pod raises exactly this many alerts: one for a failed phase,
  -- one for an unknown phase, one for each container and each of its three issues, one if all the
  -- restarts together exceed the threshold, and one if it has been pending for too long.
  pub length-evaluate_pod_conditions :
      (threshold now : ℕ)
      → total_restarts pod.container_statuses < 2 ^ 31
      → threshold < 2 ^ 31
      → length (evaluate_pod_conditions p stamps threshold now pod)
        ≡ (if phase_is_failed pod.phase then 1 else 0)
          + (if phase_is_unknown pod.phase then 1 else 0)
          + all_issues pod.container_statuses
          + (if ltb threshold (total_restarts pod.container_statuses) then 1 else 0)
          + (if pending_too_long now pod then 1 else 0)
  unfolding evaluate_pod_conditions
  length-evaluate_pod_conditions threshold now h k =
      let failed =
        add_if p stamps (phase_is_failed pod.phase) pod Builder.pod_failed (p.of_int32 1) [] in
      let unknown =
        add_if p stamps (phase_is_unknown pod.phase) pod Builder.pod_unknown (p.of_int32 1)
          failed in
      let (sum, size) = check_containers_lem pod.container_statuses 0 unknown (omega arith) in
      let (total, containers) = check_containers p stamps pod pod.container_statuses 0 unknown in
      let restarts =
        add_if p stamps (int32_gt total threshold) pod Builder.pod_restart_threshold
          (p.of_int32 total) containers in
      let over : int32_gt total threshold ≡ ltb threshold (total_restarts pod.container_statuses) =
        ground (arith, sum) in
      ground (
        arith,
        over,
        size,
        length-add_if (phase_is_failed pod.phase) Builder.pod_failed (p.of_int32 1) [],
        length-add_if (phase_is_unknown pod.phase) Builder.pod_unknown (p.of_int32 1) failed,
        length-add_if (int32_gt total threshold) Builder.pod_restart_threshold (p.of_int32 total)
            containers,
        length-add_if (pending_too_long now pod) Builder.pod_pending (p.of_int32 1) restarts,
      )

  no_issues :
      (css : List ContainerStatus)
      → All
          (λ cs.
            (oom_killed cs ≡ false) × (crash_looping cs ≡ false) × (image_pull_failing cs ≡ false))
          css
      → all_issues css ≡ 0
  no_issues [] h = refl
  no_issues (cs ∷ rest) h = ground (arith, no_issues rest h.1)

  issues_none :
      (css : List ContainerStatus)
      → all_issues css ≡ 0
      → All
          (λ cs.
            (oom_killed cs ≡ false) × (crash_looping cs ≡ false) × (image_pull_failing cs ≡ false))
          css
  issues_none [] h = tt
  issues_none (cs ∷ rest) h =
      ((ground arith, ground arith, ground arith), issues_none rest (omega arith))

  -- Where the restart counts of all containers together and the threshold are below 2 ^ 31, a pod raises
  -- no alert exactly when it is in good order: its phase is not failed, unknown or pending for longer
  -- than the timeout, no container was killed for memory, is in a crash loop or cannot pull its image,
  -- and the sum of the restart counts, each over the container's whole life, does not exceed the
  -- threshold.
  pub evaluate_nil_iff_IsHealthy :
      (threshold now : ℕ)
      → total_restarts pod.container_statuses < 2 ^ 31
      → threshold < 2 ^ 31
      → (evaluate_pod_conditions p stamps threshold now pod ≡ []) ↔ IsHealthy threshold now pod
  evaluate_nil_iff_IsHealthy threshold now h k = (
    λ e.
        let none_raised : length (evaluate_pod_conditions p stamps threshold now pod) ≡ 0 =
          ap length e in
        let count = length-evaluate_pod_conditions threshold now h k in
        record {
          not_failed = λ q. ground arith;
          not_unknown = λ q. ground arith;
          not_overdue = λ q. ground arith;
          containers = issues_none pod.container_statuses (ground arith);
          few_restarts = ground arith;
        },
    λ healthy. nil_of_length _ (
        ground (
          arith,
          length-evaluate_pod_conditions threshold now h k,
          no_issues pod.container_statuses healthy.containers,
        )),
  )
