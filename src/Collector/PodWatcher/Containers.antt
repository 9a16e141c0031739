-- ===== src/Collector/PodWatcher/Containers.antt =====
-- Which container an alert names.
use monitoring_tool.Prelude.{
  ℕ, ◌^◌, ◌≤◌, ◌<◌, ◌≡◌, refl, sym, ◌∙◌, ◌⊎◌, inl, inr, ◌≢◌, true, false, String, List, [], ◌∷◌,
  ◌++◌, arith, All, Bool-cases,
}
use monitoring_tool.Platform.{Platform}
use monitoring_tool.Collector.Objects.{
  Pod, ContainerStatus, oom_killed, int32_gt, set_label, get_label,
}
use monitoring_tool.Collector.Builder.{
  AlertType, pod_draft, get_oom_killed_container, highest_restart, get_highest_restart_container,
}
use monitoring_tool.Collector.Builder

get_oom-first :
    (front : List ContainerStatus) (c : ContainerStatus) (back : List ContainerStatus)
    → All (λ x. oom_killed x ≡ false) front
    → oom_killed c ≡ true
    → get_oom_killed_container (front ++ c ∷ back) ≡ c.name
unfolding get_oom_killed_container
get_oom-first [] c back f o = rw o
get_oom-first (x ∷ front) c back f o = rw f.0 (get_oom-first front c back f.1 o)

-- In a pod with two containers killed for memory, the alert that is raised for the second one, like
-- every alert of that kind for the pod, is labelled with the name of the first: the draft takes the
-- container from the pod and not from the loop.
pub oom_names_first :
    (p : Platform) (pod : Pod) (front : List ContainerStatus) (c : ContainerStatus)
    (middle : List ContainerStatus) (d : ContainerStatus) (back : List ContainerStatus)
    (value : p.Float)
    → pod.container_statuses ≡ front ++ c ∷ (middle ++ d ∷ back)
    → All (λ x. oom_killed x ≡ false) front
    → oom_killed c ≡ true
    → oom_killed d ≡ true
    → d.name ≢ c.name
    → (get_label "container" (pod_draft p pod Builder.pod_oom_killed value).labels ≡ c.name)
      × (get_label "container" (pod_draft p pod Builder.pod_oom_killed value).labels ≢ d.name)
unfolding pod_draft set_label get_label
oom_names_first p pod front c middle d back value e f oc od ne =
    let named : get_oom_killed_container pod.container_statuses ≡ c.name =
      rw e (get_oom-first front c (middle ++ d ∷ back) f oc) in
    (named, λ q. ne (sym q ∙ named))

-- One of the containers of a list.
abbrev pub Among : ContainerStatus → List ContainerStatus → Type 0
Among c [] = ⊥
Among c (x ∷ rest) = (c ≡ x) ⊎ Among c rest

-- The name of a container with more than `floor` restarts that none of the list exceeds, or the name
-- given when none has more than `floor`.
abbrev pub Highest : ℕ → String → List ContainerStatus → String → Type 0
Highest floor given css found =
    ((cs : ContainerStatus) × Among cs css
      × (found ≡ cs.name)
      × (floor < cs.restart_count)
      × All (λ x. x.restart_count ≤ cs.restart_count) css)
    ⊎ ((found ≡ given) × All (λ x. x.restart_count ≤ floor) css)

All-mono :
    (css : List ContainerStatus) (m n : ℕ)
    → m ≤ n
    → All (λ x. x.restart_count ≤ m) css
    → All (λ x. x.restart_count ≤ n) css
All-mono [] m n h a = tt
All-mono (x ∷ css) m n h a = (omega arith, All-mono css m n h a.1)

highest_restart_lem :
    (floor : ℕ) (given : String) (css : List ContainerStatus)
    → floor < 2 ^ 31
    → All (λ x. x.restart_count < 2 ^ 31) css
    → Highest floor given css (highest_restart floor given css)
unfolding highest_restart
highest_restart_lem floor given [] f small = inr (refl, tt)
highest_restart_lem floor given (x ∷ css) f small =
    elim (Bool-cases (int32_gt x.restart_count floor)) [
      | inl higher ↦
          rw higher (elim (highest_restart_lem x.restart_count x.name css small.0 small.1) [
            | inl (cs, among, named, more, most) ↦
                inl (cs, inr among, named, ground arith, (ground arith, most))
            | inr (named, most) ↦ inl (x, inl refl, named, ground arith, (omega arith, most))
          ])
      | inr lower ↦ rw lower (elim (highest_restart_lem floor given css f small.1) [
        | inl (cs, among, named, more, most) ↦
            inl (cs, inr among, named, more, (ground arith, most))
        | inr (named, most) ↦ inr (named, (ground arith, most))
      ])
    ]

-- The loop of `getHighestRestartContainer`, for restart counts that are not negative as an int32, names a
-- container that has restarted and that no container exceeds, or is "unknown" if none has restarted.
pub get_highest_restart_container_lem :
    (css : List ContainerStatus)
    → All (λ x. x.restart_count < 2 ^ 31) css
    → Highest 0 "unknown" css (get_highest_restart_container css)
unfolding get_highest_restart_container
get_highest_restart_container_lem css small =
    highest_restart_lem 0 "unknown" css (omega arith) small
