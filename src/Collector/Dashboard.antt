-- ===== src/Collector/Dashboard.antt =====
-- What the watchers' events do to the numbers that the service shows.
use monitoring_tool.Prelude.{
  ℕ, ◌+◌, ◌≡◌, refl, Bool, ◌&&◌, not, List, [], ◌∷◌, arith, map, Bool-cases, count_by, All, inl,
  inr,
}
use monitoring_tool.Platform.{Platform}
use monitoring_tool.Models.{Alert, Stamp, firing, is_firing}
use monitoring_tool.Repository.{AlertRepo, RepoLaws, has_status}
use monitoring_tool.Results.{ok}
use monitoring_tool.Service.{SeverityCounts, get_severity_counts, get_firing_alerts_count}
use monitoring_tool.Service.Counts.{known_severity, counts_consistent}
use monitoring_tool.Processor.StateManager.{Shared, process_alert, process_all}
use monitoring_tool.Processor.Pipeline.{process_all_lem}
use monitoring_tool.Collector.Objects.{Pod, Node}
use monitoring_tool.Collector.Severities.{IsCounted, evaluate_pod_conditions-All}
use monitoring_tool.Collector.PodWatcher.{evaluate_pod_conditions}
use monitoring_tool.Collector.NodeWatcher.{evaluate_node_conditions}
use monitoring_tool.Collector.NodeWatcher.Raised.{evaluate_node_conditions_lem}
use monitoring_tool.Collector.PodWatcher
use monitoring_tool.Collector.NodeWatcher

-- A firing alert that none of the four severity counts counts.
abbrev pub uncounted : {F J : Type 0} → Alert F J → Bool
uncounted a = has_status firing a && not (known_severity a)

-- The numbers of a store after an event, against the alerts of the store before it: the severity
-- counts fall short of the firing count by exactly what they fell short of it before.
abbrev pub KeepsShortfall :
    {F J S : Type 0} → AlertRepo F J S → (S → List (Alert F J)) → S → S → Type 0
KeepsShortfall repo alerts before after =
    (c : SeverityCounts) × (firing_count : ℕ) × (get_severity_counts repo after ≡ ok c)
    × (get_firing_alerts_count repo after ≡ ok firing_count)
    × (c.critical + c.high + c.medium + c.low + count_by uncounted (alerts before) ≡ firing_count)

module _ {F J S O : Type 0} (repo : AlertRepo F J S) {alerts : S → List (Alert F J)}
    (laws : RepoLaws repo alerts) where
  process_all-counted :
      (sh : Shared F J S O) (batch : List (Alert F J × ℕ))
      → All (λ x. IsCounted x.0) batch
      → count_by (λ e. uncounted e.alert) (process_all repo sh batch).1 ≡ 0
  unfolding process_all is_firing
  process_all-counted sh [] h = refl
  process_all-counted sh ((a, now) ∷ rest) h =
      let ih = process_all-counted (process_alert repo sh a now).0 rest h.1 in
      elim (Bool-cases (process_alert repo sh a now).1) [
        | inl made ↦ rw made (ground (arith, ih))
        | inr not_made ↦ rw not_made ih
      ]

  process_all-KeepsShortfall :
      (sh : Shared F J S O) (batch : List (Alert F J × ℕ))
      → All (λ x. IsCounted x.0) batch
      → KeepsShortfall repo alerts sh.store (process_all repo sh batch).0.store
  process_all-KeepsShortfall sh batch h =
      let (c, firing_count, _, counts, fires, _, _, _, _, short) =
        counts_consistent repo laws (process_all repo sh batch).0.store in
      let (_, stored) = process_all_lem repo laws sh batch in
      (
        c,
        firing_count,
        counts,
        fires,
        omega (arith, short, stored uncounted, process_all-counted sh batch h),
      )

All-map :
    {A B : Type 0} (P : B → Type 0) (f : A → B) (xs : List A)
    → All (λ x. P (f x)) xs
    → All P (map f xs)
All-map P f [] h = tt
All-map P f (x ∷ xs) h = (h.0, All-map P f xs h.1)

module _ (p : Platform) (stamps : ℕ → Stamp) {S O : Type 0} (repo : AlertRepo p.Float p.Json S)
    {alerts : S → List (Alert p.Float p.Json)} (laws : RepoLaws repo alerts)
    (sh : Shared p.Float p.Json S O) (published_at : Alert p.Float p.Json → ℕ) where
  -- No event of a pod or of a node, whatever alerts it raises and whichever of them the store
  -- refuses, changes by how much the four severity counts fall short of the firing count.
  pub process_event-KeepsShortfall :
      (threshold now : ℕ) (pod : Pod) (node : Node)
      → KeepsShortfall repo alerts sh.store
          (PodWatcher.process_event p stamps repo sh threshold now published_at pod).store
        × KeepsShortfall repo alerts sh.store
            (NodeWatcher.process_event p stamps repo sh published_at node).store
  unfolding PodWatcher.process_event NodeWatcher.process_event
  process_event-KeepsShortfall threshold now pod node = (
    process_all-KeepsShortfall repo laws sh _ (
        All-map (λ x. IsCounted x.0) (λ a. (a, published_at a)) _
          (evaluate_pod_conditions-All p stamps pod threshold now)),
    process_all-KeepsShortfall repo laws sh _ (
        All-map (λ x. IsCounted x.0) (λ a. (a, published_at a)) _
          (evaluate_node_conditions_lem p stamps node).1),
  )
