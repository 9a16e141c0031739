-- ===== src/Service/Counts.antt =====
-- How the counts of the service fit together.
use monitoring_tool.Prelude.{
  ℕ, ◌+◌, ◌≤◌, ◌≡◌, refl, Bool, ◌&&◌, not, ◌||◌, str_eq, str_eq-ne, List, [], ◌∷◌, arith, length,
  count_by, count_by-le-length, if◌then◌else◌,
}
use monitoring_tool.Results.{ok}
use monitoring_tool.Models.{Alert, firing}
use monitoring_tool.Repository.{AlertRepo, RepoLaws, has_status, fires_with}
use monitoring_tool.Service.{
  SeverityCounts, get_total_alerts_count, get_firing_alerts_count, get_severity_counts,
}

module _ {F J : Type 0} where
  abbrev pub known_severity : Alert F J → Bool
  known_severity a =
      str_eq a.severity "critical"
      || str_eq a.severity "high"
      || str_eq a.severity "medium"
      || str_eq a.severity "low"

  -- An alert is counted under one severity at most.
  disjoint :
      (a : Alert F J)
      → (if fires_with "critical" a then 1 else 0)
          + (if fires_with "high" a then 1 else 0)
          + (if fires_with "medium" a then 1 else 0)
          + (if fires_with "low" a then 1 else 0)
        ≡ (if has_status firing a && known_severity a then 1 else 0)
  disjoint a = ground (
    arith,
    str_eq-ne a.severity "critical" "high" refl,
    str_eq-ne a.severity "critical" "medium" refl,
    str_eq-ne a.severity "critical" "low" refl,
    str_eq-ne a.severity "high" "medium" refl,
    str_eq-ne a.severity "high" "low" refl,
    str_eq-ne a.severity "medium" "low" refl,
  )

  severity_sum :
      (xs : List (Alert F J))
      → count_by (fires_with "critical") xs
          + count_by (fires_with "high") xs
          + count_by (fires_with "medium") xs
          + count_by (fires_with "low") xs
        ≡ count_by (λ a. has_status firing a && known_severity a) xs
  severity_sum [] = refl
  severity_sum (a ∷ xs) = omega (arith, severity_sum xs, disjoint a)

  pub known-le-firing :
      (xs : List (Alert F J))
      → count_by (λ a. has_status firing a && known_severity a) xs ≤ count_by (has_status firing) xs
  known-le-firing [] = omega arith
  known-le-firing (a ∷ xs) = ground (arith, known-le-firing xs)

  split_by_known :
      (xs : List (Alert F J))
      → count_by (λ a. has_status firing a && known_severity a) xs
          + count_by (λ a. has_status firing a && not (known_severity a)) xs
        ≡ count_by (has_status firing) xs
  split_by_known [] = refl
  split_by_known (a ∷ xs) = ground (arith, split_by_known xs)

module _ {F J S : Type 0} (repo : AlertRepo F J S) {alerts : S → List (Alert F J)}
    (laws : RepoLaws repo alerts) where
  abbrev pub CountsFit : S → Type 0
  CountsFit s =
      (c : SeverityCounts) × (firing_count : ℕ) × (total : ℕ) × (get_severity_counts repo s ≡ ok c)
      × (get_firing_alerts_count repo s ≡ ok firing_count)
      × (get_total_alerts_count repo s ≡ ok total)
      × (c.critical + c.high + c.medium + c.low
          ≡ count_by (λ a. has_status firing a && known_severity a) (alerts s))
      × (c.critical + c.high + c.medium + c.low ≤ firing_count)
      × (firing_count ≤ total)
      × (c.critical
            + c.high
            + c.medium
            + c.low
            + count_by (λ a. has_status firing a && not (known_severity a)) (alerts s)
          ≡ firing_count)

  -- The dashboard's numbers on one store state: all three calls succeed; the four severity counts
  -- add up to the firing alerts whose severity is one of the four; so to no more than the firing
  -- count, which is no more than the total; what is missing from the firing count is the number of
  -- firing alerts of any other severity.
  pub counts_consistent : (s : S) → CountsFit s
  unfolding get_severity_counts get_firing_alerts_count get_total_alerts_count
  counts_consistent s = (
    record {
      critical = count_by (fires_with "critical") (alerts s);
      high = count_by (fires_with "high") (alerts s);
      medium = count_by (fires_with "medium") (alerts s);
      low = count_by (fires_with "low") (alerts s);
    },
    count_by (has_status firing) (alerts s),
    length (alerts s),
    rw (
      laws.counts_severity s "critical",
      laws.counts_severity s "high",
      laws.counts_severity s "medium",
      laws.counts_severity s "low",
    ),
    laws.counts_status s firing,
    laws.counts s,
    severity_sum (alerts s),
    omega (arith, severity_sum (alerts s), known-le-firing (alerts s)),
    count_by-le-length (has_status firing) (alerts s),
    omega (arith, severity_sum (alerts s), split_by_known (alerts s)),
  )
