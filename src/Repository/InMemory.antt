-- ===== src/Repository/InMemory.antt =====
-- `InMemoryAlertRepo`. The mutex makes each call atomic; the state is the slice.
use monitoring_tool.Prelude.{
  ℕ, zero, suc, ◌+◌, ◌-◌, ◌≤◌, ◌≡◌, refl, Bool, String, List, [], ◌∷◌, ◌++◌, Option, none, arith, ℤ,
  pos, negsuc, length, length-append, drop, length-drop, drop-append, count_by, count_by-append,
  if◌then◌else◌, ltb, append-nil, append-cons, sym, ◌∙◌,
}
use native.Mathlib.Nat.{zero-add}
use monitoring_tool.Results.{Result, ok, panics}
use monitoring_tool.Models.{Alert, AlertStatus}
use monitoring_tool.Repository.{AlertRepo, RepoLaws, has_status, fires_with}

-- `start := len - limit`, and 0 where that is negative.
abbrev pub recent_start : ℕ → ℤ → ℕ
recent_start n (pos limit) = n - limit
recent_start n (negsuc k) = n + suc k

module _ {F J : Type 0} where
  abbrev pub create : List (Alert F J) → Alert F J → List (Alert F J) × Option String
  create alerts a = (alerts ++ a ∷ [], none)

  -- `alerts[start:]` panics where the start is past the end.
  abbrev pub slice_from : List (Alert F J) → ℕ → Result (List (Alert F J))
  slice_from alerts start = if ltb (length alerts) start then panics else ok (drop start alerts)

  unfoldable pub get_recent : List (Alert F J) → ℤ → Result (List (Alert F J))
  get_recent alerts limit = slice_from alerts (recent_start (length alerts) limit)

  -- The loops of the two counts: one more for each alert that passes.
  pub count_loop : (Alert F J → Bool) → ℕ → List (Alert F J) → ℕ
  count_loop passes n [] = n
  count_loop passes n (a ∷ rest) = count_loop passes (if passes a then n + 1 else n) rest

  unfoldable pub count_by_status : List (Alert F J) → AlertStatus → Result ℕ
  unfolding count_loop
  count_by_status alerts status = ok (count_loop (has_status status) 0 alerts)

  unfoldable pub count_by_severity : List (Alert F J) → String → Result ℕ
  unfolding count_loop
  count_by_severity alerts severity = ok (count_loop (fires_with severity) 0 alerts)

  abbrev pub in_memory : AlertRepo F J (List (Alert F J))
  in_memory = record {
    create = create;
    get_recent = get_recent;
    count = λ alerts. ok (length alerts);
    count_by_status = count_by_status;
    count_by_severity = count_by_severity;
  }

  count_loop-eq :
      (passes : Alert F J → Bool) (n : ℕ) (alerts : List (Alert F J))
      → count_loop passes n alerts ≡ n + count_by passes alerts
  unfolding count_loop
  count_loop-eq passes n [] = omega arith
  count_loop-eq passes n (a ∷ rest) =
      ground (arith, count_loop-eq passes (n + 1) rest, count_loop-eq passes n rest)

  count_by-drop :
      (p : Alert F J → Bool) (n : ℕ) (alerts : List (Alert F J))
      → count_by p (drop n alerts) ≤ count_by p alerts
  count_by-drop p zero alerts = omega arith
  count_by-drop p (suc n) [] = omega arith
  count_by-drop p (suc n) (a ∷ rest) = ground (arith, count_by-drop p n rest)

  get_recent-pos :
      (alerts : List (Alert F J)) (limit : ℕ)
      → get_recent alerts (pos limit) ≡ ok (drop (length alerts - limit) alerts)
  unfolding get_recent
  get_recent-pos alerts limit = ground arith

  get_recent-neg : (alerts : List (Alert F J)) (k : ℕ) → get_recent alerts (negsuc k) ≡ panics
  unfolding get_recent
  get_recent-neg alerts k = ground arith

  -- The in-memory store keeps every promise of an alert store.
  pub in_memory-RepoLaws : RepoLaws in_memory (λ alerts. alerts)
  unfolding count_by_status count_by_severity
  in_memory-RepoLaws = record {
    created = λ s a t e p. ground (arith, count_by-append p s (a ∷ []));
    refused = λ s a t e h. cc;
    counts = λ s. refl;
    counts_status =
        λ s st. cc (count_loop-eq (has_status st) 0 s, zero-add (count_by (has_status st) s));
    counts_severity =
        λ s sev. cc (count_loop-eq (fires_with sev) 0 s, zero-add (count_by (fires_with sev) s));
    recent = λ s limit h. (
      drop (length s - limit) s,
      get_recent-pos s limit,
      omega (arith, length-drop (length s - limit) s),
      λ p. count_by-drop p (length s - limit) s,
      λ fits. omega (arith, length-drop (length s - limit) s),
    );
  }

  -- A run of `Create`.
  unfoldable pub creates : List (Alert F J) → List (Alert F J) → List (Alert F J)
  creates s [] = s
  creates s (a ∷ more) = creates (create s a).0 more

  creates-append : (s more : List (Alert F J)) → creates s more ≡ s ++ more
  unfolding creates
  creates-append s [] = sym (append-nil s)
  creates-append s (a ∷ more) = creates-append (s ++ a ∷ []) more ∙ append-cons s a more

  -- `GetRecent` after any run of `Create` gives the last `limit` created alerts, the oldest of them
  -- first; a negative limit panics, whatever is stored.
  pub get_recent_lem :
      (old new : List (Alert F J)) (k : ℕ)
      → (get_recent (creates [] (old ++ new)) (pos (length new)) ≡ ok new)
        × (get_recent (creates [] (old ++ new)) (negsuc k) ≡ panics)
  get_recent_lem old new k = rw creates-append (
    ground (
      arith,
      get_recent-pos (old ++ new) (length new),
      length-append old new,
      drop-append old new,
      (let e : length old + length new - length new ≡ length old = omega arith in e),
    ),
    get_recent-neg (old ++ new) k,
  )
