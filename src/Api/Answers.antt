-- ===== src/Api/Answers.antt =====
-- The limit of a request, from its text to the store, and the answers of every route.
use monitoring_tool.Prelude.{
  ℕ, ◌+◌, ◌≤◌, ◌≡◌, refl, ap, ◌∙◌, inl, inr, Bool, ◌||◌, String, List, Option, none, some, arith,
  length, count_by, if◌then◌else◌, ℤ, pos, negsuc, is_non_pos, exceeds, Bool-cases,
}
use monitoring_tool.Results.{ok}
use monitoring_tool.Models.{Alert, firing}
use monitoring_tool.Repository.{AlertRepo, RepoLaws, has_status}
use monitoring_tool.Service.{
  default_limit, get_recent_alerts, get_total_alerts_count, get_firing_alerts_count, SeverityCounts,
}
use monitoring_tool.Service.Counts.{known-le-firing, counts_consistent}
use monitoring_tool.Text.{atoi, show_ℤ}
use monitoring_tool.Text.Decimal.{FitsInt, atoi-show_ℤ}
use monitoring_tool.Storage.{Backend}
use monitoring_tool.Api.{
  alerts_body, count_body, severities_body, recent_route, count_route, firing_count_route,
  severity_counts_route, respond, handler_limit, serve,
}

-- What the store is asked for.
abbrev pub store_limit : Option String → ℤ
store_limit query = default_limit (handler_limit query)

default_limit_bounds : (z : ℤ) → (n : ℕ) × (default_limit z ≡ pos n) × (1 ≤ n) × (n ≤ 1000)
default_limit_bounds (negsuc k) = (100, refl, omega arith, omega arith)
default_limit_bounds (pos k) = elim (Bool-cases (is_non_pos (pos k) || exceeds (pos k) 1000)) [
  | inl out ↦ (100, rw out refl, omega arith, omega arith)
  | inr inside ↦ (k, rw inside refl, ground arith, ground arith)
]

-- Whatever a client writes for the limit, the store is asked for between 1 and 1000 alerts.
pub store_limit_bounds :
    (query : Option String) → (n : ℕ) × (store_limit query ≡ pos n) × (1 ≤ n) × (n ≤ 1000)
store_limit_bounds query = default_limit_bounds (handler_limit query)

-- A limit printed in decimal that fits an int reaches the store unchanged from 1 to 1000; above 1000
-- it becomes 100, and at 0 or below it becomes 50, as does a limit that is missing.
pub store_limit_printed :
    (z : ℤ)
    → FitsInt z
    → (store_limit (some (show_ℤ z))
        ≡ (if is_non_pos z then pos 50 else if exceeds z 1000 then pos 100 else z))
      × (store_limit none ≡ pos 50)
unfolding handler_limit
store_limit_printed z fits = (rw (atoi-show_ℤ z fits) (clamp z), unfold atoi in refl)
  where
    clamp :
        (y : ℤ)
        → default_limit (if is_non_pos y then pos 50 else y)
          ≡ (if is_non_pos y then pos 50 else if exceeds y 1000 then pos 100 else y)
    clamp (negsuc k) = refl
    clamp (pos k) = ground arith

module _ {F J S H : Type 0} (repo : AlertRepo F J S) {alerts : S → List (Alert F J)}
    (laws : RepoLaws repo alerts) (backend : Backend H) where
  abbrev pub RouteAnswers : S → Option H → ℕ → Option String → Type 0
  RouteAnswers s db now query =
      ((found : List (Alert F J)) × (n : ℕ) × (store_limit query ≡ pos n)
        × (n ≤ 1000)
        × (serve repo backend s db now (recent_route query)
            ≡ ok (record { code = 200; content = alerts_body found (length found) }))
        × (length found ≤ n)
        × ((p : Alert F J → Bool) → count_by p found ≤ count_by p (alerts s)))
      × (serve repo backend s db now count_route
          ≡ ok (record { code = 200; content = count_body (length (alerts s)) }))
      × (serve repo backend s db now firing_count_route
          ≡ ok (record {
            code = 200;
            content = count_body (count_by (has_status firing) (alerts s));
          }))
      × ((c : SeverityCounts) × (serve repo backend s db now severity_counts_route
            ≡ ok (record { code = 200; content = severities_body c }))
          × (c.critical + c.high + c.medium + c.low ≤ count_by (has_status firing) (alerts s)))

  -- While the store answers, every alert route answers 200: the recent route with a list of at most
  -- the effective limit, all of it from the store, and its true length; the total and the firing
  -- count with the numbers of alerts in the store; and the four severity counts add up to no more
  -- than the firing count.
  pub serve_lem :
      (s : S) (db : Option H) (now : ℕ) (query : Option String) → RouteAnswers s db now query
  unfolding serve get_recent_alerts get_total_alerts_count get_firing_alerts_count
  serve_lem s db now query =
      let (n, asked, low, high) = store_limit_bounds query in
      let (found, answer, size, held, _) = laws.recent s n low in
      let (c, _, _, counted, _, _, sum, _, _, _) = counts_consistent repo laws s in
      (
        (
          found,
          n,
          asked,
          high,
          ap (respond (λ as'. alerts_body as' (length as')))
              (ap (repo.get_recent s) asked ∙ answer),
          size,
          held,
        ),
        rw (laws.counts s) refl,
        rw (laws.counts_status s firing) refl,
        (c, rw counted refl, omega (arith, sum, known-le-firing (alerts s))),
      )
