-- ===== src/Api.antt =====
-- internal/api/routes.go, internal/api/handlers and internal/health/routes.go: the routes and what
-- the handlers answer.
pub mod Answers
use monitoring_tool.Prelude.{
  ℕ, Bool, true, false, ◌||◌, String, str_eq, List, [], ◌∷◌, Option, none, some, length,
  if◌then◌else◌, ℤ, pos, is_non_pos,
}
use monitoring_tool.Results.{Result, ok, err, panics}
use monitoring_tool.Models.{Alert}
use monitoring_tool.Repository.{AlertRepo}
use monitoring_tool.Service.{
  SeverityCounts, get_recent_alerts, get_total_alerts_count, get_firing_alerts_count,
  get_severity_counts,
}
use monitoring_tool.Text.{atoi}
use monitoring_tool.Storage.{Backend, health_check}

pub data Body (F J : Type 0) : Type 0 where
  alerts_body : List (Alert F J) → ℕ → Body F J  -- "alerts", "count"
  count_body : ℕ → Body F J
  severities_body : SeverityCounts → Body F J
  error_body : String → Body F J
  health_body : String → Bool → ℕ → Body F J  -- "status", "database.postgres", "timestamp"
  info_body : String → String → String → Body F J  -- "name", "version", "status"

pub record Response (F J : Type 0) : Type 0 where
  pub code : ℕ
  pub content : Body F J

-- The GET routes that answer with JSON.
pub data Route : Type 0 where
  recent_route : Option String → Route  -- the query parameter "limit", if it is given
  count_route firing_count_route severity_counts_route health_route info_route : Route

-- The path of each route, as the two route files register it.
abbrev pub path : Route → String
path (recent_route limit) = "/api/alerts/recent"
path count_route = "/api/alerts/count"
path firing_count_route = "/api/alerts/active/count"
path severity_counts_route = "/api/alerts/severity/counts"
path health_route = "/health"
path info_route = "/api/info"

module _ {F J : Type 0} where
  -- `if err != nil { c.JSON(500, …); return }; c.JSON(200, …)`. A panic leaves the handler.
  abbrev pub respond {ℓ} : {A : Type ℓ} → (A → Body F J) → Result A → Result (Response F J)
  respond body (ok a) = ok (record { code = 200; content = body a })
  respond body (err e) = ok (record { code = 500; content = error_body e })
  respond body panics = panics

-- `c.DefaultQuery("limit", "50")`, `strconv.Atoi`, and 50 again for an error or a limit <= 0.
abbrev query_or : String → Option String → String
query_or default none = default
query_or default (some q) = q

abbrev valid_or_50 : Option ℤ → ℤ
valid_or_50 none = pos 50
valid_or_50 (some limit) = if is_non_pos limit then pos 50 else limit

unfoldable pub handler_limit : Option String → ℤ
handler_limit query = valid_or_50 (atoi (query_or "50" query))

module _ {F J S H : Type 0} (repo : AlertRepo F J S) (backend : Backend H) where
  abbrev health_response : ℕ → Option String → Response F J
  health_response now none = record { code = 200; content = health_body "healthy" true now }
  health_response now (some e) = record { code = 503; content = health_body "degraded" false now }

  -- The handler of each route, on the store, the database handle and the time.
  unfoldable pub serve : S → Option H → ℕ → Route → Result (Response F J)
  serve s db now (recent_route query) =
      respond (λ alerts. alerts_body alerts (length alerts))
        (get_recent_alerts repo s (handler_limit query))
  serve s db now count_route = respond count_body (get_total_alerts_count repo s)
  serve s db now firing_count_route = respond count_body (get_firing_alerts_count repo s)
  serve s db now severity_counts_route = respond severities_body (get_severity_counts repo s)
  serve s db now health_route = ok (health_response now (health_check backend db))
  serve s db now info_route =
      ok (record { code = 200; content = info_body "Monitoring Engine MVP" "1.0.0" "running" })
