-- ===== src/Service.antt =====
-- internal/service/alert_service.go, over any alert store.
pub mod Counts
use monitoring_tool.Prelude.{
  ℕ, Bool, ◌||◌, String, List, Option, ℤ, pos, is_non_pos, exceeds, if◌then◌else◌,
}
use monitoring_tool.Results.{Result, ok, ◌>>=◌}
use monitoring_tool.Models.{
  Alert, firing, severity_critical, severity_high, severity_medium, severity_low,
}
use monitoring_tool.Repository.{AlertRepo}

pub record SeverityCounts : Type 0 where
  pub critical : ℕ
  pub high : ℕ
  pub medium : ℕ
  pub low : ℕ

-- `limit <= 0 || limit > 1000` becomes 100.
abbrev pub default_limit : ℤ → ℤ
default_limit limit = if is_non_pos limit || exceeds limit 1000 then pos 100 else limit

module _ {F J S : Type 0} (repo : AlertRepo F J S) where
  abbrev pub create_alert : S → Alert F J → S × Option String
  create_alert s a = repo.create s a

  unfoldable pub get_recent_alerts : S → ℤ → Result (List (Alert F J))
  get_recent_alerts s limit = repo.get_recent s (default_limit limit)

  unfoldable pub get_total_alerts_count : S → Result ℕ
  get_total_alerts_count s = repo.count s

  unfoldable pub get_firing_alerts_count : S → Result ℕ
  get_firing_alerts_count s = repo.count_by_status s firing

  -- The first count that fails ends the call.
  unfoldable pub get_severity_counts : S → Result SeverityCounts
  get_severity_counts s = do
    critical ← repo.count_by_severity s "critical"
    high ← repo.count_by_severity s "high"
    medium ← repo.count_by_severity s "medium"
    low ← repo.count_by_severity s "low"
    ok (record { critical = critical; high = high; medium = medium; low = low })
