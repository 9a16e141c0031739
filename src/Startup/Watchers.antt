-- ===== src/Startup/Watchers.antt =====
-- The global configuration of internal/config/config.go, and the watchers that cmd/monitoring-tool/init.go
-- makes with it: NewPodWatcher and NewMetricsWatcher of internal/collector read it by config.Get().
use monitoring_tool.Prelude.{
  ℕ, ◌+◌, ltb, ◌-◌, ◌%◌, ◌^◌, ◌<◌, ◌≡◌, Option, none, some, ℤ, pos, negsuc, arith,
}
use monitoring_tool.Results.{Result, ok, panics, ◌>>=◌}
use monitoring_tool.Config.{Config}
use monitoring_tool.Collector.MetricsWatcher.{Thresholds}
use monitoring_tool.Collector.MetricsLoop.{metrics_interval}
use monitoring_tool.Collector.Objects.{int32_gt}

-- `globalConfig`, nil at first.
pub record Globals (F : Type 0) : Type 0 where
  pub global_config : Option (Config F)

abbrev pub no_globals : {F : Type 0} → Globals F
no_globals = record { global_config = none }

abbrev pub get_config : {F : Type 0} → Globals F → Option (Config F)
get_config g = g.global_config

abbrev pub set_global_config : {F : Type 0} → Globals F → Config F → Globals F
set_global_config g cfg = record g { global_config = some cfg }

-- The conversion of an int to an int32, as its bit pattern.
abbrev pub int32_bits : ℤ → ℕ
int32_bits (pos n) = n % 2 ^ 32
int32_bits (negsuc n) = 2 ^ 32 - 1 - n % 2 ^ 32

-- What the watchers keep of the configuration: an int32, a duration and the thresholds in percent.
pub record Settings (F : Type 0) : Type 0 where
  pub restart_threshold : ℕ
  pub interval : ℕ
  pub thresholds : Thresholds F

module _ {F : Type 0} where
  -- `NewPodWatcher`: the pointer that `Get` gives is followed.
  abbrev pub new_pod_watcher : Option (Config F) → Result ℕ
  new_pod_watcher none = panics
  new_pod_watcher (some cfg) = ok (int32_bits cfg.alert_rules.pod_restart_threshold)

  -- `NewMetricsWatcher`
  abbrev pub new_metrics_watcher : Option (Config F) → Result (ℕ × Thresholds F)
  new_metrics_watcher none = panics
  new_metrics_watcher (some cfg) = ok (
    metrics_interval cfg.kubernetes.metrics_interval,
    record {
      pod_cpu = cfg.alert_rules.pod_cpu_percent;
      pod_memory = cfg.alert_rules.pod_memory_percent;
      node_cpu = cfg.alert_rules.node_cpu_percent;
      node_memory = cfg.alert_rules.node_memory_percent;
    },
  )

  -- `initK8sWatchers`; the node watcher reads no configuration.
  unfoldable pub init_k8s_watchers : Globals F → Result (Settings F)
  init_k8s_watchers g = do
    restarts ← new_pod_watcher (get_config g)
    checks ← new_metrics_watcher (get_config g)
    ok (record { restart_threshold = restarts; interval = checks.0; thresholds = checks.1 })

-- A restart threshold from 0 up to the largest int32 is kept by the conversion, so the test of a
-- pod's restarts is against the number in the configuration; 2 ^ 32 more than that is taken for the same threshold.
pub int32_bits-kept :
    (n restarts : ℕ)
    → n < 2 ^ 31
    → restarts < 2 ^ 31
    → (int32_bits (pos n) ≡ n)
      × (int32_bits (pos (n + 2 ^ 32)) ≡ n)
      × (int32_gt restarts (int32_bits (pos n)) ≡ ltb n restarts)
int32_bits-kept n restarts h r = (omega arith, omega arith, ground arith)
