-- ===== src/Examples/Booted.antt =====
-- The whole program started at a concrete configuration, with a migration that fails.
use monitoring_tool.Prelude.{
  ℕ, ◌≡◌, refl, true, false, List, [], ◌∷◌, String, none, some, ℤ, pos, arith,
}
use monitoring_tool.Results.{ok, err}
use monitoring_tool.Config.{
  Config, PostgresConfig, load, finish, set_text, set_int, set_bool, set_list,
}
use monitoring_tool.Collector.Client.{K8sClient, new_k8s_client, get_kube_config, make_stop}
use monitoring_tool.Collector.MetricsLoop.{metrics_interval, metrics_interval_lem}
use monitoring_tool.Collector.MetricsLoop
use monitoring_tool.Collector.Watcher
use monitoring_tool.Pool.System as PoolSystem
use monitoring_tool.Pool.{new_worker_pool}
use monitoring_tool.Processor.Bus
use monitoring_tool.Processor.Bus.{new_event_bus, subscribe}
use monitoring_tool.App.System as AppStart
use monitoring_tool.App.Step.{step, Reach, next}
use monitoring_tool.App.System.{main_next, cancelling}
use monitoring_tool.Startup.Dependencies.{new_dependencies}
use monitoring_tool.Startup.Init.{running, init_email_dispatcher}
use monitoring_tool.Startup.Booting.{dependencies, settings_of}
use monitoring_tool.Prelude.{negsuc, ℤ}
use monitoring_tool.Startup.Watchers.{init_k8s_watchers}
use monitoring_tool.Collector.Metrics.{int64_pos}
use monitoring_tool.Startup.Migrations.{Migrator, up_failed, run_migrations, init_database}
use monitoring_tool.Startup.Init.{World, Observer, Running, init, config, database}
use monitoring_tool.Storage.{get_postgres_instance}
use monitoring_tool.Startup.Booting.{started_never_panics}
use monitoring_tool.App.System.{App, any_panicked}
use monitoring_tool.App.Step.{here}

abbrev dirty : Migrator
dirty = record { new_migrate = λ source url. none; up = some (up_failed "dirty") }

abbrev postgres : PostgresConfig
postgres = record {
  auto_migrate = true;
  host = "db";
  port = pos 5432;
  user = "tool";
  password = "pass";
  database = "alerts";
  ssl_mode = "disable";
}

abbrev in_file : Config ℤ
in_file = record {
  server = record { read_timeout = pos 0; write_timeout = pos 30; port = pos 80 };
  postgres = postgres;
  kubernetes = record { in_cluster = false; config_path = ""; metrics_interval = pos 60 };
  logging = record { level = "WARN"; format = "json"; output = "stdout" };
  email = record {
    enabled = true;
    smtp_host = "mail";
    smtp_port = pos 25;
    username = "user";
    password = "secret";
    from = "me";
    to = [];
  };
  alert_rules = record {
    pod_restart_threshold = pos 5;
    pod_cpu_threshold = pos 80;
    pod_memory_threshold = pos 80;
    node_cpu_threshold = pos 70;
    node_memory_threshold = pos 70;
    metrics_check_interval = pos 60;
    pod_cpu_percent = pos 0;
    pod_memory_percent = pos 0;
    node_cpu_percent = pos 0;
    node_memory_percent = pos 0;
  };
}

-- Outside a cluster; the database has the handle 3 and the two client sets are 4 and 5.
abbrev world : World ℤ ℕ String ℕ ℕ
world = record {
  env = λ key. "";
  file = ok "file";
  parse = λ text. ok in_file;
  backend = record { opens = λ dsn. ok 3; sql_db = λ db. none; pings = λ db settings. none };
  migrator = dirty;
  client_go = record {
    in_cluster_config = err "not in a cluster";
    kubeconfig = "";
    home_config = ok "/root/.kube/config";
    build_config_from_flags = λ path. ok path;
    new_for_config = λ c. ok 4;
    new_metrics_for_config = λ c. ok 5;
  };
}

abbrev same : ℤ → ℤ
same z = z

abbrev loaded : Config ℤ
loaded = finish same world.env in_file

abbrev opened : ℕ × List String
opened = (3, "Failed to run migrations automatically: failed to run migrations: dirty" ∷ [])

abbrev client : K8sClient ℕ ℕ
client = record { clientset = 4; metrics_clientset = 5; stop_ch = make_stop }

has_loaded : config same world ≡ ok loaded
unfolding load
has_loaded = refl

has_opened : database same world loaded ≡ ok opened
unfolding load set_text set_int set_bool set_list init_database run_migrations get_postgres_instance
has_opened = refl

has_client : new_k8s_client world.client_go ≡ ok client
unfolding new_k8s_client get_kube_config
has_client = refl

abbrev Started : Type 0
Started = Running ℤ ℕ ℕ ℕ ℕ ℕ ℕ ℕ

abbrev reached : Started
reached = running same world loaded opened (settings_of loaded) (dependencies loaded opened client)

initialized : init same world ≡ ok reached
unfolding init new_dependencies init_k8s_watchers
initialized = rw has_loaded (rw has_opened (rw has_client refl))

abbrev signalled : App ℕ ℕ ℕ Observer
signalled = record reached.app { main = cancelling }

signal_comes : Reach reached.app signalled
unfolding step AppStart.start PoolSystem.start new_worker_pool Watcher.start MetricsLoop.start
    metrics_interval Bus.start new_event_bus subscribe init_email_dispatcher load set_text set_int
    set_bool set_list
signal_comes = next main_next here refl

started_never_panics_example : any_panicked signalled ≡ false
unfolding set_int
started_never_panics_example =
    started_never_panics same world loaded 60 initialized has_loaded refl (omega arith) signal_comes

metrics_interval_lem_example :
    (int64_pos (metrics_interval (pos 30)) ≡ true)
    × (metrics_interval (pos 0) ≡ 60000000000)
    × ((MetricsLoop.start (metrics_interval (negsuc 30))).panicked ≡ true)
metrics_interval_lem_example = metrics_interval_lem 30 (omega arith)
