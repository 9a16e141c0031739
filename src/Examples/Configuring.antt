-- ===== src/Examples/Configuring.antt =====
-- The configuration at a concrete file and environment.
use monitoring_tool.Prelude.{refl, false, String, [], ℤ, pos, str_eq, arith, if◌then◌else◌}
use monitoring_tool.Results.{ok}
use monitoring_tool.Text.{show_ℤ}
use monitoring_tool.Config.{Config, PostgresConfig}
use monitoring_tool.Config.Loaded.{Loading, load_lem}

abbrev environment : String → String
environment key =
    if str_eq key "SERVER_PORT"
    then "8080"
    else if str_eq key "ALERT_NODE_CPU_THRESHOLD"
    then "85"
    else if str_eq key "EMAIL_ENABLED"
    then "TRUE"
    else if str_eq key "SMTP_TO"
    then "ops@a,dev@b"
    else ""

abbrev database : PostgresConfig
database = record {
  auto_migrate = false;
  host = "db";
  port = pos 5432;
  user = "tool";
  password = "p@ss@";
  database = "alerts";
  ssl_mode = "disable";
}

abbrev in_file : Config ℤ
in_file = record {
  server = record { read_timeout = pos 0; write_timeout = pos 30; port = pos 80 };
  postgres = database;
  kubernetes = record { in_cluster = false; config_path = ""; metrics_interval = pos 60 };
  logging = record { level = "info"; format = "json"; output = "stdout" };
  email = record {
    enabled = false;
    smtp_host = "mail";
    smtp_port = pos 25;
    username = "user";
    password = "secret";
    from = "me";
    to = [];
  };
  alert_rules = record {
    pod_restart_threshold = pos 5;
    pod_cpu_threshold = pos 80;
    pod_memory_threshold = pos 80;
    node_cpu_threshold = pos 70;
    node_memory_threshold = pos 70;
    metrics_check_interval = pos 60;
    pod_cpu_percent = pos 0;
    pod_memory_percent = pos 0;
    node_cpu_percent = pos 0;
    node_memory_percent = pos 0;
  };
}

load_lem_example : Loading (λ z. z) environment (pos 8080) (pos 85) (ok "file") (λ text. ok in_file)
unfolding show_ℤ
load_lem_example =
    load_lem (λ z. z) environment (pos 8080) (pos 85) (ok "file") (λ text. ok in_file) refl
      (omega arith) refl (omega arith)
