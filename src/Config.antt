-- ===== src/Config.antt =====
-- internal/config/config.go: the configuration from its file and the environment, and the texts made
-- of it. An environment is what os.Getenv gives for a key, the empty text where the key is missing.
pub mod Override
pub mod Loaded
pub mod Urls
use monitoring_tool.Prelude.{
  ℕ, Bool, String, ◌<>◌, str_eq, List, [], ◌∷◌, Option, none, some, ℤ, pos, ◌==◌, if◌then◌else◌,
}
use monitoring_tool.Results.{Result, ok, err, panics}
use monitoring_tool.Text.{show_ℤ}
use monitoring_tool.Text.Scan.{scan_int, lower_is_true, split_comma, replace_at}
use monitoring_tool.Notifier.{EmailConfig}
use monitoring_tool.Collector.Objects.{concat}

pub record ServerConfig : Type 0 where
  pub read_timeout : ℤ
  pub write_timeout : ℤ
  pub port : ℤ

pub record PostgresConfig : Type 0 where
  pub auto_migrate : Bool
  pub host : String
  pub port : ℤ
  pub user : String
  pub password : String
  pub database : String
  pub ssl_mode : String

pub record KubernetesConfig : Type 0 where
  pub in_cluster : Bool
  pub config_path : String
  pub metrics_interval : ℤ

pub record LoggingConfig : Type 0 where
  pub level : String
  pub format : String
  pub output : String

pub record AlertRulesConfig (F : Type 0) : Type 0 where
  pub pod_restart_threshold : ℤ
  pub pod_cpu_threshold : ℤ
  pub pod_memory_threshold : ℤ
  pub node_cpu_threshold : ℤ
  pub node_memory_threshold : ℤ
  pub metrics_check_interval : ℤ
  pub pod_cpu_percent : F
  pub pod_memory_percent : F
  pub node_cpu_percent : F
  pub node_memory_percent : F

pub record Config (F : Type 0) : Type 0 where
  pub server : ServerConfig
  pub postgres : PostgresConfig
  pub kubernetes : KubernetesConfig
  pub logging : LoggingConfig
  pub email : EmailConfig
  pub alert_rules : AlertRulesConfig F

module _ (env : String → String) where
  -- `if v := os.Getenv(key); v != "" { field = v }`
  unfoldable pub set_text : String → String → String
  set_text key old = if str_eq (env key) "" then old else env key

  abbrev scanned : Option ℤ → ℤ → ℤ
  scanned none old = old
  scanned (some z) old = z

  -- `fmt.Sscanf(v, "%d", &field)`, whose error is dropped.
  unfoldable pub set_int : String → ℤ → ℤ
  set_int key old = if str_eq (env key) "" then old else scanned (scan_int (env key)) old

  -- `field = strings.ToLower(v) == "true"`
  unfoldable pub set_bool : String → Bool → Bool
  set_bool key old = if str_eq (env key) "" then old else lower_is_true (env key)

  -- `field = strings.Split(v, ",")`
  unfoldable pub set_list : String → List String → List String
  set_list key old = if str_eq (env key) "" then old else split_comma (env key)

  abbrev pub override_server : ServerConfig → ServerConfig
  override_server c = record {
    read_timeout = set_int "SERVER_READ_TIMEOUT" c.read_timeout;
    write_timeout = set_int "SERVER_WRITE_TIMEOUT" c.write_timeout;
    port = set_int "SERVER_PORT" c.port;
  }

  abbrev pub override_postgres : PostgresConfig → PostgresConfig
  override_postgres c = record {
    auto_migrate = set_bool "POSTGRES_AUTO_MIGRATE" c.auto_migrate;
    host = set_text "POSTGRES_HOST" c.host;
    port = set_int "POSTGRES_PORT" c.port;
    user = set_text "POSTGRES_USER" c.user;
    password = set_text "POSTGRES_PASSWORD" c.password;
    database = set_text "POSTGRES_DB" c.database;
    ssl_mode = set_text "POSTGRES_SSLMODE" c.ssl_mode;
  }

  abbrev pub override_kubernetes : KubernetesConfig → KubernetesConfig
  override_kubernetes c = record {
    in_cluster = set_bool "K8S_IN_CLUSTER" c.in_cluster;
    config_path = set_text "KUBECONFIG" c.config_path;
    metrics_interval = set_int "K8S_METRICS_INTERVAL" c.metrics_interval;
  }

  abbrev pub override_logging : LoggingConfig → LoggingConfig
  override_logging c = record {
    level = set_text "LOG_LEVEL" c.level;
    format = set_text "LOG_FORMAT" c.format;
    output = set_text "LOG_OUTPUT" c.output;
  }

  abbrev pub override_email : EmailConfig → EmailConfig
  override_email c = record {
    enabled = set_bool "EMAIL_ENABLED" c.enabled;
    smtp_host = set_text "SMTP_HOST" c.smtp_host;
    smtp_port = set_int "SMTP_PORT" c.smtp_port;
    username = set_text "SMTP_USERNAME" c.username;
    password = set_text "SMTP_PASSWORD" c.password;
    from = set_text "SMTP_FROM" c.from;
    to = set_list "SMTP_TO" c.to;
  }

  abbrev pub override_alert_rules : {F : Type 0} → AlertRulesConfig F → AlertRulesConfig F
  override_alert_rules c = record c {
    pod_restart_threshold = set_int "ALERT_POD_RESTART_THRESHOLD" c.pod_restart_threshold;
    pod_cpu_threshold = set_int "ALERT_POD_CPU_THRESHOLD" c.pod_cpu_threshold;
    pod_memory_threshold = set_int "ALERT_POD_MEMORY_THRESHOLD" c.pod_memory_threshold;
    node_cpu_threshold = set_int "ALERT_NODE_CPU_THRESHOLD" c.node_cpu_threshold;
    node_memory_threshold = set_int "ALERT_NODE_MEMORY_THRESHOLD" c.node_memory_threshold;
    metrics_check_interval = set_int "ALERT_METRICS_CHECK_INTERVAL" c.metrics_check_interval;
  }

  abbrev pub override_from_env : {F : Type 0} → Config F → Config F
  override_from_env c = record {
    server = override_server c.server;
    postgres = override_postgres c.postgres;
    kubernetes = override_kubernetes c.kubernetes;
    logging = override_logging c.logging;
    email = override_email c.email;
    alert_rules = override_alert_rules c.alert_rules;
  }

-- `float64(n)` is `of_int`.
abbrev pub compute_percents : {F : Type 0} → (ℤ → F) → AlertRulesConfig F → AlertRulesConfig F
compute_percents of_int c = record c {
  pod_cpu_percent = of_int c.pod_cpu_threshold;
  pod_memory_percent = of_int c.pod_memory_threshold;
  node_cpu_percent = of_int c.node_cpu_threshold;
  node_memory_percent = of_int c.node_memory_threshold;
}

abbrev pub timeout_or_15 : ℤ → ℤ
timeout_or_15 (pos ℕ.zero) = pos 15
timeout_or_15 z = z

abbrev pub default_timeouts : ServerConfig → ServerConfig
default_timeouts c = record c {
  read_timeout = timeout_or_15 c.read_timeout;
  write_timeout = timeout_or_15 c.write_timeout;
}

module _ {F : Type 0} (of_int : ℤ → F) (env : String → String) where
  -- `Load` after the file has been parsed.
  abbrev pub finish : Config F → Config F
  finish c =
      let o = override_from_env env c in
      record o {
        alert_rules = compute_percents of_int o.alert_rules;
        server = default_timeouts o.server;
      }

  abbrev parsed : Result (Config F) → Result (Config F)
  parsed (ok c) = ok (finish c)
  parsed (err e) = err ("failed to parse config: " <> e)
  parsed panics = panics

  abbrev read : (String → Result (Config F)) → Result String → Result (Config F)
  read parse (ok text) = parsed (parse text)
  read parse (err e) = err ("failed to read config file: " <> e)
  read parse panics = panics

  -- `Load`: what os.ReadFile gives, and what yaml.Unmarshal makes of the text once its variables are
  -- expanded.
  unfoldable pub load : Result String → (String → Result (Config F)) → Result (Config F)
  unfolding set_text set_int set_bool set_list
  load file parse = read parse file

-- `ConnectionString`, which `GetDSN` returns.
unfoldable pub connection_string : PostgresConfig → String
connection_string c = concat (
    "host="
    ∷ c.host
    ∷ " port="
    ∷ show_ℤ c.port
    ∷ " user="
    ∷ c.user
    ∷ " password="
    ∷ c.password
    ∷ " dbname="
    ∷ c.database
    ∷ " sslmode="
    ∷ c.ssl_mode
    ∷ [])

-- `MigrationDatabaseURL`: every @ of the password is escaped.
unfoldable pub migration_database_url : PostgresConfig → String
migration_database_url c = concat (
    "postgres://"
    ∷ c.user
    ∷ ":"
    ∷ replace_at c.password
    ∷ "@"
    ∷ c.host
    ∷ ":"
    ∷ show_ℤ c.port
    ∷ "/"
    ∷ c.database
    ∷ "?sslmode="
    ∷ c.ssl_mode
    ∷ [])
