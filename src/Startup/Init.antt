-- ===== src/Startup/Init.antt =====
-- `init` of cmd/monitoring-tool/main.go with the functions of init.go that it calls.
use monitoring_tool.Prelude.{ℤ, String, List, none, some, if◌then◌else◌}
use monitoring_tool.Results.{Result, ok, ◌>>=◌}
use monitoring_tool.Config.{Config, load}
use monitoring_tool.Logger.{LoggerState, init_logger}
use monitoring_tool.Storage.{Backend}
use monitoring_tool.Startup.Migrations.{Migrator, init_database}
use monitoring_tool.Startup.Dependencies.{Dependencies, new_dependencies}
use monitoring_tool.Collector.Client.{ClientGo, K8sClient, new_k8s_client, wrap}
use monitoring_tool.Startup.Watchers.{Settings, init_k8s_watchers, no_globals, set_global_config}
use monitoring_tool.Processor.Bus.{EventBus, new_event_bus, subscribe}
use monitoring_tool.Hub.Defs.{Hub, new_hub}
use monitoring_tool.Notifier.{EmailConfig, subscribes}
use monitoring_tool.App.System.{App, start}

-- The observers of the bus.
pub data Observer : Type 0 where
  hub_observer email_observer : Observer

-- What the process finds: its environment, the configuration file and its parser, and how the
-- database, the migrations and client-go answer.
pub record World (F D C K M : Type 0) : Type 0 where
  pub env : String → String
  pub file : Result String
  pub parse : String → Result (Config F)
  pub backend : Backend D
  pub migrator : Migrator
  pub client_go : ClientGo C K M

module _ {A : Type 0} where
  unfoldable pub init_email_dispatcher : EmailConfig → EventBus A Observer → EventBus A Observer
  init_email_dispatcher cfg bus = if subscribes cfg then subscribe bus email_observer else bus

  -- `initEventBus`, and the subscriptions of `initWebSocketHub` and `initEmailDispatcher`.
  abbrev pub subscribed_bus : EmailConfig → EventBus A Observer
  subscribed_bus cfg = init_email_dispatcher cfg (subscribe new_event_bus hub_observer)

-- The process as `main` finds it. The alert service is given by the handle of its store, and `M` are
-- the messages of the hub.
pub record Running (F D K M P N A W : Type 0) : Type 0 where
  pub logger : LoggerState
  pub lines : List String  -- what the migrations log
  pub deps : Dependencies D (K8sClient K M) D (EventBus A Observer) (Hub W)
  pub app : App P N A Observer
  pub settings : Settings F  -- of the watchers

module _ {F D C K M : Type 0} (of_int : ℤ → F) (w : World F D C K M) where
  abbrev pub config : Result (Config F)
  config = load of_int w.env w.file w.parse

  -- The global handle of internal/storage is nil before.
  abbrev pub database : Config F → Result (D × List String)
  database cfg = init_database w.backend w.migrator cfg.postgres none

module _ {F D C K M P N A W : Type 0} (of_int : ℤ → F) (w : World F D C K M) where
  abbrev pub running :
      Config F
      → D × List String
      → Settings F
      → Dependencies D (K8sClient K M) D (EventBus A Observer) (Hub W)
      → Running F D K M P N A W
  running cfg opened settings deps = record {
    logger = init_logger cfg.logging.level cfg.logging.format;
    lines = opened.1;
    deps = deps;
    app = start deps.event_bus settings.interval;
    settings = settings;
  }

  abbrev pub with_client :
      Config F → D × List String → K8sClient K M → Result (Running F D K M P N A W)
  with_client cfg opened client = do
    settings ← init_k8s_watchers (set_global_config no_globals cfg)
    deps ← wrap "Failed to create dependencies container: " (
        new_dependencies (some opened.0) (some client) (some opened.0)
          (some (subscribed_bus cfg.email)) (some new_hub))
    ok (running cfg opened settings deps)

  abbrev pub with_database : Config F → D × List String → Result (Running F D K M P N A W)
  with_database cfg opened = do
    client ← wrap "Failed to initialize K8s client: " (new_k8s_client w.client_go)
    with_client cfg opened client

  abbrev pub with_config : Config F → Result (Running F D K M P N A W)
  with_config cfg = do
    opened ← wrap "Failed to initialize PostgreSQL: " (database of_int w cfg)
    with_database cfg opened

  -- An error ends the process.
  unfoldable pub init : Result (Running F D K M P N A W)
  init = do cfg ← wrap "Failed to load config: " (config of_int w); with_config cfg
