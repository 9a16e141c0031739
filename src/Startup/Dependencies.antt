-- ===== src/Startup/Dependencies.antt =====
-- internal/app/dependencies.go. A nil pointer is `none`; `D`, `K`, `S`, `B` and `W` are the database,
-- the Kubernetes client, the alert service, the bus and the hub.
use monitoring_tool.Prelude.{Option, none, some}
use monitoring_tool.Results.{Result, ok, err}

pub record Dependencies (D K S B W : Type 0) : Type 0 where
  pub db : D
  pub k8s_client : K
  pub alert_service : S
  pub event_bus : B
  pub ws_hub : W

module _ {D K S B W : Type 0} where
  unfoldable pub new_dependencies :
      Option D → Option K → Option S → Option B → Option W → Result (Dependencies D K S B W)
  new_dependencies none _ _ _ _ = err "database is required"
  new_dependencies (some db) none _ _ _ = err "k8s client is required"
  new_dependencies (some db) (some kc) none _ _ = err "alert service is required"
  new_dependencies (some db) (some kc) (some service) none _ = err "event bus is required"
  new_dependencies (some db) (some kc) (some service) (some bus) none =
      err "websocket hub is required"
  new_dependencies (some db) (some kc) (some service) (some bus) (some hub) =
      ok (record {
        db = db;
        k8s_client = kc;
        alert_service = service;
        event_bus = bus;
        ws_hub = hub;
      })
