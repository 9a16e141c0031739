-- ===== src/Storage.antt =====
-- internal/storage/postgres.go: the single connection of the process and its health check, over what
-- GORM and database/sql answer.
use monitoring_tool.Prelude.{ℕ, ◌≡◌, ◌⊎◌, String, ◌<>◌, Option, none, some, arith}
use monitoring_tool.Results.{Result, ok, err, panics}

-- The settings of `SetMaxOpenConns`, `SetMaxIdleConns` and `SetConnMaxLifetime`.
pub record PoolSettings : Type 0 where
  pub max_connections : ℕ
  pub max_idle_connections : ℕ
  pub connection_lifetime : ℕ

-- How the database answers; `H` is the identity of a handle.
pub record Backend (H : Type 0) : Type 0 where
  pub opens : String → Result H
  pub sql_db : H → Option String  -- db.DB(), and the error that it gives
  pub pings : H → PoolSettings → Option String

-- `MaxConnections`, `MaxIdleConnections` and `ConnectionLifetime` of internal/config.
abbrev pub pool_settings : PoolSettings
pool_settings = record {
  max_connections = 25;
  max_idle_connections = 5;
  connection_lifetime = 300000000000;
}

module _ {H : Type 0} (b : Backend H) where
  abbrev check_ping : H → Option String → Option H × Result H
  check_ping db none = (some db, ok db)
  check_ping db (some e) = (none, err ("failed to ping postgres: " <> e))

  abbrev check_handle : H → Option String → Option H × Result H
  check_handle db none = check_ping db (b.pings db pool_settings)
  check_handle db (some e) = (none, err ("failed to get database instance: " <> e))

  abbrev check_open : Result H → Option H × Result H
  check_open (ok db) = check_handle db (b.sql_db db)
  check_open (err e) = (none, err ("failed to connect to postgres: " <> e))
  check_open panics = (none, panics)

  -- `GetPostgresInstance`: the new `postgresInstance`, and the result.
  unfoldable pub get_postgres_instance : Option H → String → Option H × Result H
  get_postgres_instance (some db) dsn = (some db, ok db)
  get_postgres_instance none dsn = check_open (b.opens dsn)

  abbrev ping_error : Option String → Option String
  ping_error none = none
  ping_error (some e) = some ("database ping failed: " <> e)

  abbrev handle_error : H → Option String → Option String
  handle_error db none = ping_error (b.pings db pool_settings)
  handle_error db (some e) = some ("failed to get database instance: " <> e)

  -- `HealthCheck`: no error is health.
  unfoldable pub health_check : Option H → Option String
  health_check none = some "database instance is nil"
  health_check (some db) = handle_error db (b.sql_db db)

-- What one call with a backend does, and the next one, with the backend as it answers then.
abbrev pub Opening : {H : Type 0} → Backend H → Backend H → Option H → String → String → Type 0
Opening now later before dsn other =
    let (after, result) = get_postgres_instance now before dsn in
    ((db : _) × (before ≡ some db) × (after ≡ some db) × (result ≡ ok db))
    ⊎ ((db : _) × (before ≡ none)
        × (after ≡ some db)
        × (result ≡ ok db)
        × (now.opens dsn ≡ ok db)
        × (now.sql_db db ≡ none)
        × (now.pings db pool_settings ≡ none)
        × (health_check now after ≡ none)
        × (get_postgres_instance later after other ≡ (some db, ok db)))
    ⊎ ((before ≡ none) × (after ≡ none) × (((e : String) × (result ≡ err e)) ⊎ (result ≡ panics)))

-- One call of `GetPostgresInstance`, and the next one. A handle that is there is returned, and no
-- other is opened; without one, the call either opens a handle whose pool is set up and which then
-- answers a ping, keeps it, and the next call returns it whatever its data source name and whatever
-- the database answers by then, or it returns an error or panics and keeps none.
pub get_postgres_instance_lem :
    {H : Type 0} (now later : Backend H) (before : Option H) (dsn other : String)
    → Opening now later before dsn other
unfolding get_postgres_instance health_check
get_postgres_instance_lem now later before dsn other = ground arith
