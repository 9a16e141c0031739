-- ===== src/Lib.antt =====
-- The monitoring tool watches the pods, nodes and metrics of a Kubernetes cluster, builds alerts from
-- what it sees, stores them, and shows them to a browser and to an email address.
--
-- How the parts interact. A watcher (internal/collector) turns an event into a task and submits it to
-- the worker pool (internal/pool). The task evaluates the pod, node or metrics, builds alerts
-- (alert_builder.go over internal/models) and gives each to the state manager (internal/processor),
-- which stores it (internal/repository) and publishes an event on the bus. The bus notifies its
-- observers: the WebSocket hub (internal/websocket) and the email dispatcher (internal/notifier). The
-- HTTP API (internal/api) reads the store through the alert service (internal/service).
--
-- Which file models which part, with paths from the root of the repository:
--   Prelude, Results     shared names, lists, Go's int as ℤ over the native ℕ, and the answer of a call
--                        that may fail or panic
--   Channel              Go's buffered channel: a send in a `select` with a `default`, receive, close
--   Pool                 internal/pool/worker_pool.go; Pool/System is the running pool: workers,
--                        callers of Submit (its check and its send apart) and of Stop, as actions
--   Hub                  internal/websocket/hub.go; Hub/Defs is the hub with the goroutine of Run as a
--                        system, Hub/Session what a connection's loops make of a sequence of reads,
--                        the origin check and OnAlert; Hub/Sessions is that hub with the connections
--                        of ServeWS around it: for each the handler, the reader, the pinger and the
--                        mutex of its writes, and Upgrade is internal/api/handlers/websocket.go
--   Platform             floats, JSON and Kubernetes' texts, as parameters
--   Models               internal/models/alert.go and the severities of internal/collector/constants.go
--   Repository           internal/repository/alert.go: the interface with what its clients rely on,
--                        InMemory and Postgres its two implementations
--   Processor            Bus is internal/processor/event_bus.go, StateManager is state_manager.go and
--                        evaluator.go of the same directory; Delivery and Pipeline are about them
--   Service              internal/service/alert_service.go
--   Text                 strconv.Atoi and the %d of fmt; Text/Scan is fmt.Sscanf and what the
--                        configuration uses of package strings
--   Config               internal/config/config.go
--   Collector            of internal/collector: Builder and MetricBuilder are alert_builder.go,
--                        PodWatcher is pod_collector.go, NodeWatcher is node_collector.go with a table
--                        of its alerts in NodeWatcher/Rules, Watcher is the goroutines of both as a
--                        system, Metrics is metrics_client.go, MetricsWatcher is metrics_collector.go
--                        and MetricsLoop its goroutine, and Client is k8s_client.go; Objects is what
--                        they read
--   Storage              internal/storage/postgres.go
--   Notifier             internal/notifier/email.go, and its subscription in
--                        cmd/monitoring-tool/init.go
--   Logger               the levels of internal/logger/logger.go, and its formatters in Console
--   App                  the process that `shutdown` stops: App/System and App/Step are
--                        cmd/monitoring-tool/main.go with the three watchers, the pool of
--                        internal/processor/evaluator.go, the bus, the Kubernetes client's Stop and
--                        `shutdown` as one system, without the hub, the HTTP server and what the
--                        observers do; Invariant up to Shutdown are what holds of it, and
--                        Answering up to Ending how `shutdown` comes to its end
--   Tasks                the process of App with the content of its tasks: processEvent of
--                        pod_collector.go and node_collector.go and the checks of
--                        metrics_collector.go (Evaluate), alert by alert through the two halves of
--                        ProcessAlert of state_manager.go (System). Untouched, Others and
--                        Statements are what the other goroutines and a task do; Flow, Following and
--                        Accounting follow the alerts; Alone and Effect run one task to its end
--   Stream               the bus of internal/processor/event_bus.go with the hub as its observer: the
--                        goroutines of notifyObservers that run OnAlert
--   Startup              of cmd/monitoring-tool: Migrations and Init are init.go and `init` of main.go,
--                        Watchers is the global configuration as initK8sWatchers reads it,
--                        and Server is setupHTTPServer; Dependencies is internal/app/dependencies.go
--   Api                  internal/api/handlers/alert.go and health.go, and the two routes.go
--   Examples             the theorems at concrete inputs
--
-- How state and operations correspond. An operation of an object under a mutex is a function from the
-- object's record to the new one and the result. Where goroutines share an object, the object, the
-- position of each goroutine and a record of what has happened are one System; each statement that
-- another goroutine may come between is one Action; `step` says when it is enabled and what it does;
-- and Reach is any sequence of enabled actions, so every interleaving. A panic in a system is a flag
-- after which nothing happens. Workers are alike and are counted; the keys of the hub's map, which Go
-- ranges over in any order, are written to in any order. Calls outside the repository (Kubernetes,
-- GORM, SMTP, JSON, floats, the clock, UUIDs) are arguments; what is relied on of them is a named
-- hypothesis: Answers for the database, JsonRoundTrips for encoding/json.
--
-- Bounds and fuel. An int32 or int64 is its bit pattern, below 2 ^ 32 or 2 ^ 64, and sums wrap around;
-- Go's int has 64 bits where a text is read into one. Theorems on restart counts ask that they fit an
-- int32 together, which Kubernetes keeps for each of them. `show_fuel` prints a number n on fuel n + 1,
-- and each step divides it by ten. All other loops recur on a list or on a count of attempts.
--
-- In App a call of SubmitWithContext is three actions, its tests of the context and of the pool's flag
-- and its send, because `shutdown` and the workers may come between; a task that runs may publish any
-- event at any time; and srv.Shutdown and the signal are one action that is always enabled. The answer
-- of a submission, which Collector/Watcher and MetricsLoop leave open, is decided there by the context
-- and the pool, and a panic there is one of the parts of App: the goroutines of the hub, of its
-- connections and of the HTTP server, and the bodies of the tasks, are not among them. Tasks says
-- what the tasks publish: the creation of an alert and its publication are two actions, what a task
-- reads (the clock, ids, metrics) is given when it begins, and its other steps are those of App.
--
-- In Hub/Sessions a call of Register or Unregister is two actions, the arrival at the channel and the
-- return, and a write is its mutex and its end, with the result as an argument; Run takes a client
-- from the channel and changes the map in one action.
--
-- Not modelled: the lines that are logged, apart from those of the migrations, and what zerolog makes
-- of them; the serving of HTTP and the frames of a WebSocket, which are Gin's and gorilla's; a task
-- that panics; the functions that only return a field or a constant; the HTML front end; and the SQL
-- migrations: they only call libraries, or are not Go. The age of a pod that is created in
-- the future is 0 instead of negative, which the one test of it does not tell apart.
pub mod Prelude
pub mod Channel
pub mod Pool
pub mod Hub
pub mod Platform
pub mod Logger
pub mod Models
pub mod Results
pub mod Repository
pub mod Processor
pub mod Text
pub mod Service
pub mod Collector
pub mod Storage
pub mod Notifier
pub mod Config
pub mod Api
pub mod App
pub mod Tasks
pub mod Stream
pub mod Startup
pub mod Examples
