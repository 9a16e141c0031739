-- ===== src/Startup/Booting.antt =====
-- When `init` reaches `main`, and what `main` then runs.
use monitoring_tool.Prelude.{
  ℕ, ◌≡◌, refl, ◌∙◌, sym, ap, inl, inr, Bool-cases, false, ◌<◌, ℤ, pos, List, [], ◌∷◌, String,
  if◌then◌else◌,
}
use mathlib.Core.Path.{subst}
use monitoring_tool.Results.{Result, ok, err, panics, ◌>>=◌}
use monitoring_tool.Config.{Config}
use monitoring_tool.Notifier.{EmailConfig, subscribes}
use monitoring_tool.Startup.Migrations.{migration_lines, run_migrations}
use monitoring_tool.Startup.Dependencies.{Dependencies, new_dependencies}
use monitoring_tool.Startup.Init.{
  World, Observer, hub_observer, email_observer, Running, with_client, with_database, with_config,
  init, config, database, subscribed_bus, init_email_dispatcher,
}
use monitoring_tool.Startup.Watchers.{Settings, int32_bits, init_k8s_watchers}
use monitoring_tool.Collector.Client.{K8sClient, new_k8s_client, wrap}
use monitoring_tool.Collector.MetricsLoop.{metrics_interval, metrics_interval_lem}
use monitoring_tool.Processor.Bus.{EventBus, new_event_bus}
use monitoring_tool.Processor.Delivery.{subscribed}
use monitoring_tool.Hub.Defs.{Hub, new_hub}
use monitoring_tool.App.System.{App, start, any_panicked}
use monitoring_tool.App.Step.{Reach}
use monitoring_tool.App.Shutdown.{booted, never_panics}

wrap-ok : {A : Type 0} (what : String) (x : Result A) {a : A} → wrap what x ≡ ok a → x ≡ ok a
wrap-ok what (ok b) h = h
wrap-ok what (err e) h = cc
wrap-ok what panics h = cc

bind-ok :
    {A B : Type 0} (x : Result A) (f : A → Result B) {b : B}
    → x >>= f ≡ ok b
    → (a : A) × (x ≡ ok a) × (f a ≡ ok b)
bind-ok (ok a) f h = (a, refl, h)
bind-ok (err e) f h = cc
bind-ok panics f h = cc

ok-same : {A : Type 0} {a b : A} → ok a ≡ ok b → a ≡ b
ok-same h = cc

-- Whom the bus notifies.
abbrev pub observers : EmailConfig → List Observer
observers cfg = if subscribes cfg then hub_observer ∷ email_observer ∷ [] else hub_observer ∷ []

subscribed_bus_lem :
    {A : Type 0} (cfg : EmailConfig)
    → subscribed_bus {A = A} cfg ≡ subscribed (observers cfg) new_event_bus
unfolding subscribed init_email_dispatcher
subscribed_bus_lem cfg = elim (Bool-cases (subscribes cfg)) [
  | inl on ↦ rw on refl
  | inr off ↦ rw off refl
]

-- What the watchers take from a configuration.
abbrev pub settings_of : {F : Type 0} → Config F → Settings F
settings_of cfg = record {
  restart_threshold = int32_bits cfg.alert_rules.pod_restart_threshold;
  interval = metrics_interval cfg.kubernetes.metrics_interval;
  thresholds = record {
    pod_cpu = cfg.alert_rules.pod_cpu_percent;
    pod_memory = cfg.alert_rules.pod_memory_percent;
    node_cpu = cfg.alert_rules.node_cpu_percent;
    node_memory = cfg.alert_rules.node_memory_percent;
  };
}

module _ {F D K M A W : Type 0} where
  abbrev pub dependencies :
      Config F
      → D × List String
      → K8sClient K M
      → Dependencies D (K8sClient K M) D (EventBus A Observer) (Hub W)
  dependencies cfg opened client = record {
    db = opened.0;
    k8s_client = client;
    alert_service = opened.0;
    event_bus = subscribed_bus cfg.email;
    ws_hub = new_hub;
  }

module _ {F D C K M : Type 0} (of_int : ℤ → F) (w : World F D C K M) where
  -- What the migrations log.
  abbrev pub migration_log : Config F → List String
  migration_log cfg =
      if cfg.postgres.auto_migrate
      then migration_lines (run_migrations w.migrator cfg.postgres)
      else []

module _ {F D C K M P N A W : Type 0} (of_int : ℤ → F) (w : World F D C K M) where
  -- Where `init` reaches `main`, the configuration has loaded, and it is the one that the process runs
  -- on.
  init-ran :
      {r : Running F D K M P N A W}
      → init of_int w ≡ ok r
      → (cfg : Config F) × (config of_int w ≡ ok cfg)
        × (r.app ≡ booted (observers cfg.email) (metrics_interval cfg.kubernetes.metrics_interval))
  unfolding init new_dependencies init_k8s_watchers
  init-ran {r} h =
      let (cfg, c, f) =
        bind-ok (wrap "Failed to load config: " (config of_int w)) (with_config of_int w) h in
      let (opened, d, g) =
        bind-ok (wrap "Failed to initialize PostgreSQL: " (database of_int w cfg))
          (with_database of_int w cfg) f in
      let (client, k, e) =
        bind-ok (wrap "Failed to initialize K8s client: " (new_k8s_client w.client_go))
          (with_client of_int w cfg opened) g in
      (
        cfg,
        wrap-ok _ _ c,
        sym (ap (λ x. x.app) (ok-same e))
            ∙ ap (λ b. start b (metrics_interval cfg.kubernetes.metrics_interval))
                (subscribed_bus_lem cfg.email),
      )

  -- Where `init` reaches `main` with a metrics interval of at least 0 and less than 9223372036 seconds,
  -- and in any order of what the goroutines do, up to the end of `shutdown`: there is no panic in those
  -- of the pod watcher, the node watcher and the metrics loop, in the workers' loop and the calls of
  -- SubmitWithContext, in the bus with its publications, in the stops of all of these by `main`, nor
  -- in the two callers of the Kubernetes client's Stop.
  pub started_never_panics :
      {r : Running F D K M P N A W} {s : App P N A Observer} (cfg : Config F) (n : ℕ)
      → init of_int w ≡ ok r
      → config of_int w ≡ ok cfg
      → cfg.kubernetes.metrics_interval ≡ pos n
      → n < 9223372036
      → Reach r.app s
      → any_panicked s ≡ false
  started_never_panics {r} {s} cfg n h c m l run =
      let (cfg', c', a) = init-ran h in
      let same = ok-same (sym c' ∙ c) in
      never_panics (observers cfg'.email) (metrics_interval cfg'.kubernetes.metrics_interval)
        (rw same (rw m ((metrics_interval_lem n l).0))) (subst (λ x. Reach x s) a run)
