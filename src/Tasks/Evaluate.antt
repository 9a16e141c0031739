-- ===== src/Tasks/Evaluate.antt =====
-- What the tasks of this program do: `processEvent` of internal/collector/pod_collector.go and
-- node_collector.go, and the two checks of metrics_collector.go.
use monitoring_tool.Prelude.{ℕ, suc, ◌≡◌, refl, ap, sym, ◌⊎◌, inl, inr, String, List, [], ◌∷◌, map}
use monitoring_tool.Platform.{Platform}
use monitoring_tool.Results.{Result, ok, err}
use monitoring_tool.Models.{Alert, Stamp}
use monitoring_tool.Repository.{AlertRepo}
use monitoring_tool.Processor.StateManager.{Shared, process_all}
use monitoring_tool.Collector.Objects.{Pod, Node}
use monitoring_tool.Collector.PodWatcher
use monitoring_tool.Collector.PodWatcher.{evaluate_pod_conditions}
use monitoring_tool.Collector.NodeWatcher
use monitoring_tool.Collector.NodeWatcher.{evaluate_node_conditions}
use monitoring_tool.Collector.Metrics.{PodMetrics, NodeMetrics}
use monitoring_tool.Collector.MetricsLoop.{pod_check, node_check}
use monitoring_tool.Collector.MetricsWatcher.{Thresholds, check_pod_metrics, check_node_metrics}
use monitoring_tool.Collector.MetricsWatcher.Checks.{pod_alerts, node_alerts, stamped, checks_lem}
use monitoring_tool.Tasks.Hands.{first_of}
use monitoring_tool.App.System.{Job, pod_job, node_job, check_job}

-- What a task reads: the clock, the ids and times of its alerts, and the metrics or the client's error.
pub record Observed (p : Platform) : Type 0 where
  pub now : ℕ
  pub stamps : ℕ → Stamp
  pub pod_metrics : String ⊎ List (PodMetrics p)
  pub node_metrics : String ⊎ List (NodeMetrics p)

abbrev pub answer_of : {A : Type 0} → String ⊎ A → Result A
answer_of (inl e) = err e
answer_of (inr a) = ok a

-- A task of the process.
abbrev pub Task : Type 0
Task = Job Pod Node

timed_lem : {A : Type 0} (f : A → ℕ) (xs : List A) → map first_of (map (λ a. (a, f a)) xs) ≡ xs
timed_lem f [] = refl
timed_lem f (x ∷ xs) = ap (λ l. x ∷ l) (timed_lem f xs)

-- The times of publication do not change the alerts.
stamped_lem :
    {A : Type 0} (stamps : ℕ → Stamp) (f g : ℕ → ℕ) (n : ℕ) (xs : List (Stamp → A))
    → map first_of (stamped stamps f n xs) ≡ map first_of (stamped stamps g n xs)
unfolding stamped
stamped_lem stamps f g n [] = refl
stamped_lem stamps f g n (x ∷ xs) = ap (λ l. x (stamps n) ∷ l) (stamped_lem stamps f g (suc n) xs)

module _ (p : Platform) (thresholds : Thresholds p.Float) (restart_threshold : ℕ) where
  abbrev checked_pods : String ⊎ List (PodMetrics p) → List (Stamp → Alert p.Float p.Json)
  checked_pods (inl e) = []
  checked_pods (inr ms) = pod_alerts p thresholds ms

  abbrev checked_nodes : String ⊎ List (NodeMetrics p) → List (Stamp → Alert p.Float p.Json)
  checked_nodes (inl e) = []
  checked_nodes (inr ms) = node_alerts p thresholds ms

  -- The alerts that a task gives to `ProcessAlert`, in order.
  unfoldable pub evaluate : Task → Observed p → List (Alert p.Float p.Json)
  evaluate (pod_job pod) r = evaluate_pod_conditions p r.stamps restart_threshold r.now pod
  evaluate (node_job node) r = evaluate_node_conditions p r.stamps node
  evaluate (check_job pod_check) r =
      map first_of (stamped r.stamps (λ n. 0) 0 (checked_pods r.pod_metrics))
  evaluate (check_job node_check) r =
      map first_of (stamped r.stamps (λ n. 0) 0 (checked_nodes r.node_metrics))

  -- The closure that the watcher submits, as a whole: the store and the bus after it.
  unfoldable pub run_task :
      {S O : Type 0}
      → AlertRepo p.Float p.Json S
      → (Alert p.Float p.Json → ℕ)
      → (ℕ → ℕ)
      → Task
      → Observed p
      → Shared p.Float p.Json S O
      → Shared p.Float p.Json S O
  run_task repo event_at check_at (pod_job pod) r sh =
      PodWatcher.process_event p r.stamps repo sh restart_threshold r.now event_at pod
  run_task repo event_at check_at (node_job node) r sh =
      NodeWatcher.process_event p r.stamps repo sh event_at node
  run_task repo event_at check_at (check_job pod_check) r sh =
      (check_pod_metrics p repo thresholds r.stamps check_at (answer_of r.pod_metrics) (sh, 0)).0.0
  run_task repo event_at check_at (check_job node_check) r sh =
      (check_node_metrics p repo thresholds r.stamps check_at (answer_of r.node_metrics)
        (sh, 0)).0.0

  -- The alerts of a task, each with the time of its publication.
  abbrev Timed :
      {S O : Type 0}
      → AlertRepo p.Float p.Json S
      → (Alert p.Float p.Json → ℕ)
      → (ℕ → ℕ)
      → Task
      → Observed p
      → Shared p.Float p.Json S O
      → Type 0
  Timed repo event_at check_at job r sh =
      (batch : List (Alert p.Float p.Json × ℕ)) × (map first_of batch ≡ evaluate job r)
      × ((process_all repo sh batch).0 ≡ run_task repo event_at check_at job r sh)

  module _ {S O : Type 0} (repo : AlertRepo p.Float p.Json S) (stamps : ℕ → Stamp)
      (check_at : ℕ → ℕ) (sh : Shared p.Float p.Json S O) where
    -- A batch with these alerts that makes this of the store and the bus.
    abbrev Batch : List (Stamp → Alert p.Float p.Json) → Shared p.Float p.Json S O → Type 0
    Batch alerts last =
        (batch : List (Alert p.Float p.Json × ℕ)) × (map first_of batch
          ≡ map first_of (stamped stamps (λ n. 0) 0 alerts))
        × ((process_all repo sh batch).0 ≡ last)

    pods_given :
        (a : String ⊎ List (PodMetrics p))
        → Batch
            (checked_pods a)
            (check_pod_metrics p repo thresholds stamps check_at (answer_of a) (sh, 0)).0.0
    unfolding check_pod_metrics process_all stamped
    pods_given (inl e) = ([], refl, refl)
    pods_given (inr ms) = (
      stamped stamps check_at 0 (pod_alerts p thresholds ms),
      stamped_lem stamps check_at (λ n. 0) 0 (pod_alerts p thresholds ms),
      sym (checks_lem p repo thresholds stamps check_at ms [] sh 0).0,
    )

    nodes_given :
        (a : String ⊎ List (NodeMetrics p))
        → Batch
            (checked_nodes a)
            (check_node_metrics p repo thresholds stamps check_at (answer_of a) (sh, 0)).0.0
    unfolding check_node_metrics process_all stamped
    nodes_given (inl e) = ([], refl, refl)
    nodes_given (inr ms) = (
      stamped stamps check_at 0 (node_alerts p thresholds ms),
      stamped_lem stamps check_at (λ n. 0) 0 (node_alerts p thresholds ms),
      sym (checks_lem p repo thresholds stamps check_at [] ms sh 0).1,
    )

  pub Timed-task :
      {S O : Type 0} (repo : AlertRepo p.Float p.Json S) (event_at : Alert p.Float p.Json → ℕ)
      (check_at : ℕ → ℕ) (job : Task) (r : Observed p) (sh : Shared p.Float p.Json S O)
      → Timed repo event_at check_at job r sh
  unfolding evaluate run_task PodWatcher.process_event NodeWatcher.process_event check_pod_metrics
      check_node_metrics
  Timed-task repo event_at check_at (pod_job pod) r sh = (_, timed_lem event_at _, refl)
  Timed-task repo event_at check_at (node_job node) r sh = (_, timed_lem event_at _, refl)
  Timed-task repo event_at check_at (check_job pod_check) r sh =
      pods_given repo r.stamps check_at sh r.pod_metrics
  Timed-task repo event_at check_at (check_job node_check) r sh =
      nodes_given repo r.stamps check_at sh r.node_metrics
