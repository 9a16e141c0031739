-- ===== src/Collector/Metrics.antt =====
-- internal/collector/metrics_client.go: usage against requests and capacity. The two Kubernetes
-- calls of each function are its arguments; int64 sums are bit patterns.
use monitoring_tool.Prelude.{
  ℕ, ◌+◌, ◌%◌, ◌^◌, Bool, false, String, ◌<>◌, List, [], ◌∷◌, ltb, if◌then◌else◌,
}
use monitoring_tool.Platform.{Platform}
use monitoring_tool.Results.{Result, ok, err, panics, ◌>>=◌}

-- The usage of a container, in millicores and bytes.
pub record Usage : Type 0 where
  pub cpu : ℕ
  pub memory : ℕ

abbrev pub int64_add : ℕ → ℕ → ℕ
int64_add a b = (a + b) % 2 ^ 64

-- x > 0, of an int64
abbrev pub int64_pos : ℕ → Bool
int64_pos n = if ltb 0 n then ltb n (2 ^ 63) else false

-- The loops over the containers. A request that is missing is zero.
unfoldable pub sum_usage : Usage → List Usage → Usage
sum_usage total [] = total
sum_usage total (u ∷ rest) =
    sum_usage (record { cpu = int64_add total.cpu u.cpu; memory = int64_add total.memory u.memory })
      rest

abbrev zero_usage : Usage
zero_usage = record { cpu = 0; memory = 0 }

-- `fmt.Errorf("…: %w", err)` on an error.
abbrev wrap {ℓ} : {A : Type ℓ} → String → Result A → Result A
wrap what (ok a) = ok a
wrap what (err e) = err (what <> e)
wrap what panics = panics

module _ (p : Platform) where
  pub record PodMetrics : Type 0 where
    pub namespace : String
    pub pod_name : String
    pub cpu_usage : ℕ
    pub cpu_percent : p.Float
    pub memory_usage : ℕ
    pub memory_percent : p.Float
    pub cpu_request : ℕ
    pub memory_request : ℕ

  pub record NodeMetrics : Type 0 where
    pub node_name : String
    pub cpu_usage : ℕ
    pub cpu_percent : p.Float
    pub memory_usage : ℕ
    pub memory_percent : p.Float
    pub cpu_capacity : ℕ
    pub memory_capacity : ℕ

  -- (float64(used) / float64(whole)) * 100
  abbrev pub percent : ℕ → ℕ → p.Float
  percent used whole =
      p.float_mul (p.float_div (p.of_int64 used) (p.of_int64 whole)) (p.of_int64 100)

  -- No percentage without a request.
  abbrev pub percent_of_request : ℕ → ℕ → p.Float
  percent_of_request used request = if int64_pos request then percent used request else p.of_int64 0

  abbrev pub pod_metrics_of : String → String → Usage → Usage → PodMetrics
  pod_metrics_of namespace name used requested = record {
    namespace = namespace;
    pod_name = name;
    cpu_usage = used.cpu;
    cpu_percent = percent_of_request used.cpu requested.cpu;
    memory_usage = used.memory;
    memory_percent = percent_of_request used.memory requested.memory;
    cpu_request = requested.cpu;
    memory_request = requested.memory;
  }

  -- The usage of the pod's containers and, if that is there, their requests.
  unfoldable pub get_pod_metrics :
      (String → String → Result (List Usage))
      → (String → String → Result (List Usage))
      → String
      → String
      → Result PodMetrics
  unfolding sum_usage
  get_pod_metrics usages requests namespace name = do
    used ← wrap "failed to get pod metrics: " (usages namespace name)
    requested ← wrap "failed to get pod details: " (requests namespace name)
    ok (pod_metrics_of namespace name (sum_usage zero_usage used) (sum_usage zero_usage requested))

  unfoldable pub get_node_metrics :
      (String → Result Usage) → (String → Result Usage) → String → Result NodeMetrics
  get_node_metrics usages capacities name = do
    used ← wrap "failed to get node metrics: " (usages name)
    capacity ← wrap "failed to get node details: " (capacities name)
    ok (record {
      node_name = name;
      cpu_usage = used.cpu;
      cpu_percent = percent used.cpu capacity.cpu;
      memory_usage = used.memory;
      memory_percent = percent used.memory capacity.memory;
      cpu_capacity = capacity.cpu;
      memory_capacity = capacity.memory;
    })

-- The loop of `GetAllPodsMetrics` and `GetAllNodesMetrics`: an item that fails is logged and left out.
unfoldable pub collect {ℓ κ} : {A : Type ℓ} {B : Type κ} → (A → Result B) → List A → Result (List B)
collect f [] = ok []
collect f (a ∷ rest) =
    let others = collect f rest in
    elim (f a) [ ok b ↦ others >>= (λ bs. ok (b ∷ bs)) | err e ↦ others | panics ↦ panics ]

module _ (p : Platform) where
  unfoldable pub get_all_pods_metrics :
      Result (List (String × String))
      → (String → String → Result (List Usage))
      → (String → String → Result (List Usage))
      → Result (List (PodMetrics p))
  unfolding collect get_pod_metrics
  get_all_pods_metrics listed usages requests = do
    items ← wrap "failed to list pod metrics: " listed
    collect (λ item. get_pod_metrics p usages requests item.0 item.1) items

  unfoldable pub get_all_nodes_metrics :
      Result (List String)
      → (String → Result Usage)
      → (String → Result Usage)
      → Result (List (NodeMetrics p))
  unfolding collect get_node_metrics
  get_all_nodes_metrics listed usages capacities = do
    items ← wrap "failed to list node metrics: " listed
    collect (λ item. get_node_metrics p usages capacities item) items
