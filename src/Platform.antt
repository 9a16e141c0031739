-- ===== src/Platform.antt =====
-- What the program takes from outside the repository and its language: 64-bit floats, and the
-- texts and encodings of the Kubernetes, JSON and UUID packages.
use monitoring_tool.Prelude.{ℕ, ◌≡◌, Bool, String, List, Option, some}

pub data PodPhase : Type 0 where
  pod_pending pod_running pod_succeeded pod_failed pod_unknown : PodPhase

pub data ConditionStatus : Type 0 where
  condition_true condition_false condition_unknown : ConditionStatus

pub data NodeConditionType : Type 0 where
  node_ready node_memory_pressure node_disk_pressure node_pid_pressure : NodeConditionType
  node_network_unavailable : NodeConditionType

-- A `map[string]string`, each key at most once.
abbrev pub Labels : Type 0
Labels = List (String × String)

-- An `int32` or `int64` is its bit pattern here: a number below 2 ^ 32 or 2 ^ 64.
pub record Platform : Type 1 where
  pub Float : Type 0
  pub of_int32 : ℕ → Float
  pub of_int64 : ℕ → Float
  pub to_int32 : Float → ℕ
  pub float_gt : Float → Float → Bool
  pub float_mul : Float → Float → Float
  pub float_div : Float → Float → Float
  pub format_1 : Float → String  -- %.1f
  pub format_2 : Float → String  -- %.2f
  pub phase_text : PodPhase → String
  pub status_text : ConditionStatus → String
  pub Json : Type 0  -- datatypes.JSON
  pub empty_json : Json  -- {}
  pub show_json : Json → String  -- %v
  pub marshal : Labels → Option Json  -- datatypes.NewJSONType(labels).MarshalJSON()
  pub unmarshal : Json → Option Labels  -- json.Unmarshal into a map[string]string

-- A map of texts that was encoded is decoded to itself.
abbrev pub JsonRoundTrips : Platform → Type 0
JsonRoundTrips p = (l : Labels) (s : p.Json) → p.marshal l ≡ some s → p.unmarshal s ≡ some l
