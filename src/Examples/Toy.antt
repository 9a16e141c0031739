-- ===== src/Examples/Toy.antt =====
-- A platform whose floats are numbers and whose JSON is the map itself, and an alert on it.
use monitoring_tool.Prelude.{ℕ, ◌*◌, ◌/◌, sym, String, [], some, none, ltb}
use monitoring_tool.Platform.{
  Platform, Labels, JsonRoundTrips, PodPhase, pod_pending, pod_running, pod_succeeded, pod_failed,
  pod_unknown, ConditionStatus, condition_true, condition_false, condition_unknown,
}
use monitoring_tool.Text.{show_ℕ}
use monitoring_tool.Models.{Alert, Stamp, firing}

abbrev phase_name : PodPhase → String
phase_name pod_pending = "Pending"
phase_name pod_running = "Running"
phase_name pod_succeeded = "Succeeded"
phase_name pod_failed = "Failed"
phase_name pod_unknown = "Unknown"

abbrev status_word : ConditionStatus → String
status_word condition_true = "True"
status_word condition_false = "False"
status_word condition_unknown = "Unknown"

abbrev pub toy : Platform
toy = record {
  Float = ℕ;
  of_int32 = λ n. n;
  of_int64 = λ n. n;
  to_int32 = λ n. n;
  float_gt = λ a b. ltb b a;
  float_mul = λ a b. a * b;
  float_div = λ a b. a / b;
  format_1 = show_ℕ;
  format_2 = show_ℕ;
  phase_text = phase_name;
  status_text = status_word;
  Json = Labels;
  empty_json = [];
  show_json = λ l. "labels";
  marshal = λ l. some l;
  unmarshal = λ l. some l;
}

pub toy-JsonRoundTrips : JsonRoundTrips toy
toy-JsonRoundTrips l s e = sym e

abbrev pub stamp_of : ℕ → Stamp
stamp_of n = record { id = show_ℕ n; now = n }

abbrev pub sample : String → ℕ → Alert ℕ Labels
sample severity at = record {
  id = "id";
  status = firing;
  severity = severity;
  message = "full";
  source = "k8s_pod";
  labels = [];
  value = 1;
  triggered_at = at;
  resolved_at = none;
  created_at = at;
  updated_at = at;
}
