-- ===== src/Models.antt =====
-- internal/models/alert.go: an alert and its life, and the constants of internal/collector.
pub mod Lifecycle
use monitoring_tool.Prelude.{ℕ, ◌≡◌, Bool, true, false, String, List, [], Option, none, some}
use monitoring_tool.Platform.{Platform, Labels}

pub data AlertStatus : Type 0 where
  firing resolved : AlertStatus

abbrev pub status_eq : AlertStatus → AlertStatus → Bool
status_eq firing firing = true
status_eq resolved resolved = true
status_eq _ _ = false

abbrev pub status_name : AlertStatus → String
status_name firing = "firing"
status_name resolved = "resolved"

-- Severities, as internal/collector/constants.go spells them.
abbrev pub severity_critical : String
severity_critical = "critical"

abbrev pub severity_high : String
severity_high = "high"

abbrev pub severity_medium : String
severity_medium = "medium"

abbrev pub severity_low : String
severity_low = "low"

-- Times are nanoseconds. `F` is the type of floats and `J` that of encoded JSON.
pub record Alert (F J : Type 0) : Type 0 where
  pub id : String
  pub status : AlertStatus
  pub severity : String
  pub message : String
  pub source : String
  pub labels : J
  pub value : F
  pub triggered_at : ℕ
  pub resolved_at : Option ℕ
  pub created_at : ℕ
  pub updated_at : ℕ

-- What `uuid.New` and `time.Now` give one call of `NewAlert`.
pub record Stamp : Type 0 where
  pub id : String
  pub now : ℕ

abbrev pub table_name : String
table_name = "alerts"

abbrev json_or_empty {ℓ} : {J : Type ℓ} → J → Option J → J
json_or_empty empty none = empty
json_or_empty empty (some text) = text

abbrev labels_or_empty : Option Labels → Labels
labels_or_empty none = []
labels_or_empty (some l) = l

module _ (p : Platform) where
  unfoldable pub new_alert :
      String → String → String → p.Float → Labels → Stamp → Alert p.Float p.Json
  new_alert severity message source value labels stamp = record {
    id = stamp.id;
    status = firing;
    severity = severity;
    message = message;
    source = source;
    labels = json_or_empty p.empty_json (p.marshal labels);
    value = value;
    triggered_at = stamp.now;
    resolved_at = none;
    created_at = stamp.now;
    updated_at = stamp.now;
  }

  unfoldable pub get_labels_map : Alert p.Float p.Json → Labels
  get_labels_map a = labels_or_empty (p.unmarshal a.labels)

module _ {F J : Type 0} where
  unfoldable pub resolve : ℕ → Alert F J → Alert F J
  resolve now a = record a { status = resolved; resolved_at = some now; updated_at = now }

  unfoldable pub is_firing : Alert F J → Bool
  is_firing a = status_eq a.status firing
