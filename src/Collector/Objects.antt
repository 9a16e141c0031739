-- ===== src/Collector/Objects.antt =====
-- The parts of a pod and of a node that internal/collector reads, and its int32 arithmetic.
use monitoring_tool.Prelude.{
  ℕ, ◌+◌, ◌%◌, ◌^◌, Bool, false, ◌||◌, String, ◌<>◌, str_eq, List, [], ◌∷◌, Option, none, some, ltb,
  if◌then◌else◌,
}
use monitoring_tool.Platform.{PodPhase, ConditionStatus, NodeConditionType, Labels}

-- An int32 is its bit pattern; adding 2 ^ 31 turns the signed order into that of the numbers.
abbrev pub int32_gt : ℕ → ℕ → Bool
int32_gt a b = ltb ((b + 2 ^ 31) % 2 ^ 32) ((a + 2 ^ 31) % 2 ^ 32)

abbrev pub int32_add : ℕ → ℕ → ℕ
int32_add a b = (a + b) % 2 ^ 32

-- `State.Waiting`
pub record Waiting : Type 0 where
  pub reason : String
  pub message : String

pub record ContainerStatus : Type 0 where
  pub name : String
  pub restart_count : ℕ  -- int32
  pub terminated_reason : Option String  -- LastTerminationState.Terminated, and its Reason
  pub waiting : Option Waiting

pub record Pod : Type 0 where
  pub namespace : String
  pub name : String
  pub phase : PodPhase
  pub reason : String
  pub message : String
  pub container_statuses : List ContainerStatus
  pub creation_timestamp : ℕ

pub record NodeCondition : Type 0 where
  pub kind : NodeConditionType
  pub status : ConditionStatus
  pub reason : String

pub record Node : Type 0 where
  pub name : String
  pub conditions : List NodeCondition

abbrev pub oom_killed : ContainerStatus → Bool
oom_killed cs = elim cs.terminated_reason [ none ↦ false | some r ↦ str_eq r "OOMKilled" ]

abbrev pub crash_looping : ContainerStatus → Bool
crash_looping cs = elim cs.waiting [ none ↦ false | some w ↦ str_eq w.reason "CrashLoopBackOff" ]

abbrev pub image_pull_failing : ContainerStatus → Bool
image_pull_failing cs = elim cs.waiting [
  | none ↦ false
  | some w ↦ str_eq w.reason "ImagePullBackOff" || str_eq w.reason "ErrImagePull"
]

abbrev pub waiting_message : Option Waiting → String
waiting_message none = ""
waiting_message (some w) = w.message

abbrev pub concat : List String → String
concat [] = ""
concat (s ∷ rest) = s <> concat rest

-- `labels[key] = value`
unfoldable pub set_label : String → String → Labels → Labels
set_label key value [] = (key, value) ∷ []
set_label key value ((k, v) ∷ rest) =
    if str_eq k key then (key, value) ∷ rest else (k, v) ∷ set_label key value rest

-- `labels[key]`, the empty text where the key is missing.
unfoldable pub get_label : String → Labels → String
get_label key [] = ""
get_label key ((k, v) ∷ rest) = if str_eq k key then v else get_label key rest
