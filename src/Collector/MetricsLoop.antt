-- ===== src/Collector/MetricsLoop.antt =====
-- The goroutine of internal/collector/metrics_collector.go: metricsLoop with the two submissions of
-- checkAllMetrics, one channel action at a time.
use monitoring_tool.Prelude.{
  ℕ, ◌≡◌, refl, Bool, true, false, ◌||◌, List, [], ◌∷◌, ◌++◌, Option, none, some, ℤ, pos, negsuc,
  not, ◌==◌, ◌<◌, ◌*◌, ◌+◌, ◌-◌, ◌%◌, ◌^◌, arith, if◌then◌else◌,
}
use monitoring_tool.Collector.Metrics.{int64_pos}

-- The two tasks of a round.
pub data Check : Type 0 where
  pod_check node_check : Check

-- Where the goroutine stands.
pub data Looping : Type 0 where
  submitting_check : Check → Looping  -- in SubmitWithContext
  waiting : Looping  -- at its `select`
  loop_returned : Looping

pub record System : Type 0 where
  pub looping : Looping
  pub stop_closed : Bool  -- stopCh
  pub cancelled : Bool
  pub panicked : Bool
  pub tried : List Check  -- the tasks given to SubmitWithContext, in order
  pub refused : List Check

pub data Action : Type 0 where
  submit_check : Bool → Action  -- whether the pool accepts the task
  tick : Action
  leave_loop : Action
  cancel : Action
  stop : Action

-- `time.Duration(x) * time.Second`, as an int64.
abbrev pub seconds : ℤ → ℕ
seconds (pos n) = n * 1000000000 % 2 ^ 64
seconds (negsuc n) = (2 ^ 64 - (n + 1) * 1000000000 % 2 ^ 64) % 2 ^ 64

-- The interval of `NewMetricsWatcher`, from the configuration.
unfoldable pub metrics_interval : ℤ → ℕ
metrics_interval x = let d = seconds x in if d == 0 then 60000000000 else d

-- `Start`: time.NewTicker panics unless the interval is positive; the first round comes before the
-- first tick.
unfoldable pub start : ℕ → System
start interval = record {
  looping = submitting_check pod_check;
  stop_closed = false;
  cancelled = false;
  panicked = not (int64_pos interval);
  tried = [];
  refused = [];
}

abbrev pub after_check : Check → Looping
after_check pod_check = submitting_check node_check
after_check node_check = waiting

abbrev answered : System → Check → Bool → System
answered s c true = record s { looping = after_check c; tried = s.tried ++ c ∷ [] }
answered s c false = record s {
  looping = after_check c;
  tried = s.tried ++ c ∷ [];
  refused = s.refused ++ c ∷ [];
}

abbrev loop_act : System → Looping → Action → Option System
loop_act s (submitting_check c) (submit_check done) = some (answered s c done)
loop_act s waiting tick = some (record s { looping = submitting_check pod_check })
loop_act s waiting leave_loop =
    if s.stop_closed || s.cancelled then some (record s { looping = loop_returned }) else none
loop_act s _ _ = none

-- `Stop` closes stopCh; a second call panics.
abbrev act : System → Action → Option System
act s cancel = some (record s { cancelled = true })
act s stop =
    some (if s.stop_closed then record s { panicked = true } else record s { stop_closed = true })
act s a = loop_act s s.looping a

unfoldable pub step : System → Action → Option System
step s a = if s.panicked then none else act s a

pub kept : (n : ℕ) → n < 9223372036 → seconds (pos n) ≡ n * 1000000000
kept n h = omega arith

turned : (n : ℕ) → n < 9223372036 → seconds (negsuc n) ≡ 2 ^ 64 - (n + 1) * 1000000000
turned n h = omega arith

-- A configured interval that is not negative and below 9223372036 seconds runs the ticker, with
-- a minute in place of 0; one below 0, by at most as many seconds, panics at the start of the loop.
pub metrics_interval_lem :
    (n : ℕ)
    → n < 9223372036
    → (int64_pos (metrics_interval (pos n)) ≡ true)
      × (metrics_interval (pos 0) ≡ 60000000000)
      × ((start (metrics_interval (negsuc n))).panicked ≡ true)
unfolding metrics_interval start
metrics_interval_lem n h = (ground (arith, kept n h), refl, ground (arith, turned n h))
