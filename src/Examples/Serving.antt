-- ===== src/Examples/Serving.antt =====
-- A hub with a browser that connects and pings, and the write to it that fails.
use monitoring_tool.Examples.Scripts.{run, run-keeps}
use monitoring_tool.Prelude.{
  ℕ, ◌+◌, ◌≤◌, ◌≡◌, refl, true, false, List, [], ◌∷◌, none, some, if◌then◌else◌,
}
use monitoring_tool.Hub.Defs as Defs
use monitoring_tool.Hub.Defs.{
  broadcasts, take_register, take_broadcast, write_fails, new_hub, unregistering_self,
}
use monitoring_tool.Hub.Sessions.{
  Sessions, Action, absent, accepts, hub_act, hub_locks, begins_loops, reads, pong_locks, pong_over,
  step, start, Reach, here, next,
}
use monitoring_tool.Hub.Sessions.Fine.{is_served, reads_now, is_in_pong, is_in_ping, writes_to}
use monitoring_tool.Hub.Sessions.Safety.{one_writer}
use monitoring_tool.Hub.Sessions.Leaving.{lets_go, Gone}
use monitoring_tool.Hub.Sessions.Runs.{sessions_hang, is_returned}

run_from :
    {s : Sessions ℕ} (m : Sessions ℕ) (actions : List (Action ℕ)) {t : Sessions ℕ}
    → Reach s m
    → run step m actions ≡ some t
    → Reach s t
run_from {s} = run-keeps step (Reach s) (λ m a t r on. next a r on)

abbrev after : Sessions ℕ → List (Action ℕ) → Sessions ℕ
after s script = elim (run step s script) [ none ↦ s | some t ↦ t ]

-- Client 3 is served, and its pong is being written.
abbrev pinged : List (Action ℕ)
pinged =
    accepts 3
    ∷ hub_act (take_register 0)
    ∷ begins_loops 3
    ∷ reads 3 (some (some "ping"))
    ∷ pong_locks 3
    ∷ []

-- Then `Run` writes a message to it, and fails.
abbrev failing : List (Action ℕ)
failing =
    pong_over 3 true
    ∷ hub_act (broadcasts 7)
    ∷ hub_act take_broadcast
    ∷ hub_locks 0
    ∷ hub_act (write_fails 0)
    ∷ []

abbrev ponging : Sessions ℕ
ponging = after start pinged

abbrev failed : Sessions ℕ
failed = after ponging failing

runs_pinged : run step start pinged ≡ some ponging
unfolding run step start Defs.step Defs.start new_hub
runs_pinged = refl

runs_failing : run step ponging failing ≡ some failed
unfolding run step start Defs.step Defs.start new_hub
runs_failing = refl

failed_reached : Reach start failed
failed_reached = run_from ponging failing (run_from start pinged here runs_pinged) runs_failing

-- Another client, and a read that fails.
runs_later :
    run step failed (accepts 4 ∷ reads 3 none ∷ [])
    ≡ some (after failed (accepts 4 ∷ reads 3 none ∷ []))
unfolding run step start Defs.step Defs.start new_hub
runs_later = refl

one_writer_example :
    (if is_in_pong (ponging.connections 3).reading then 1 else 0)
      + (if is_in_ping (ponging.connections 3).pinging then 1 else 0)
      + (if writes_to ponging.hub_writes 3 then 1 else 0)
    ≤ 1
one_writer_example = one_writer 3 (run_from start pinged here runs_pinged)

abbrev later : Sessions ℕ
later = after failed (accepts 4 ∷ reads 3 none ∷ [])

sessions_hang_example :
    ((failed.connections 3).serving ≡ absent → is_served (later.connections 3).serving ≡ false)
    × (reads_now (failed.connections 3).reading ≡ true
        → is_returned (later.connections 3).reading ≡ false)
unfolding run step start Defs.step Defs.start new_hub
sessions_hang_example =
    sessions_hang 3 3 failed_reached refl
      (run_from failed (accepts 4 ∷ reads 3 none ∷ []) here runs_later)

-- Client 3 at its next read.
abbrev waiting : Sessions ℕ
waiting = after start (accepts 3 ∷ hub_act (take_register 0) ∷ begins_loops 3 ∷ [])

runs_waiting :
    run step start (accepts 3 ∷ hub_act (take_register 0) ∷ begins_loops 3 ∷ []) ≡ some waiting
unfolding run step start Defs.step Defs.start new_hub
runs_waiting = refl

lets_go_example : (t : Sessions ℕ) × Reach waiting t × Gone waiting t 3
unfolding run step start Defs.step Defs.start new_hub
lets_go_example =
    lets_go 3
      (run_from start (accepts 3 ∷ hub_act (take_register 0) ∷ begins_loops 3 ∷ []) here
        runs_waiting)
      refl refl refl
