-- ===== src/Examples/Runtime.antt =====
-- The pool, the hub, the bus and the email dispatcher at concrete inputs.
use monitoring_tool.Prelude.{ℕ, ◌≡◌, refl, true, false, [], ◌∷◌, pos}
use monitoring_tool.Channel.{make_chan}
use monitoring_tool.Pool.{WorkerPool, new_worker_pool}
use monitoring_tool.Pool.System
use monitoring_tool.Pool.Invariant.{PoolInv, start-PoolInv, Reach-PoolInv}
use monitoring_tool.Pool.Stopping.{Reach-PoolInv-from, stop_completes, done_starts_nothing}
use monitoring_tool.Pool.Races.{
  SubmitCases, submit_with_context_cases, stop_panic_free, submit_stop_race,
}
use monitoring_tool.Hub.Defs.{Hub, writing, unregistering_self}
use monitoring_tool.Hub.Defs
use monitoring_tool.Hub.Invariant.{HubInv, Reach-HubInv, round_over_delivers, count}
use monitoring_tool.Hub.Deadlock.{write_failure_blocks}
use monitoring_tool.Processor.Bus
use monitoring_tool.Processor.Delivery.{subscribed, BusInv, Reach-BusInv}

abbrev two_workers : WorkerPool ℕ
two_workers = new_worker_pool (pos 2) (pos 3)

abbrev started : System.System ℕ
started = System.start two_workers

abbrev one_task : System.System ℕ
one_task = record started { checked = 7 ∷ [] }

begun : System.Reach started one_task
unfolding System.start System.step new_worker_pool
begun = System.next (System.submit_begin 7) System.here refl

abbrev stopping : System.System ℕ
stopping = record started { pool = record two_workers { stopped = true }; stopper = System.closing }

stop_begun : System.Reach started stopping
unfolding System.start System.step new_worker_pool
stop_begun = System.next System.stop_begin System.here refl

abbrev waiting : System.System ℕ
waiting = record started {
  pool = record two_workers { stopped = true; stop_closed = true };
  stopper = System.waiting;
}

stop_waits : System.Reach started waiting
unfolding System.start System.step new_worker_pool
stop_waits = System.next System.stop_signal stop_begun refl

started-PoolInv : PoolInv started
started-PoolInv = start-PoolInv (pos 2) (pos 3)

abbrev quiet : System.System ℕ
quiet = record started {
  pool = record two_workers {
    stopped = true;
    stop_closed = true;
    task_queue = record (make_chan 3) { closed = true };
  };
  idle = 0;
  exited = 2;
  stopper = System.done;
}

stop_ends : System.Reach started quiet
unfolding System.start System.step new_worker_pool
stop_ends =
    System.next System.stop_finish
      (System.next System.exit_on_stop (System.next System.exit_on_stop stop_waits refl) refl) refl

quiet-PoolInv : PoolInv quiet
quiet-PoolInv = Reach-PoolInv-from started-PoolInv stop_ends

Reach-PoolInv_example : PoolInv one_task
Reach-PoolInv_example = Reach-PoolInv (pos 2) (pos 3) begun

stop_completes_example :
    (t : System.System ℕ) × System.Reach waiting t
    × (t.stopper ≡ System.done)
    × (t.panicked ≡ false)
    × (t.started ≡ [])
    × (t.checked ≡ [])
    × (t.pool.task_queue.closed ≡ true)
unfolding System.start new_worker_pool
stop_completes_example =
    stop_completes (Reach-PoolInv-from started-PoolInv stop_waits) refl refl refl

done_starts_nothing_example :
    (quiet.started ≡ []) × (quiet.finished ≡ []) × (quiet.stopper ≡ System.done)
unfolding System.start new_worker_pool
done_starts_nothing_example = done_starts_nothing quiet-PoolInv refl System.here

submit_with_context_cases_example : SubmitCases false two_workers 7
unfolding new_worker_pool
submit_with_context_cases_example = submit_with_context_cases false two_workers 7 (λ e. cc)

stop_panic_free_example :
    (waiting.panicked ≡ false)
    × (waiting.checked ≡ [])
    × (waiting.pool.stopped ≡ true)
    × PoolInv waiting
unfolding System.start new_worker_pool System.step
stop_panic_free_example =
    stop_panic_free (Reach-PoolInv-from started-PoolInv stop_begun) refl refl refl
      (System.next System.stop_signal System.here refl)

submit_stop_race_example : (t : System.System ℕ) × System.Reach started t × (t.panicked ≡ true)
unfolding System.start
submit_stop_race_example = submit_stop_race started 7 started-PoolInv refl refl

abbrev first : Defs.System ℕ
first = record Defs.start { registering = 4 ∷ [] }

abbrev registered : Defs.System ℕ
registered = record Defs.start { hub = record Defs.new_hub { clients = 4 ∷ [] } }

client_registered : Defs.Reach Defs.start registered
unfolding Defs.start Defs.step Defs.new_hub
client_registered =
    Defs.next {t = first} (Defs.take_register 0) (Defs.next (Defs.register 4) Defs.here refl) refl

abbrev message_sent : Defs.System ℕ
message_sent = record registered {
  hub = record registered.hub { broadcast = record (make_chan 500) { buffer = 9 ∷ [] } };
  queued = 9 ∷ [];
}

abbrev round : Defs.System ℕ
round = record registered {
  runner = writing 9 (4 ∷ []);
  snapshot = 4 ∷ [];
  taken = 9 ∷ [];
  queued = 9 ∷ [];
}

round_reached : Defs.Reach Defs.start round
unfolding Defs.start Defs.step Defs.new_hub
round_reached =
    Defs.next {t = message_sent} Defs.take_broadcast
      (Defs.next (Defs.broadcasts 9) client_registered refl) refl

abbrev written : Defs.System ℕ
written = record round { runner = writing 9 []; written = 4 ∷ [] }

written_reached : Defs.Reach Defs.start written
unfolding Defs.start Defs.step Defs.new_hub
written_reached = Defs.next (Defs.write_ok 0) round_reached refl

abbrev stuck : Defs.System ℕ
stuck = record round { runner = unregistering_self 4 }

Reach-HubInv_example : HubInv registered
Reach-HubInv_example = Reach-HubInv client_registered

round_over_delivers_example : count 4 (4 ∷ []) ≡ 1
unfolding Defs.start Defs.step Defs.new_hub
round_over_delivers_example =
    round_over_delivers {t = record written { runner = Defs.selecting }} written_reached refl 4

write_failure_blocks_example :
    (stuck.runner ≡ unregistering_self 4)
    × (stuck.hub.clients ≡ 4 ∷ [])
    × (stuck.closed ≡ [])
    × (stuck.written ≡ [])
    × (stuck.taken ≡ 9 ∷ [])
unfolding Defs.start Defs.step Defs.new_hub
write_failure_blocks_example =
    write_failure_blocks round 9 (4 ∷ []) 0 4 [] {t = stuck} refl refl refl Defs.here

abbrev event : Bus.AlertEvent ℕ
event = record { alert = 3; timestamp = 1 }

abbrev bus : Bus.System ℕ ℕ
bus = Bus.start (subscribed (1 ∷ 2 ∷ []) Bus.new_event_bus)

abbrev published : Bus.System ℕ ℕ
published = record bus {
  bus = record bus.bus { event_chan = record (make_chan 200) { buffer = event ∷ [] } };
  accepted = event ∷ [];
}

Reach-BusInv_example : BusInv (1 ∷ 2 ∷ []) 200 published
unfolding Bus.start Bus.step Bus.new_event_bus Bus.subscribe subscribed
Reach-BusInv_example = Reach-BusInv (1 ∷ 2 ∷ []) (Bus.next (Bus.publishes event) Bus.here refl)
