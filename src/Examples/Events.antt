-- ===== src/Examples/Events.antt =====
-- A watcher of two events with room for one.
use monitoring_tool.Prelude.{ℕ, refl, true, [], ◌∷◌, some}
use monitoring_tool.Channel.{make_chan}
use monitoring_tool.Collector.Watcher.{
  System, start, step, Reach, here, next, loop, dial, watch_event, dialing, connected,
  watch_returned, dispatch_returned, submitting,
}
use monitoring_tool.Collector.Watcher.Events.{WatchInv, Reach-WatchInv, answered, watcher_stops}

abbrev linked : System ℕ
linked = record (start 1) { watching = connected }

abbrev first_seen : System ℕ
first_seen = record linked {
  event_chan = record (make_chan 1) { buffer = 4 ∷ [] };
  seen = 4 ∷ [];
  accepted = 4 ∷ [];
}

abbrev second_dropped : System ℕ
second_dropped = record first_seen { seen = 4 ∷ 5 ∷ []; dropped = 5 ∷ [] }

dropped_reached : Reach (start 1) second_dropped
unfolding start step
dropped_reached =
    next {t = first_seen} (watch_event (some 5))
      (next {t = linked} (watch_event (some 4))
        (next {t = record (start 1) { watching = dialing }} (dial true) (next loop here refl) refl)
        refl)
      refl

Reach-WatchInv_example : WatchInv 1 second_dropped
Reach-WatchInv_example = Reach-WatchInv 1 dropped_reached

-- An event is being submitted, and a Watch is under way.
abbrev stopped : System ℕ
stopped = record second_dropped {
  event_chan = make_chan 1;
  watching = dialing;
  dispatching = submitting 4;
  stop_closed = true;
}

watcher_stops_example :
    Reach stopped (record (answered true stopped) {
      watching = watch_returned;
      dispatching = dispatch_returned;
    })
unfolding start
watcher_stops_example = watcher_stops true true stopped refl refl
