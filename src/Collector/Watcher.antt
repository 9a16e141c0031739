-- ===== src/Collector/Watcher.antt =====
-- The goroutines of a watcher: watchPods and eventDispatcher of internal/collector/pod_collector.go,
-- and watchNodes and eventDispatcher of internal/collector/node_collector.go, which differ in the
-- object watched and in the capacity of the channel alone. `E` are the events.
pub mod Events
use monitoring_tool.Prelude.{
  ℕ, ◌≡◌, Bool, true, false, ◌||◌, List, [], ◌∷◌, ◌++◌, Option, none, some, if◌then◌else◌,
}
use monitoring_tool.Channel.{
  Channel, make_chan, Sending, sent, full, send_panic, try_send, Receiving, received, drained,
  blocked, receive,
}

-- The capacity of the channel of events.
abbrev pub pod_capacity : ℕ
pod_capacity = 500

abbrev pub node_capacity : ℕ
node_capacity = 300

-- Where the goroutine that watches stands.
pub data Watching : Type 0 where
  looping : Watching  -- at the top of the outer loop
  dialing : Watching  -- in Watch, or asleep after its error
  connected : Watching
  watch_returned : Watching

-- Where the dispatcher stands.
pub data Dispatching (E : Type 0) : Type 0 where
  selecting : Dispatching E
  submitting : E → Dispatching E  -- in SubmitWithContext
  dispatch_returned : Dispatching E

pub record System (E : Type 0) : Type 0 where
  pub event_chan : Channel E
  pub watching : Watching
  pub dispatching : Dispatching E
  pub stop_closed : Bool  -- stopCh
  pub cancelled : Bool
  pub panicked : Bool
  pub seen : List E  -- the objects of the right kind that the API has sent, in order
  pub accepted : List E  -- those put on the channel
  pub dropped : List E  -- those that found it full
  pub submitted : List E  -- those that the pool has accepted as tasks
  pub refused : List E  -- those that the pool has refused

pub data Action (E : Type 0) : Type 0 where
  loop : Action E
  dial : Bool → Action E  -- whether Watch succeeds
  watch_event : Option E → Action E  -- none: an object of another kind
  watch_closed : Action E
  leave_watch : Action E
  take_event : Action E
  -- SubmitWithContext returns, with the task accepted or not: any answer here. In App the context
  -- and the pool decide it.
  submit_event : Bool → Action E
  leave_dispatch : Action E
  cancel : Action E
  stop : Action E

module _ {E : Type 0} where
  -- `Start`, with a channel of this capacity.
  unfoldable pub start : ℕ → System E
  start n = record {
    event_chan = make_chan n;
    watching = looping;
    dispatching = selecting;
    stop_closed = false;
    cancelled = false;
    panicked = false;
    seen = [];
    accepted = [];
    dropped = [];
    submitted = [];
    refused = [];
  }

  -- stopCh or ctx.Done() is ready.
  abbrev pub told : System E → Bool
  told s = s.stop_closed || s.cancelled

  -- The inner `select` with a default. The channel of events is never closed.
  abbrev offers : System E → E → Sending E → System E
  offers s e (sent ch) = record s {
    event_chan = ch;
    seen = s.seen ++ e ∷ [];
    accepted = s.accepted ++ e ∷ [];
  }
  offers s e full = record s { seen = s.seen ++ e ∷ []; dropped = s.dropped ++ e ∷ [] }
  offers s e send_panic = record s { panicked = true }

  abbrev sees : System E → Option E → System E
  sees s none = s
  sees s (some e) = offers s e (try_send s.event_chan e)

  abbrev watch_act : System E → Watching → Action E → Option (System E)
  watch_act s looping loop =
      some (record s { watching = if told s then watch_returned else dialing })
  watch_act s dialing (dial done) =
      some (record s { watching = if done then connected else looping })
  watch_act s connected (watch_event o) = some (sees s o)
  watch_act s connected watch_closed = some (record s { watching = looping })
  watch_act s connected leave_watch =
      if told s then some (record s { watching = looping }) else none
  watch_act s _ _ = none

  abbrev takes : System E → Receiving E → Option (System E)
  takes s (received e ch) = some (record s { event_chan = ch; dispatching = submitting e })
  takes s drained = none
  takes s blocked = none

  abbrev submits : System E → E → Bool → System E
  submits s e true = record s { dispatching = selecting; submitted = s.submitted ++ e ∷ [] }
  submits s e false = record s { dispatching = selecting; refused = s.refused ++ e ∷ [] }

  abbrev dispatch_act : System E → Dispatching E → Action E → Option (System E)
  dispatch_act s selecting take_event = takes s (receive s.event_chan)
  dispatch_act s selecting leave_dispatch =
      if told s then some (record s { dispatching = dispatch_returned }) else none
  dispatch_act s (submitting e) (submit_event done) = some (submits s e done)
  dispatch_act s _ _ = none

  -- `Stop` closes stopCh; a second call panics.
  abbrev act : System E → Action E → Option (System E)
  act s cancel = some (record s { cancelled = true })
  act s stop =
      some (if s.stop_closed then record s { panicked = true } else record s { stop_closed = true })
  act s take_event = dispatch_act s s.dispatching take_event
  act s (submit_event done) = dispatch_act s s.dispatching (submit_event done)
  act s leave_dispatch = dispatch_act s s.dispatching leave_dispatch
  act s a = watch_act s s.watching a

  unfoldable pub step : System E → Action E → Option (System E)
  step s a = if s.panicked then none else act s a

  pub data Reach (s : System E) : System E → Type 0 where
    here : Reach s s
    next : {t u : System E} (a : Action E) → Reach s t → step t a ≡ some u → Reach s u

module _ {N : Type 0} where
  -- `NewNodeWatcher` and `Start`.
  abbrev pub node_start : System N
  node_start = start node_capacity

  -- watchNodes, eventDispatcher and `Stop` of the node watcher take the steps of the pod watcher's.
  abbrev pub node_step : System N → Action N → Option (System N)
  node_step s a = step s a
