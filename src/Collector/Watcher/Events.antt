-- ===== src/Collector/Watcher/Events.antt =====
-- What becomes of an event, and how a watcher stops.
use mathlib.Core.Path.{subst}
use monitoring_tool.Prelude.{
  ℕ, ◌+◌, ◌≤◌, ◌≡◌, refl, ◌⊎◌, Bool, true, false, List, [], ◌∷◌, ◌++◌, Option, none, some, arith,
  ap, ◌∙◌, append-nil, length, length-append, count_by, count_by-append,
}
use monitoring_tool.Collector.Watcher.{
  Watching, looping, dialing, connected, watch_returned, Dispatching, selecting, submitting,
  dispatch_returned, System, Action, loop, dial, watch_event, leave_watch, take_event, submit_event,
  leave_dispatch, start, told, step, Reach, here, next,
}

module _ {E : Type 0} where
  -- The event in the dispatcher's hand.
  abbrev pub in_hand : Dispatching E → List E
  in_hand (submitting e) = e ∷ []
  in_hand _ = []

  pub record WatchInv (cap : ℕ) (s : System E) : Type 0 where
    pub sized : s.event_chan.capacity ≡ cap
    pub open_chan : s.event_chan.closed ≡ false
    pub bounded : length s.event_chan.buffer ≤ cap
    -- an event of the API is put on the channel or dropped
    pub sorted_out :
        (p : E → Bool) → count_by p s.seen ≡ count_by p s.accepted + count_by p s.dropped
    -- an event on the channel stays there until the pool accepts or refuses it
    pub handed_on :
        (p : E → Bool)
        → count_by p s.accepted
          ≡ count_by p s.submitted
            + count_by p s.refused
            + count_by p (in_hand s.dispatching)
            + count_by p s.event_chan.buffer
    pub told_to_leave :
        (s.watching ≡ watch_returned) ⊎ (s.dispatching ≡ dispatch_returned) → told s ≡ true
    pub panic_needs_stop : s.panicked ≡ true → s.stop_closed ≡ true

  watch_event-WatchInv :
      (cap : ℕ) (s : System E) (o : Option E) {t : System E}
      → WatchInv cap s
      → step s (watch_event o) ≡ some t
      → WatchInv cap t
  unfolding step
  watch_event-WatchInv cap s none inv q = ground arith
  watch_event-WatchInv cap s (some e) inv q = record {
    sized = ground arith;
    open_chan = ground arith;
    bounded = ground (arith, length-append s.event_chan.buffer (e ∷ []));
    sorted_out = λ p. ground (
      arith,
      inv.sorted_out p,
      count_by-append p s.seen (e ∷ []),
      count_by-append p s.accepted (e ∷ []),
      count_by-append p s.dropped (e ∷ []),
    );
    handed_on = λ p. ground (
      arith,
      inv.handed_on p,
      count_by-append p s.accepted (e ∷ []),
      count_by-append p s.event_chan.buffer (e ∷ []),
    );
    told_to_leave = ground arith;
    panic_needs_stop = ground arith;
  }

  take_event-WatchInv :
      (cap : ℕ) (s : System E) (d : Dispatching E) (es : List E) {t : System E}
      → WatchInv cap s
      → s.dispatching ≡ d
      → s.event_chan.buffer ≡ es
      → step s take_event ≡ some t
      → WatchInv cap t
  unfolding step
  take_event-WatchInv cap s selecting (e ∷ es) inv d b q = record {
    sized = ground arith;
    open_chan = ground arith;
    bounded = ground arith;
    sorted_out = λ p. ground (arith, inv.sorted_out p);
    handed_on = λ p. ground (arith, inv.handed_on p);
    told_to_leave = ground arith;
    panic_needs_stop = ground arith;
  }
  take_event-WatchInv cap s _ _ inv d b q = ground arith

  submit_event-WatchInv :
      (cap : ℕ) (s : System E) (d : Dispatching E) (done : Bool) {t : System E}
      → WatchInv cap s
      → s.dispatching ≡ d
      → step s (submit_event done) ≡ some t
      → WatchInv cap t
  unfolding step
  submit_event-WatchInv cap s (submitting e) done inv d q = record {
    sized = ground arith;
    open_chan = ground arith;
    bounded = ground arith;
    sorted_out = λ p. ground (arith, inv.sorted_out p);
    handed_on = λ p. ground (
      arith,
      inv.handed_on p,
      count_by-append p s.submitted (e ∷ []),
      count_by-append p s.refused (e ∷ []),
    );
    told_to_leave = ground arith;
    panic_needs_stop = ground arith;
  }
  submit_event-WatchInv cap s _ done inv d q = ground arith

  pub step-WatchInv :
      (cap : ℕ) (s : System E) (a : Action E) {t : System E}
      → WatchInv cap s
      → step s a ≡ some t
      → WatchInv cap t
  unfolding step
  step-WatchInv cap s (watch_event o) inv q = watch_event-WatchInv cap s o inv q
  step-WatchInv cap s take_event inv q =
      take_event-WatchInv cap s s.dispatching s.event_chan.buffer inv refl refl q
  step-WatchInv cap s (submit_event done) inv q =
      submit_event-WatchInv cap s s.dispatching done inv refl q
  step-WatchInv cap s a inv q = ground arith

  pub start-WatchInv : (cap : ℕ) → WatchInv cap (start cap)
  unfolding start
  start-WatchInv cap = ground arith

  -- A watcher whose channel holds `cap` events, run in any order of its goroutines and of the answers
  -- of the API and the pool: the channel stays within its capacity and is never closed; each event of
  -- the API is put on the channel or dropped, and each on the channel is accepted or refused by the
  -- pool, in the dispatcher's hand, or still there; a goroutine returns only after a stop or a
  -- cancellation; and it panics only after `Stop` was called before.
  pub Reach-WatchInv : (cap : ℕ) {s : System E} → Reach (start cap) s → WatchInv cap s
  Reach-WatchInv cap here = start-WatchInv cap
  Reach-WatchInv cap (next {t = m} a r q) = step-WatchInv cap m a (Reach-WatchInv cap r) q

  -- `dials` is the answer of Watch, where the goroutine waits for one.
  finish_watch :
      (dials : Bool) (s : System E) (w : Watching)
      → s.watching ≡ w
      → told s ≡ true
      → s.panicked ≡ false
      → Reach s (record s { watching = watch_returned })
  unfolding step
  finish_watch dials s looping w h p = next loop here (ground arith)
  finish_watch false s dialing w h p =
      next {t = record s { watching = looping }} loop (next (dial false) here (ground arith))
        (ground arith)
  finish_watch true s dialing w h p =
      next {t = record s { watching = looping }} loop
        (next {t = record s { watching = connected }} leave_watch
          (next (dial true) here (ground arith)) (ground arith))
        (ground arith)
  finish_watch dials s connected w h p =
      next {t = record s { watching = looping }} loop (next leave_watch here (ground arith))
        (ground arith)
  finish_watch dials s watch_returned w h p =
      subst (λ x. Reach s (record s { watching = x })) w here

  -- What the pool's answer makes of the event in the dispatcher's hand.
  abbrev pub answered : Bool → System E → System E
  answered true s = record s { submitted = s.submitted ++ in_hand s.dispatching }
  answered false s = record s { refused = s.refused ++ in_hand s.dispatching }

  nothing_in_hand :
      (accepts : Bool) (s : System E) → in_hand s.dispatching ≡ [] → answered accepts s ≡ s
  nothing_in_hand true s h =
      ap (λ l. record s { submitted = l }) (ap (λ l. s.submitted ++ l) h ∙ append-nil s.submitted)
  nothing_in_hand false s h =
      ap (λ l. record s { refused = l }) (ap (λ l. s.refused ++ l) h ∙ append-nil s.refused)

  finish_dispatch :
      (accepts : Bool) (s : System E) (d : Dispatching E)
      → s.dispatching ≡ d
      → told s ≡ true
      → s.panicked ≡ false
      → Reach s (record (answered accepts s) { dispatching = dispatch_returned })
  unfolding step
  finish_dispatch accepts s selecting d h p =
      rw (nothing_in_hand accepts s (ap in_hand d)) (next leave_dispatch here (ground arith))
  finish_dispatch true s (submitting e) d h p =
      next {t = record (answered true s) { dispatching = selecting }} leave_dispatch
        (next (submit_event true) here (ground arith)) (ground arith)
  finish_dispatch false s (submitting e) d h p =
      next {t = record (answered false s) { dispatching = selecting }} leave_dispatch
        (next (submit_event false) here (ground arith)) (ground arith)
  finish_dispatch accepts s dispatch_returned d h p =
      rw (nothing_in_hand accepts s (ap in_hand d))
        (subst (λ x. Reach s (record s { dispatching = x })) d here)

  Reach-trans : {r s t : System E} → Reach r s → Reach s t → Reach r t
  Reach-trans p here = p
  Reach-trans p (next a q e) = next a (Reach-trans p q) e

  -- `Stop` of a watcher can always return: from any moment after the stop or the cancellation, and
  -- whatever the API answers to a Watch that is under way and the pool to a submission that is, there
  -- is a run on which both goroutines return. On it the event in the dispatcher's hand, if there is
  -- one, is submitted or refused as the pool answers, and nothing else changes: what is then in the
  -- channel stays there, no other event goes to the pool, and nothing panics.
  pub watcher_stops :
      (dials accepts : Bool) (s : System E)
      → told s ≡ true
      → s.panicked ≡ false
      → Reach s (record (answered accepts s) {
        watching = watch_returned;
        dispatching = dispatch_returned;
      })
  watcher_stops dials true s h p =
      Reach-trans (finish_watch dials s s.watching refl h p)
        (finish_dispatch true (record s { watching = watch_returned }) s.dispatching refl h p)
  watcher_stops dials false s h p =
      Reach-trans (finish_watch dials s s.watching refl h p)
        (finish_dispatch false (record s { watching = watch_returned }) s.dispatching refl h p)
