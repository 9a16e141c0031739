-- ===== src/Hub/Sessions/Safety.antt =====
-- What holds of the connections at every moment, in every order of their goroutines and of `Run`.
use monitoring_tool.Prelude.{
  ℕ, ◌+◌, ◌≤◌, ◌≡◌, refl, ◌∙◌, ap, sym, inl, inr, Bool, false, List, Option, none, some, ◌==◌,
  if◌then◌else◌, arith, some_same, then_some, Option-cases,
}
use mathlib.Core.Path.{subst}
use monitoring_tool.Channel.{pick}
use monitoring_tool.Hub.Defs as Defs
use monitoring_tool.Hub.Defs.{
  Runner, writing, selecting, unregistering_self, returned, register, unregister, broadcasts,
  take_register, take_unregister, take_broadcast, write_ok, write_fails, round_over, cancel,
  see_cancel, has,
}
use monitoring_tool.Hub.Sessions.{
  nobody, the_hub, Connection, Sessions, Action, accepts, hub_act, hub_locks, begins_loops, reads,
  pong_locks, pong_over, left, ticks, ping_locks, ping_over, is_call, with_connection, with_hub,
  locks_next, locks_for, ends_write, over, hub_step, step, start, Reach, here, next, is_nobody,
}
use monitoring_tool.Hub.Sessions.Census.{Counts, counts, Census, step-Census}
use monitoring_tool.Hub.Sessions.Fine.{
  Fine, SessionsInv, changes, free_pinger, free_reader, hub_pinger, hub_reader, is_in_ping,
  is_in_pong, same_number, with_hub-some, writes_to,
}
use monitoring_tool.Hub.Sessions.Readers.{
  accepts-SessionsInv, loops_begin-SessionsInv, ends_pong-SessionsInv, locks_pong-SessionsInv,
  reads_on-SessionsInv, reader_returns-SessionsInv,
}
use monitoring_tool.Hub.Sessions.Pingers.{
  ends_ping-SessionsInv, locks_ping-SessionsInv, ticks_on-SessionsInv,
}

one_holder :
    (k : Connection) (n : Counts) (hub : Bool)
    → Fine k n hub
    → (if is_in_pong k.reading then 1 else 0)
        + (if is_in_ping k.pinging then 1 else 0)
        + (if hub then 1 else 0)
      ≤ 1
one_holder k n hub fine = ground (arith, fine.reader_holds, fine.pinger_holds, fine.hub_holds)

start-SessionsInv : (M : Type 0) → SessionsInv {M = M} start
unfolding start Defs.start Defs.new_hub
start-SessionsInv M c = record {
  census = (refl, refl, refl, refl, refl);
  reader_holds = refl;
  pinger_holds = refl;
  hub_holds = refl;
  unpinged = λ h. refl;
}

module _ {M : Type 0} where
  -- An action of the hub that no connection calls.
  hub_moves :
      (s : Sessions M) (a : Defs.Action M) {t : Sessions M}
      → SessionsInv s
      → is_call a ≡ false
      → with_hub s (Defs.step s.hub a) ≡ some t
      → SessionsInv t
  hub_moves s a inv h e =
      let (hub, on, eq) = with_hub-some s _ e in
      subst SessionsInv eq (λ d. record {
        census = step-Census s.hub a d _ _ h on (inv d).census;
        reader_holds = (inv d).reader_holds;
        pinger_holds = (inv d).pinger_holds;
        hub_holds = (inv d).hub_holds;
        unpinged = (inv d).unpinged;
      })

  locks_next-SessionsInv :
      (s : Sessions M) (o : Option (ℕ × List ℕ)) {t : Sessions M}
      → SessionsInv s
      → s.hub_writes ≡ none
      → locks_next s o ≡ some t
      → SessionsInv t
  locks_next-SessionsInv s none inv idle e = cc
  locks_next-SessionsInv s (some (c, rest)) inv idle e =
      let (free, f) = then_some (is_nobody (s.connections c).writer) _ e in
      subst SessionsInv (some_same f) (
        changes s c (record (s.connections c) { writer = the_hub }) s.hub (some c) inv
          (record {
            census = (inv c).census;
            reader_holds = free_reader _ free ∙ (inv c).reader_holds;
            pinger_holds = free_pinger _ free ∙ (inv c).pinger_holds;
            hub_holds = ground arith;
            unpinged = (inv c).unpinged;
          })
          (λ d miss. refl) (λ d miss. rw idle miss))

  locks_for-SessionsInv :
      (s : Sessions M) (i : ℕ) (w : Option ℕ) (r : Runner M) {t : Sessions M}
      → SessionsInv s
      → s.hub_writes ≡ w
      → locks_for s i w r ≡ some t
      → SessionsInv t
  locks_for-SessionsInv s i none (writing m rest) inv idle e =
      locks_next-SessionsInv s (pick i rest) inv idle e
  locks_for-SessionsInv s i w r inv idle e = cc

  -- The mutex is given back, and then `Run` goes on.
  frees :
      (s : Sessions M) (c : ℕ)
      → SessionsInv s
      → s.hub_writes ≡ some c
      → SessionsInv (record (with_connection s c (record (s.connections c) { writer = nobody })) {
        hub_writes = none;
      })
  frees s c inv busy =
      let held = (inv c).hub_holds ∙ ap (λ w. writes_to w c) busy ∙ same_number c in
      changes s c (record (s.connections c) { writer = nobody }) s.hub none inv
        (record {
          census = (inv c).census;
          reader_holds = hub_reader _ held ∙ (inv c).reader_holds;
          pinger_holds = hub_pinger _ held ∙ (inv c).pinger_holds;
          hub_holds = refl;
          unpinged = (inv c).unpinged;
        })
        (λ d miss. refl) (λ d miss. rw busy (sym miss))

  over-SessionsInv :
      (s : Sessions M) (a : Defs.Action M) (i : ℕ) (w : Option ℕ) (r : Runner M) {t : Sessions M}
      → SessionsInv s
      → is_call a ≡ false
      → s.hub_writes ≡ w
      → over s a i w r ≡ some t
      → SessionsInv t
  over-SessionsInv s a i (some c) (writing m rest) inv h busy e =
      elim (Option-cases (pick i rest)) [
        | inl nothing_left ↦ cc (ap (ends_write s a c) (sym nothing_left) ∙ e)
        | inr ((d, others), got) ↦
            let (_, f) = then_some (c == d) _ (ap (ends_write s a c) (sym got) ∙ e) in
            hub_moves _ a (frees s c inv busy) h f
      ]
  over-SessionsInv s a i w r inv h busy e = cc

  hub_step-SessionsInv :
      (s : Sessions M) (a : Defs.Action M) {t : Sessions M}
      → SessionsInv s
      → hub_step s a ≡ some t
      → SessionsInv t
  hub_step-SessionsInv s (write_ok i) inv e =
      over-SessionsInv s (write_ok i) i s.hub_writes s.hub.runner inv refl refl e
  hub_step-SessionsInv s (write_fails i) inv e =
      over-SessionsInv s (write_fails i) i s.hub_writes s.hub.runner inv refl refl e
  hub_step-SessionsInv s (register c) inv e = cc
  hub_step-SessionsInv s (unregister c) inv e = cc
  hub_step-SessionsInv s a inv e = hub_moves s a inv refl e

  step-SessionsInv :
      (s : Sessions M) (a : Action M) {t : Sessions M}
      → SessionsInv s
      → step s a ≡ some t
      → SessionsInv t
  unfolding step
  step-SessionsInv s (accepts c) inv e = accepts-SessionsInv s c _ inv refl e
  step-SessionsInv s (hub_act a) inv e = hub_step-SessionsInv s a inv e
  step-SessionsInv s (hub_locks i) inv e = locks_for-SessionsInv s i _ s.hub.runner inv refl e
  step-SessionsInv s (begins_loops c) inv e = loops_begin-SessionsInv s c _ inv refl e
  step-SessionsInv s (reads c m) inv e = reads_on-SessionsInv s c _ m inv refl e
  step-SessionsInv s (pong_locks c) inv e = locks_pong-SessionsInv s c _ inv refl e
  step-SessionsInv s (pong_over c ok) inv e = ends_pong-SessionsInv s c _ ok inv refl e
  step-SessionsInv s (left c) inv e = reader_returns-SessionsInv s c _ inv refl e
  step-SessionsInv s (ticks c) inv e = ticks_on-SessionsInv s c _ inv refl e
  step-SessionsInv s (ping_locks c) inv e = locks_ping-SessionsInv s c _ inv refl e
  step-SessionsInv s (ping_over c ok) inv e = ends_ping-SessionsInv s c _ ok inv refl e

  pub Reach-SessionsInv : {s : Sessions M} → Reach start s → SessionsInv s
  Reach-SessionsInv here = start-SessionsInv M
  Reach-SessionsInv (next {t = m} a r e) = step-SessionsInv m a (Reach-SessionsInv r) e

  -- In any run of a new hub with its connections, in any order of their goroutines and of `Run`: at
  -- most one of them is in a write to a connection: its reader with a pong, its pinger with a ping,
  -- or `Run` with a message.
  pub one_writer :
      {s : Sessions M} (c : ℕ)
      → Reach start s
      → (if is_in_pong (s.connections c).reading then 1 else 0)
          + (if is_in_ping (s.connections c).pinging then 1 else 0)
          + (if writes_to s.hub_writes c then 1 else 0)
        ≤ 1
  one_writer {s} c r = one_holder (s.connections c) (counts s.hub c) _ (Reach-SessionsInv r c)
