-- ===== src/Hub/Sessions/Runs.antt =====
-- Runs of the connections as the hub sees them, and what a stuck hub does to them.
use monitoring_tool.Prelude.{
  ℕ, ◌≡◌, refl, ◌∙◌, ap, sym, inl, inr, Bool, true, false, String, str_eq, Option, none, some, ◌==◌,
  ◌⊎◌, arith, Bool-cases, Option-cases, some_same, then_some, if_then, if_else,
}
use mathlib.Core.Path.{subst}
use monitoring_tool.Channel.{pick}
use monitoring_tool.Hub.Defs as Defs
use monitoring_tool.Hub.Defs.{
  Runner, writing, unregistering_self, register, unregister, write_ok, write_fails, has,
}
use monitoring_tool.Hub.Deadlock.{stuck_forever}
use monitoring_tool.Hub.Invariant.{count}
use monitoring_tool.Hub.Sessions.{
  Serving, absent, registering, served, Reading, leaving, nobody, at_read, in_pong, reader_returned,
  Connection, Sessions, Action, accepts, hub_act, hub_locks, begins_loops, reads, pong_locks,
  pong_over, left, ticks, ping_locks, ping_over, with_connection, with_hub, accepts_client,
  read_message, reads_on, ends_pong, ends_write, over, hub_step, step, start, Reach, here, next,
}
use monitoring_tool.Hub.Sessions.Census.{Counts, counts, Census}
use monitoring_tool.Hub.Sessions.Fine.{with_hub-some, is_served, reads_now}
use monitoring_tool.Hub.Sessions.Safety.{Reach-SessionsInv}

abbrev makes_no_call : {M : Type 0} → Action M → Bool
makes_no_call (hub_locks i) = true
makes_no_call (begins_loops c) = true
makes_no_call (pong_locks c) = true
makes_no_call (left c) = true
makes_no_call (ticks c) = true
makes_no_call (ping_locks c) = true
makes_no_call (ping_over c ok) = true
makes_no_call _ = false

abbrev pub is_returned : Reading → Bool
is_returned reader_returned = true
is_returned _ = false

-- Two moments between which the hub's map and the closed connections stay as they are.
hangs :
    (v w : Serving) (q r : Reading) (m n : Counts)
    → Census v q m
    → Census w r n
    → n.clients ≡ m.clients
    → n.closed ≡ m.closed
    → (v ≡ absent → is_served w ≡ false) × (reads_now q ≡ true → is_returned r ≡ false)
hangs v w q r m n k l a b = ground (arith, k, l, a, b)

module _ {M : Type 0} where
  -- What a step of the connections is for the hub: one of its steps, or none.
  abbrev Seen : Defs.System M → Defs.System M → Type 0
  Seen h k = (k ≡ h) ⊎ ((a : Defs.Action M) × (Defs.step h a ≡ some k))

  with_hub-Seen :
      (s : Sessions M) (h : Defs.System M) (a : Defs.Action M) {t : Sessions M}
      → with_hub s (Defs.step h a) ≡ some t
      → Seen h t.hub
  with_hub-Seen s h a e =
      let (k, on, eq) = with_hub-some s _ e in inr (a, on ∙ ap (λ t. some t.hub) eq)

  over-Seen :
      (s : Sessions M) (a : Defs.Action M) (i : ℕ) (w : Option ℕ) (r : Runner M) {t : Sessions M}
      → over s a i w r ≡ some t
      → Seen s.hub t.hub
  over-Seen s a i (some c) (writing m rest) e = elim (Option-cases (pick i rest)) [
    | inl nothing_left ↦ cc (ap (ends_write s a c) (sym nothing_left) ∙ e)
    | inr ((d, others), got) ↦
        let (_, f) = then_some (c == d) _ (ap (ends_write s a c) (sym got) ∙ e) in
        with_hub-Seen
          (record (with_connection s c (record (s.connections c) { writer = nobody })) {
            hub_writes = none;
          })
          s.hub a f
  ]
  over-Seen s a i w r e = cc

  hub_step-Seen :
      (s : Sessions M) (a : Defs.Action M) {t : Sessions M}
      → hub_step s a ≡ some t
      → Seen s.hub t.hub
  hub_step-Seen s (write_ok i) e = over-Seen s (write_ok i) i s.hub_writes s.hub.runner e
  hub_step-Seen s (write_fails i) e = over-Seen s (write_fails i) i s.hub_writes s.hub.runner e
  hub_step-Seen s (register c) e = cc
  hub_step-Seen s (unregister c) e = cc
  hub_step-Seen s a e = with_hub-Seen s s.hub a e

  accepts-Seen :
      (s : Sessions M) (c : ℕ) (k : Connection) (v : Serving) {t : Sessions M}
      → accepts_client s c k v ≡ some t
      → Seen s.hub t.hub
  accepts-Seen s c k absent e =
      with_hub-Seen (with_connection s c (record k { serving = registering })) s.hub (register c) e
  accepts-Seen s c k registering e = cc
  accepts-Seen s c k served e = cc

  read_message-Seen :
      (s : Sessions M) (c : ℕ) (k : Connection) (m : Option (Option String)) {t : Sessions M}
      → read_message s c k m ≡ some t
      → Seen s.hub t.hub
  read_message-Seen s c k none e =
      with_hub-Seen (with_connection s c (record k { reading = leaving })) s.hub (unregister c) e
  read_message-Seen s c k (some none) e = inl (ap (λ t. t.hub) (sym (some_same e)))
  read_message-Seen s c k (some (some kind)) e = elim (Bool-cases (str_eq kind "ping")) [
    | inl ping ↦ inl (ap (λ t. t.hub) (sym (sym (if_then _ _ _ ping) ∙ some_same e)))
    | inr other ↦ inl (ap (λ t. t.hub) (sym (sym (if_else _ _ _ other) ∙ some_same e)))
  ]

  reads_on-Seen :
      (s : Sessions M) (c : ℕ) (k : Connection) (r : Reading) (m : Option (Option String))
      {t : Sessions M}
      → reads_on s c k r m ≡ some t
      → Seen s.hub t.hub
  reads_on-Seen s c k at_read m e = read_message-Seen s c k m e
  reads_on-Seen s c k r m e = cc

  ends_pong-Seen :
      (s : Sessions M) (c : ℕ) (k : Connection) (r : Reading) (ok : Bool) {t : Sessions M}
      → ends_pong s c k r ok ≡ some t
      → Seen s.hub t.hub
  ends_pong-Seen s c k in_pong true e = inl (ap (λ t. t.hub) (sym (some_same e)))
  ends_pong-Seen s c k in_pong false e =
      with_hub-Seen (with_connection s c (record k { reading = leaving; writer = nobody })) s.hub
        (unregister c) e
  ends_pong-Seen s c k r ok e = cc

  -- A step of a connection that makes no call.
  apart :
      (s : Sessions M) (a : Action M) {t : Sessions M}
      → makes_no_call a ≡ true
      → step s a ≡ some t
      → t.hub ≡ s.hub
  unfolding step
  apart s a h e = ground arith

  step-Seen :
      (s : Sessions M) (a : Action M) {t : Sessions M} → step s a ≡ some t → Seen s.hub t.hub
  unfolding step
  step-Seen s (accepts c) e = accepts-Seen s c (s.connections c) _ e
  step-Seen s (hub_act a) e = hub_step-Seen s a e
  step-Seen s (reads c m) e = reads_on-Seen s c (s.connections c) _ m e
  step-Seen s (pong_over c ok) e = ends_pong-Seen s c (s.connections c) _ ok e
  step-Seen s (hub_locks i) e = inl (apart s (hub_locks i) refl e)
  step-Seen s (begins_loops c) e = inl (apart s (begins_loops c) refl e)
  step-Seen s (pong_locks c) e = inl (apart s (pong_locks c) refl e)
  step-Seen s (left c) e = inl (apart s (left c) refl e)
  step-Seen s (ticks c) e = inl (apart s (ticks c) refl e)
  step-Seen s (ping_locks c) e = inl (apart s (ping_locks c) refl e)
  step-Seen s (ping_over c ok) e = inl (apart s (ping_over c ok) refl e)

  follow : {g h k : Defs.System M} → Defs.Reach g h → Seen h k → Defs.Reach g k
  follow {g = g} run (inl same) = subst (Defs.Reach g) (sym same) run
  follow run (inr (a, on)) = Defs.next a run on

  -- Any run of the hub with its connections is a run of the hub, in which its callers come in any
  -- order: what holds of that one in every state holds here.
  pub hub-Reach : {s t : Sessions M} → Reach s t → Defs.Reach s.hub t.hub
  hub-Reach here = Defs.here
  hub-Reach (next {t = m} a r e) = follow (hub-Reach r) (step-Seen m a e)

  Reach-trans : {r s t : Sessions M} → Reach r s → Reach s t → Reach r t
  Reach-trans p here = p
  Reach-trans p (next a q e) = next a (Reach-trans p q) e

  -- Once `Run` stands in its own `unregister` after a failed write: a client that connects later is
  -- never served, since its `Register` does not return, and a reader that still reads never returns,
  -- since its `Unregister` does not.
  pub sessions_hang :
      {s t : Sessions M} (c d : ℕ)
      → Reach start s
      → s.hub.runner ≡ unregistering_self c
      → Reach s t
      → ((s.connections d).serving ≡ absent → is_served (t.connections d).serving ≡ false)
        × (reads_now (s.connections d).reading ≡ true
            → is_returned (t.connections d).reading ≡ false)
  sessions_hang {s} {t} c d r stuck on =
      let (_, map_same, closed_same, _, _) = stuck_forever c stuck (hub-Reach on) in
      let before = (Reach-SessionsInv r d).census in
      let now = (Reach-SessionsInv (Reach-trans r on) d).census in
      hangs _ _ _ _ (counts s.hub d) (counts t.hub d) before now (ap (count d) map_same)
        (ap (count d) closed_same)
