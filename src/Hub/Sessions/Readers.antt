-- ===== src/Hub/Sessions/Readers.antt =====
-- The steps of the handler and of the reader of a connection.
use monitoring_tool.Prelude.{
  ℕ, ◌≡◌, refl, ◌∙◌, ap, sym, inl, inr, Bool, true, false, Option, none, some, arith, Bool-cases,
  some_same, str_eq, String, then_some, else_some, if_then, if_else,
}
use mathlib.Core.Path.{subst}
use monitoring_tool.Hub.Defs.{register, unregister, has}
use monitoring_tool.Hub.Invariant.{count-eq-zero}
use monitoring_tool.Hub.Sessions.{
  Serving, absent, registering, served, Reading, not_reading, at_read, before_pong, in_pong,
  leaving, reader_returned, Writer, nobody, the_reader, Sessions, with_connection, breaks,
  accepts_client, loops_begin, read_message, reads_on, locks_pong, ends_pong, reader_returns,
  is_nobody,
}
use monitoring_tool.Hub.Sessions.Census.{counts, Census, register-counts, unregister-counts}
use monitoring_tool.Hub.Sessions.Fine.{
  SessionsInv, both_read, calls, connection_changes, free_hub, free_pinger, has_left, is_in_ping,
  is_in_pong, is_served, is_the_hub, is_the_pinger, is_the_reader, reader_hub, reader_pinger,
  reads_now, serves_reader, still_reads,
}

module _ {M : Type 0} where
  pub accepts-SessionsInv :
      (s : Sessions M) (c : ℕ) (v : Serving) {t : Sessions M}
      → SessionsInv s
      → (s.connections c).serving ≡ v
      → accepts_client s c (s.connections c) v ≡ some t
      → SessionsInv t
  accepts-SessionsInv s c absent inv at e =
      calls s c (record (s.connections c) { serving = registering }) (register c) inv
        (λ h on. record {
          census = ground (arith, at, (inv c).census, register-counts s.hub c c on);
          reader_holds = (inv c).reader_holds;
          pinger_holds = (inv c).pinger_holds;
          hub_holds = (inv c).hub_holds;
          unpinged = λ h. (inv c).unpinged (ap is_served at);
        })
        (λ h on d miss. ground (arith, register-counts s.hub c d on, miss)) e
  accepts-SessionsInv s c registering inv at e = cc
  accepts-SessionsInv s c served inv at e = cc

  pub breaks-SessionsInv :
      (s : Sessions M) (c : ℕ) (w : Writer) {t : Sessions M}
      → SessionsInv s
      → (s.connections c).serving ≡ served
      → Census served at_read (counts s.hub c)
      → is_the_reader w ≡ false
      → is_the_pinger w ≡ is_the_pinger (s.connections c).writer
      → is_the_hub w ≡ is_the_hub (s.connections c).writer
      → breaks s c (record (s.connections c) { writer = w }) ≡ some t
      → SessionsInv t
  breaks-SessionsInv s c w inv at n a b d e =
      calls s c (record (s.connections c) { writer = w; reading = leaving }) (unregister c) inv
        (λ h on. record {
          census = ground (arith, at, n, unregister-counts s.hub c c on);
          reader_holds = a;
          pinger_holds = b ∙ (inv c).pinger_holds;
          hub_holds = d ∙ (inv c).hub_holds;
          unpinged = (inv c).unpinged;
        })
        (λ h on d miss. ground (arith, unregister-counts s.hub c d on, miss)) e

  pub loops_begin-SessionsInv :
      (s : Sessions M) (c : ℕ) (v : Serving) {t : Sessions M}
      → SessionsInv s
      → (s.connections c).serving ≡ v
      → loops_begin s c (s.connections c) v ≡ some t
      → SessionsInv t
  loops_begin-SessionsInv s c registering inv at e =
      let (gone, f) = else_some (has c s.hub.registering) _ e in
      subst SessionsInv (some_same f) (
        connection_changes s c _ inv (record {
          census = ground (arith, at, (inv c).census, count-eq-zero c s.hub.registering gone);
          reader_holds = ground (arith, at, (inv c).census, (inv c).reader_holds);
          pinger_holds = (inv c).pinger_holds ∙ ap is_in_ping ((inv c).unpinged (ap is_served at));
          hub_holds = (inv c).hub_holds;
          unpinged = λ h. cc;
        }))
  loops_begin-SessionsInv s c absent inv at e = cc
  loops_begin-SessionsInv s c served inv at e = cc

  -- The reader moves on, before its break.
  pub on_reading :
      (s : Sessions M) (c : ℕ) (r : Reading) (w : Writer) {q : Reading}
      → SessionsInv s
      → (s.connections c).reading ≡ q
      → both_read q r ≡ true
      → is_the_reader w ≡ is_in_pong r
      → is_the_pinger w ≡ is_the_pinger (s.connections c).writer
      → is_the_hub w ≡ is_the_hub (s.connections c).writer
      → SessionsInv (with_connection s c (record (s.connections c) { reading = r; writer = w }))
  on_reading s c r w {q = q} inv at h a b d =
      connection_changes s c (record (s.connections c) { reading = r; writer = w }) inv
        (record {
          census =
              still_reads _ _ r (counts s.hub c) (inv c).census (ap (λ q. both_read q r) at ∙ h);
          reader_holds = a;
          pinger_holds = b ∙ (inv c).pinger_holds;
          hub_holds = d ∙ (inv c).hub_holds;
          unpinged = (inv c).unpinged;
        })

  pub read_message-SessionsInv :
      (s : Sessions M) (c : ℕ) (m : Option (Option String)) {t : Sessions M}
      → SessionsInv s
      → (s.connections c).reading ≡ at_read
      → read_message s c (s.connections c) m ≡ some t
      → SessionsInv t
  read_message-SessionsInv s c none inv at e =
      let (v, n) = serves_reader _ _ (counts s.hub c) (inv c).census (ap reads_now at) in
      breaks-SessionsInv s c (s.connections c).writer inv v n
        ((inv c).reader_holds ∙ ap is_in_pong at) refl refl e
  read_message-SessionsInv s c (some none) inv at e = subst SessionsInv (some_same e) inv
  read_message-SessionsInv s c (some (some kind)) inv at e =
      elim (Bool-cases (str_eq kind "ping")) [
        | inl ping ↦ subst SessionsInv (sym (if_then _ _ _ ping) ∙ some_same e) (
            on_reading s c before_pong (s.connections c).writer inv at refl
              ((inv c).reader_holds ∙ ap is_in_pong at) refl refl)
        | inr other ↦ subst SessionsInv (sym (if_else _ _ _ other) ∙ some_same e) inv
      ]

  pub reads_on-SessionsInv :
      (s : Sessions M) (c : ℕ) (r : Reading) (m : Option (Option String)) {t : Sessions M}
      → SessionsInv s
      → (s.connections c).reading ≡ r
      → reads_on s c (s.connections c) r m ≡ some t
      → SessionsInv t
  reads_on-SessionsInv s c at_read m inv at e = read_message-SessionsInv s c m inv at e
  reads_on-SessionsInv s c not_reading m inv at e = cc
  reads_on-SessionsInv s c before_pong m inv at e = cc
  reads_on-SessionsInv s c in_pong m inv at e = cc
  reads_on-SessionsInv s c leaving m inv at e = cc
  reads_on-SessionsInv s c reader_returned m inv at e = cc

  pub locks_pong-SessionsInv :
      (s : Sessions M) (c : ℕ) (r : Reading) {t : Sessions M}
      → SessionsInv s
      → (s.connections c).reading ≡ r
      → locks_pong s c (s.connections c) r ≡ some t
      → SessionsInv t
  locks_pong-SessionsInv s c before_pong inv at e =
      let (free, f) = then_some (is_nobody (s.connections c).writer) _ e in
      subst SessionsInv (some_same f)
        (on_reading s c in_pong the_reader inv at refl refl (free_pinger _ free) (free_hub _ free))
  locks_pong-SessionsInv s c not_reading inv at e = cc
  locks_pong-SessionsInv s c at_read inv at e = cc
  locks_pong-SessionsInv s c in_pong inv at e = cc
  locks_pong-SessionsInv s c leaving inv at e = cc
  locks_pong-SessionsInv s c reader_returned inv at e = cc

  pub ends_pong-SessionsInv :
      (s : Sessions M) (c : ℕ) (r : Reading) (ok : Bool) {t : Sessions M}
      → SessionsInv s
      → (s.connections c).reading ≡ r
      → ends_pong s c (s.connections c) r ok ≡ some t
      → SessionsInv t
  ends_pong-SessionsInv s c in_pong true inv at e =
      let held = (inv c).reader_holds ∙ ap is_in_pong at in
      subst SessionsInv (some_same e)
        (on_reading s c at_read nobody inv at refl refl (reader_pinger _ held) (reader_hub _ held))
  ends_pong-SessionsInv s c in_pong false inv at e =
      let held = (inv c).reader_holds ∙ ap is_in_pong at in
      let (v, n) = serves_reader _ _ (counts s.hub c) (inv c).census (ap reads_now at) in
      breaks-SessionsInv s c nobody inv v n refl (reader_pinger _ held) (reader_hub _ held) e
  ends_pong-SessionsInv s c not_reading ok inv at e = cc
  ends_pong-SessionsInv s c at_read ok inv at e = cc
  ends_pong-SessionsInv s c before_pong ok inv at e = cc
  ends_pong-SessionsInv s c leaving ok inv at e = cc
  ends_pong-SessionsInv s c reader_returned ok inv at e = cc

  pub reader_returns-SessionsInv :
      (s : Sessions M) (c : ℕ) (r : Reading) {t : Sessions M}
      → SessionsInv s
      → (s.connections c).reading ≡ r
      → reader_returns s c (s.connections c) r ≡ some t
      → SessionsInv t
  reader_returns-SessionsInv s c leaving inv at e =
      let (gone, f) = else_some (has c s.hub.unregistering) _ e in
      subst SessionsInv (some_same f) (
        connection_changes s c (record (s.connections c) { reading = reader_returned }) inv
          (record {
            census =
                has_left _ _ (counts s.hub c) (inv c).census at
                  (count-eq-zero c s.hub.unregistering gone);
            reader_holds = (inv c).reader_holds ∙ ap is_in_pong at;
            pinger_holds = (inv c).pinger_holds;
            hub_holds = (inv c).hub_holds;
            unpinged = (inv c).unpinged;
          }))
  reader_returns-SessionsInv s c not_reading inv at e = cc
  reader_returns-SessionsInv s c at_read inv at e = cc
  reader_returns-SessionsInv s c before_pong inv at e = cc
  reader_returns-SessionsInv s c in_pong inv at e = cc
  reader_returns-SessionsInv s c reader_returned inv at e = cc
