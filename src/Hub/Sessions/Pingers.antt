-- ===== src/Hub/Sessions/Pingers.antt =====
-- The steps of the pinger of a connection.
use monitoring_tool.Prelude.{
  ℕ, ◌≡◌, refl, ◌∙◌, ap, inl, inr, Bool, true, some, if◌then◌else◌, arith, Bool-cases, some_same,
  then_some,
}
use mathlib.Core.Path.{subst}
use monitoring_tool.Hub.Defs.{has}
use monitoring_tool.Hub.Sessions.{
  Pinging, not_pinging, at_tick, before_ping, in_ping, pinger_returned, Writer, nobody, the_pinger,
  Sessions, with_connection, ticks_on, locks_ping, ends_ping, is_nobody,
}
use monitoring_tool.Hub.Sessions.Fine.{
  SessionsInv, after_ping, connection_changes, free_hub, free_reader, is_in_ping, is_pinging,
  is_served, is_the_hub, is_the_pinger, is_the_reader, not_in_ping, pinger_hub, pinger_reader,
}

module _ {M : Type 0} where
  -- The pinger moves on.
  pub on_pinging :
      (s : Sessions M) (c : ℕ) (q : Pinging) (w : Writer)
      → SessionsInv s
      → is_served (s.connections c).serving ≡ true
      → is_the_pinger w ≡ is_in_ping q
      → is_the_reader w ≡ is_the_reader (s.connections c).writer
      → is_the_hub w ≡ is_the_hub (s.connections c).writer
      → SessionsInv (with_connection s c (record (s.connections c) { pinging = q; writer = w }))
  on_pinging s c q w inv at a b d =
      connection_changes s c (record (s.connections c) { pinging = q; writer = w }) inv
        (record {
          census = (inv c).census;
          reader_holds = b ∙ (inv c).reader_holds;
          pinger_holds = a;
          hub_holds = d ∙ (inv c).hub_holds;
          unpinged = λ h. ground (arith, h, at);
        })

  pub pings_now :
      (s : Sessions M) (c : ℕ) (q : Pinging)
      → SessionsInv s
      → (s.connections c).pinging ≡ q
      → is_pinging q ≡ true
      → is_served (s.connections c).serving ≡ true
  pings_now s c q inv at h = elim (Bool-cases (is_served (s.connections c).serving)) [
    | inl up ↦ up
    | inr down ↦ ground (arith, (inv c).unpinged down, at, h)
  ]

  pub ticks_on-SessionsInv :
      (s : Sessions M) (c : ℕ) (q : Pinging) {t : Sessions M}
      → SessionsInv s
      → (s.connections c).pinging ≡ q
      → ticks_on s c (s.connections c) q ≡ some t
      → SessionsInv t
  ticks_on-SessionsInv s c at_tick inv at e =
      let next_place = if has c s.hub.hub.clients then before_ping else pinger_returned in
      subst SessionsInv (some_same e) (
        on_pinging s c next_place (s.connections c).writer inv (pings_now s c at_tick inv at refl)
          ((inv c).pinger_holds ∙ ap is_in_ping at ∙ not_in_ping (has c s.hub.hub.clients)) refl
          refl)
  ticks_on-SessionsInv s c not_pinging inv at e = cc
  ticks_on-SessionsInv s c before_ping inv at e = cc
  ticks_on-SessionsInv s c in_ping inv at e = cc
  ticks_on-SessionsInv s c pinger_returned inv at e = cc

  pub locks_ping-SessionsInv :
      (s : Sessions M) (c : ℕ) (q : Pinging) {t : Sessions M}
      → SessionsInv s
      → (s.connections c).pinging ≡ q
      → locks_ping s c (s.connections c) q ≡ some t
      → SessionsInv t
  locks_ping-SessionsInv s c before_ping inv at e =
      let (free, f) = then_some (is_nobody (s.connections c).writer) _ e in
      subst SessionsInv (some_same f) (
        on_pinging s c in_ping the_pinger inv (pings_now s c before_ping inv at refl) refl
          (free_reader _ free) (free_hub _ free))
  locks_ping-SessionsInv s c not_pinging inv at e = cc
  locks_ping-SessionsInv s c at_tick inv at e = cc
  locks_ping-SessionsInv s c in_ping inv at e = cc
  locks_ping-SessionsInv s c pinger_returned inv at e = cc

  pub ends_ping-SessionsInv :
      (s : Sessions M) (c : ℕ) (q : Pinging) (ok : Bool) {t : Sessions M}
      → SessionsInv s
      → (s.connections c).pinging ≡ q
      → ends_ping s c (s.connections c) q ok ≡ some t
      → SessionsInv t
  ends_ping-SessionsInv s c in_ping ok inv at e =
      let held = (inv c).pinger_holds ∙ ap is_in_ping at in
      subst SessionsInv (some_same e) (
        on_pinging s c (if ok then at_tick else pinger_returned) nobody inv
          (pings_now s c in_ping inv at refl) (after_ping ok) (pinger_reader _ held)
          (pinger_hub _ held))
  ends_ping-SessionsInv s c not_pinging ok inv at e = cc
  ends_ping-SessionsInv s c at_tick ok inv at e = cc
  ends_ping-SessionsInv s c before_ping ok inv at e = cc
  ends_ping-SessionsInv s c pinger_returned ok inv at e = cc
