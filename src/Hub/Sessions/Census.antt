-- ===== src/Hub/Sessions/Census.antt =====
-- Where a client stands in the hub while its connection stands here, at every moment.
use monitoring_tool.Prelude.{
  ℕ, ◌+◌, ◌≡◌, refl, sym, inl, inr, Bool, true, false, [], ◌∷◌, some, ◌==◌, count_by-append,
  if◌then◌else◌, arith,
}
use mathlib.Core.Path.{subst}
use monitoring_tool.Channel.Pick.{pick-Picks}
use monitoring_tool.Hub.Defs as Defs
use monitoring_tool.Hub.Defs.{register, unregister, take_register, take_unregister, remove, has}
use monitoring_tool.Hub.Invariant.{count, count-eq-zero, count-pos, count-remove}
use monitoring_tool.Hub.Sessions.{
  Serving, absent, registering, served, Reading, not_reading, leaving, reader_returned, is_call,
}

-- How often a client stands in the map, in the list of those whose connection was closed, and in
-- the two calls that wait for `Run`.
pub record Counts : Type 0 where
  pub clients : ℕ
  pub closed : ℕ
  pub registering : ℕ
  pub unregistering : ℕ

abbrev pub counts : {M : Type 0} → Defs.System M → ℕ → Counts
counts h c = record {
  clients = count c h.hub.clients;
  closed = count c h.closed;
  registering = count c h.registering;
  unregistering = count c h.unregistering;
}

abbrev pub Census : Serving → Reading → Counts → Type 0
Census absent r n =
    (r ≡ not_reading)
    × (n.clients ≡ 0)
    × (n.closed ≡ 0)
    × (n.registering ≡ 0)
    × (n.unregistering ≡ 0)
Census registering r n =
    (r ≡ not_reading) × (n.clients + n.registering ≡ 1) × (n.closed ≡ 0) × (n.unregistering ≡ 0)
Census served not_reading n = ⊥
Census served leaving n =
    (n.clients ≡ n.unregistering) × (n.clients + n.closed ≡ 1) × (n.registering ≡ 0)
Census served reader_returned n =
    (n.clients ≡ 0) × (n.closed ≡ 1) × (n.registering ≡ 0) × (n.unregistering ≡ 0)
Census served _ n = (n.clients ≡ 1) × (n.closed ≡ 0) × (n.registering ≡ 0) × (n.unregistering ≡ 0)

module _ {M : Type 0} where
  -- What an action of the hub does to the counts of a client.
  pub register-counts :
      (h : Defs.System M) (c d : ℕ) {t : Defs.System M}
      → Defs.step h (register c) ≡ some t
      → counts t d
        ≡ record (counts h d) { registering = count d h.registering + (if d == c then 1 else 0) }
  unfolding Defs.step
  register-counts h c d e = ground (arith, count_by-append (λ x. d == x) h.registering (c ∷ []))

  pub unregister-counts :
      (h : Defs.System M) (c d : ℕ) {t : Defs.System M}
      → Defs.step h (unregister c) ≡ some t
      → counts t d ≡ record (counts h d) {
        unregistering = count d h.unregistering + (if d == c then 1 else 0);
      }
  unfolding Defs.step
  unregister-counts h c d e = ground (arith, count_by-append (λ x. d == x) h.unregistering (c ∷ []))

  abbrev takes_call : Defs.Action M → Bool
  takes_call (take_register i) = true
  takes_call (take_unregister i) = true
  takes_call _ = false

  still-counts :
      (h : Defs.System M) (a : Defs.Action M) (d : ℕ) {t : Defs.System M}
      → is_call a ≡ false
      → takes_call a ≡ false
      → Defs.step h a ≡ some t
      → counts t d ≡ counts h d
  unfolding Defs.step
  still-counts h a d k l e = ground arith

  take_register-Census :
      (h : Defs.System M) (i d : ℕ) (v : Serving) (r : Reading) {t : Defs.System M}
      → Defs.step h (take_register i) ≡ some t
      → Census v r (counts h d)
      → Census v r (counts t d)
  unfolding Defs.step
  take_register-Census h i d v r e k = elim (pick-Picks i h.registering) [
    | inl none_left ↦ ground arith
    | inr (c, rest, got, _, n) ↦
        ground
          (arith, got, n (λ x. d == x), count-eq-zero c h.hub.clients, count-pos c h.hub.clients)
  ]

  take_unregister-Census :
      (h : Defs.System M) (i d : ℕ) (v : Serving) (r : Reading) {t : Defs.System M}
      → Defs.step h (take_unregister i) ≡ some t
      → Census v r (counts h d)
      → Census v r (counts t d)
  unfolding Defs.step
  take_unregister-Census h i d v r e k = elim (pick-Picks i h.unregistering) [
    | inl none_left ↦ ground arith
    | inr (c, rest, got, _, n) ↦ ground (
      arith,
      got,
      n (λ x. d == x),
      count-eq-zero c h.hub.clients,
      count-pos c h.hub.clients,
      count-remove c d h.hub.clients,
    )
  ]

  pub step-Census :
      (h : Defs.System M) (a : Defs.Action M) (d : ℕ) (v : Serving) (r : Reading)
      {t : Defs.System M}
      → is_call a ≡ false
      → Defs.step h a ≡ some t
      → Census v r (counts h d)
      → Census v r (counts t d)
  step-Census h (take_register i) d v r k e n = take_register-Census h i d v r e n
  step-Census h (take_unregister i) d v r k e n = take_unregister-Census h i d v r e n
  step-Census h (register c) d v r k e n = cc
  step-Census h (unregister c) d v r k e n = cc
  step-Census h a d v r k e n = subst (Census v r) (sym (still-counts h a d k refl e)) n
