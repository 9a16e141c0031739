-- ===== src/Hub/Invariant.antt =====
-- What holds of the hub at every moment, whatever the order of the goroutines.
use monitoring_tool.Prelude.{
  ℕ, ◌+◌, ◌≤◌, ◌≡◌, refl, inl, inr, true, false, List, [], ◌∷◌, ◌++◌, some, arith, length,
  length-append, count_by, ◌==◌, append-cons, append_assoc, if◌then◌else◌,
}
use monitoring_tool.Channel.Pick.{pick-Picks}
use monitoring_tool.Hub.Defs.{
  Runner, writing, unregistering_self, System, Action, register, unregister, broadcasts,
  take_register, take_unregister, take_broadcast, write_ok, write_fails, round_over, cancel,
  see_cancel, step, Reach, here, next, has, remove, start,
}

-- How often a client stands in a list.
abbrev pub count : ℕ → List ℕ → ℕ
count c xs = count_by (λ x. c == x) xs

pub count-eq-zero : (c : ℕ) (xs : List ℕ) → has c xs ≡ false → count c xs ≡ 0
count-eq-zero c [] h = refl
count-eq-zero c (x ∷ xs) h = ground (arith, count-eq-zero c xs)

pub count-pos : (c : ℕ) (xs : List ℕ) → has c xs ≡ true → 1 ≤ count c xs
count-pos c [] h = cc
count-pos c (x ∷ xs) h = ground (arith, count-pos c xs)

pub count-remove :
    (c d : ℕ) (xs : List ℕ) → count d (remove c xs) ≡ (if c == d then 0 else count d xs)
unfolding remove
count-remove c d [] = ground arith
count-remove c d (x ∷ xs) = ground (arith, count-remove c d xs)

module _ {M : Type 0} where
  -- The clients of the running message that are still to be written to.
  abbrev pub left : Runner M → List ℕ
  left (writing m rest) = rest
  left _ = []

  abbrev pub Round : Runner M → System M → ℕ → Type 0
  Round (unregistering_self c) s d = Unit {0}
  Round r s d = count d s.snapshot ≡ count d s.written + count d (left r)

  pub record HubInv (s : System M) : Type 0 where
    -- a client is in the map at most once
    pub unique : (c : ℕ) → count c s.hub.clients ≤ 1
    pub copied : (c : ℕ) → count c s.snapshot ≤ 1
    pub bounded : length s.hub.broadcast.buffer ≤ s.hub.broadcast.capacity
    pub open_chan : s.hub.broadcast.closed ≡ false
    -- messages are taken in the order in which they were put on the channel
    pub fifo : s.queued ≡ s.taken ++ s.hub.broadcast.buffer
    -- each client of the copy has been written to once, or is still to be
    pub round : (c : ℕ) → Round s.runner s c

  take_register-HubInv :
      (s : System M) (i : ℕ) {t : System M}
      → HubInv s
      → step s (take_register i) ≡ some t
      → HubInv t
  unfolding step
  take_register-HubInv s i inv e = elim (pick-Picks i s.registering) [
    | inl none_left ↦ ground arith
    | inr (x, rest, p, l, k) ↦ record {
      unique = λ c. ground (arith, inv.unique c, count-eq-zero c s.hub.clients);
      copied = λ c. ground (arith, inv.copied c, inv.unique c);
      bounded = ground arith;
      open_chan = ground arith;
      fifo = ground arith;
      round = λ c. ground (arith, inv.round c);
    }
  ]

  take_unregister-HubInv :
      (s : System M) (i : ℕ) {t : System M}
      → HubInv s
      → step s (take_unregister i) ≡ some t
      → HubInv t
  unfolding step
  take_unregister-HubInv s i inv e = elim (pick-Picks i s.unregistering) [
    | inl none_left ↦ ground arith
    | inr (x, rest, p, l, k) ↦ record {
      unique = λ c. ground (arith, inv.unique c, count-remove x c s.hub.clients);
      copied = λ c. ground (arith, inv.copied c, inv.unique c);
      bounded = ground arith;
      open_chan = ground arith;
      fifo = ground arith;
      round = λ c. ground (arith, inv.round c);
    }
  ]

  take_broadcast-HubInv :
      (s : System M) (ms : List M) {t : System M}
      → HubInv s
      → s.hub.broadcast.buffer ≡ ms
      → step s take_broadcast ≡ some t
      → HubInv t
  unfolding step
  take_broadcast-HubInv s [] inv b e = ground arith
  take_broadcast-HubInv s (m ∷ ms) inv b e = record {
    unique = λ c. ground (arith, inv.unique c);
    copied = λ c. ground (arith, inv.copied c, inv.unique c);
    bounded = ground arith;
    open_chan = ground arith;
    fifo = ground (arith, append-cons s.taken m ms);
    round = λ c. ground arith;
  }

  write_ok-HubInv :
      (s : System M) (i : ℕ) (r : Runner M) {t : System M}
      → HubInv s
      → s.runner ≡ r
      → step s (write_ok i) ≡ some t
      → HubInv t
  unfolding step
  write_ok-HubInv s i (writing m rest) inv q e = elim (pick-Picks i rest) [
    | inl none_left ↦ ground arith
    | inr (x, others, p, l, k) ↦ record {
      unique = λ c. ground (arith, inv.unique c);
      copied = λ c. ground (arith, inv.copied c, inv.unique c);
      bounded = ground arith;
      open_chan = ground arith;
      fifo = ground arith;
      round = λ c. ground (arith, inv.round c, k (λ y. c == y));
    }
  ]
  write_ok-HubInv s i r inv q e = ground arith

  write_fails-HubInv :
      (s : System M) (i : ℕ) (r : Runner M) {t : System M}
      → HubInv s
      → s.runner ≡ r
      → step s (write_fails i) ≡ some t
      → HubInv t
  unfolding step
  write_fails-HubInv s i (writing m rest) inv q e = elim (pick-Picks i rest) [
    | inl none_left ↦ ground arith
    | inr (x, others, p, l, k) ↦ record {
      unique = λ c. ground (arith, inv.unique c);
      copied = λ c. ground (arith, inv.copied c, inv.unique c);
      bounded = ground arith;
      open_chan = ground arith;
      fifo = ground arith;
      round = λ c. ground arith;
    }
  ]
  write_fails-HubInv s i r inv q e = ground arith

  pub step-HubInv :
      (s : System M) (a : Action M) {t : System M} → HubInv s → step s a ≡ some t → HubInv t
  unfolding step
  step-HubInv s (register c) inv e = ground arith
  step-HubInv s (unregister c) inv e = ground arith
  step-HubInv s (broadcasts m) inv e = ground (
    arith,
    length-append s.hub.broadcast.buffer (m ∷ []),
    append_assoc s.taken s.hub.broadcast.buffer (m ∷ []),
  )
  step-HubInv s cancel inv e = ground arith
  step-HubInv s (take_register i) inv e = take_register-HubInv s i inv e
  step-HubInv s (take_unregister i) inv e = take_unregister-HubInv s i inv e
  step-HubInv s take_broadcast inv e = take_broadcast-HubInv s s.hub.broadcast.buffer inv refl e
  step-HubInv s (write_ok i) inv e = write_ok-HubInv s i s.runner inv refl e
  step-HubInv s (write_fails i) inv e = write_fails-HubInv s i s.runner inv refl e
  step-HubInv s round_over inv e = ground arith
  step-HubInv s see_cancel inv e = ground arith

  pub start-HubInv : HubInv start
  unfolding start
  start-HubInv = ground arith

  -- In every order of the goroutines: a client is in the map at most once, the broadcast channel
  -- stays within its capacity and is never closed, messages are taken in the order in which they
  -- were put on the channel and none is lost between, and, while no write has failed, each client
  -- of the copy made for the last message has been written to once or is still to be.
  pub Reach-HubInv : {s : System M} → Reach start s → HubInv s
  Reach-HubInv here = start-HubInv
  Reach-HubInv (next {t = m} a r e) = step-HubInv m a (Reach-HubInv r) e

  round_over-step :
      (s : System M) {t : System M}
      → HubInv s
      → step s round_over ≡ some t
      → (c : ℕ) → count c t.written ≡ count c t.snapshot
  unfolding step
  round_over-step s inv e c = ground (arith, inv.round c)

  -- When `Run` has gone through the clients of a message without a failed write, every client that
  -- was in the map when it took the message has been written to exactly once, and nobody else.
  pub round_over_delivers :
      {s t : System M}
      → Reach start s
      → step s round_over ≡ some t
      → (c : ℕ) → count c t.written ≡ (if has c t.snapshot then 1 else 0)
  round_over_delivers {s} {t} r e c = ground (
    arith,
    round_over-step s (Reach-HubInv r) e c,
    (Reach-HubInv (next round_over r e)).copied c,
    count-eq-zero c t.snapshot,
    count-pos c t.snapshot,
  )
