-- ===== src/Hub/Sessions/Fine.antt =====
-- A connection that is in order, and what is left in order when one of them changes.
use monitoring_tool.Prelude.{
  ℕ, ◌≡◌, refl, sym, inl, inr, Bool, true, false, Option, none, some, ◌==◌, if◌then◌else◌, arith,
  Bool-cases,
}
use mathlib.Core.Path.{subst}
use monitoring_tool.Hub.Defs as Defs
use monitoring_tool.Hub.Defs.{
  Runner, writing, selecting, unregistering_self, returned, register, unregister, broadcasts,
  take_register, take_unregister, take_broadcast, write_ok, write_fails, round_over, cancel,
  see_cancel, has,
}
use monitoring_tool.Hub.Sessions.{
  Serving, absent, registering, served, Reading, not_reading, at_read, before_pong, in_pong,
  leaving, reader_returned, Pinging, not_pinging, at_tick, before_ping, in_ping, pinger_returned,
  Writer, the_reader, the_pinger, the_hub, Connection, Sessions, with_connection, with_hub,
  is_nobody,
}
use monitoring_tool.Hub.Sessions.Census.{Counts, counts, Census}

abbrev pub is_in_pong : Reading → Bool
is_in_pong in_pong = true
is_in_pong _ = false

abbrev pub is_served : Serving → Bool
is_served served = true
is_served _ = false

-- Its loop has begun and has not been left.
abbrev pub reads_now : Reading → Bool
reads_now at_read = true
reads_now before_pong = true
reads_now in_pong = true
reads_now _ = false

abbrev pub is_in_ping : Pinging → Bool
is_in_ping in_ping = true
is_in_ping _ = false

abbrev pub is_the_reader : Writer → Bool
is_the_reader the_reader = true
is_the_reader _ = false

abbrev pub is_the_pinger : Writer → Bool
is_the_pinger the_pinger = true
is_the_pinger _ = false

abbrev pub is_the_hub : Writer → Bool
is_the_hub the_hub = true
is_the_hub _ = false

-- `Run` is in a write to this client.
abbrev pub writes_to : Option ℕ → ℕ → Bool
writes_to none c = false
writes_to (some d) c = d == c

-- A connection with its counts in the hub, and whether `Run` writes to it.
pub record Fine (k : Connection) (n : Counts) (hub : Bool) : Type 0 where
  pub census : Census k.serving k.reading n
  pub reader_holds : is_the_reader k.writer ≡ is_in_pong k.reading
  pub pinger_holds : is_the_pinger k.writer ≡ is_in_ping k.pinging
  pub hub_holds : is_the_hub k.writer ≡ hub
  pub unpinged : is_served k.serving ≡ false → k.pinging ≡ not_pinging

-- A reader that is before its break has its client in the map.
pub serves_reader :
    (v : Serving) (r : Reading) (n : Counts)
    → Census v r n
    → reads_now r ≡ true
    → (v ≡ served) × Census served at_read n
serves_reader absent r n k h = ground (arith, k, h)
serves_reader registering r n k h = ground (arith, k, h)
serves_reader served at_read n k h = (refl, k)
serves_reader served before_pong n k h = (refl, k)
serves_reader served in_pong n k h = (refl, k)
serves_reader served not_reading n k h = cc
serves_reader served leaving n k h = cc
serves_reader served reader_returned n k h = cc

pub as_reader :
    (r : Reading) (n : Counts) → Census served at_read n → reads_now r ≡ true → Census served r n
as_reader r n k h = ground (arith, k, h)

abbrev pub both_read : Reading → Reading → Bool
both_read q r = if reads_now q then reads_now r else false

pub still_reads :
    (v : Serving) (q r : Reading) (n : Counts) → Census v q n → both_read q r ≡ true → Census v r n
still_reads v q r n k h =
    let (eq, m) = serves_reader v q n k (ground (arith, h)) in
    subst (λ v. Census v r n) (sym eq) (as_reader r n m (ground (arith, h)))

pub has_left :
    (v : Serving) (r : Reading) (n : Counts)
    → Census v r n
    → r ≡ leaving
    → n.unregistering ≡ 0
    → Census v reader_returned n
has_left v r n k at gone = ground (arith, k, at, gone)

pub free_pinger : (w : Writer) → is_nobody w ≡ true → false ≡ is_the_pinger w
free_pinger w h = ground arith

pub free_hub : (w : Writer) → is_nobody w ≡ true → false ≡ is_the_hub w
free_hub w h = ground arith

pub reader_pinger : (w : Writer) → is_the_reader w ≡ true → false ≡ is_the_pinger w
reader_pinger w h = ground arith

pub reader_hub : (w : Writer) → is_the_reader w ≡ true → false ≡ is_the_hub w
reader_hub w h = ground arith

pub free_reader : (w : Writer) → is_nobody w ≡ true → false ≡ is_the_reader w
free_reader w h = ground arith

pub pinger_reader : (w : Writer) → is_the_pinger w ≡ true → false ≡ is_the_reader w
pinger_reader w h = ground arith

pub pinger_hub : (w : Writer) → is_the_pinger w ≡ true → false ≡ is_the_hub w
pinger_hub w h = ground arith

pub hub_reader : (w : Writer) → is_the_hub w ≡ true → false ≡ is_the_reader w
hub_reader w h = ground arith

pub hub_pinger : (w : Writer) → is_the_hub w ≡ true → false ≡ is_the_pinger w
hub_pinger w h = ground arith

abbrev pub is_pinging : Pinging → Bool
is_pinging at_tick = true
is_pinging before_ping = true
is_pinging in_ping = true
is_pinging _ = false

pub not_in_ping : (b : Bool) → false ≡ is_in_ping (if b then before_ping else pinger_returned)
not_in_ping b = ground arith

pub after_ping : (b : Bool) → false ≡ is_in_ping (if b then at_tick else pinger_returned)
after_ping b = ground arith

pub same_number : (c : ℕ) → (c == c) ≡ true
same_number c = ground arith

module _ {M : Type 0} where
  abbrev pub SessionsInv : Sessions M → Type 0
  SessionsInv s = (c : ℕ) → Fine (s.connections c) (counts s.hub c) (writes_to s.hub_writes c)

  -- One connection changes, with what the hub counts of it.
  pub changes :
      (s : Sessions M) (c : ℕ) (k : Connection) (h : Defs.System M) (w : Option ℕ)
      → SessionsInv s
      → Fine k (counts h c) (writes_to w c)
      → ((d : ℕ) → (c == d) ≡ false → counts h d ≡ counts s.hub d)
      → ((d : ℕ) → (c == d) ≡ false → writes_to w d ≡ writes_to s.hub_writes d)
      → SessionsInv (record (with_connection s c k) { hub = h; hub_writes = w })
  changes s c k h w inv new same still d = elim (Bool-cases (c == d)) [
    | inl hit ↦
        let eq : c ≡ d = ground (arith, hit) in
        rw hit (subst (λ d. Fine k (counts h d) (writes_to w d)) eq new)
    | inr miss ↦ rw miss (rw (same d miss) (rw (still d miss) (inv d)))
  ]

  -- Only the connection changes.
  pub connection_changes :
      (s : Sessions M) (c : ℕ) (k : Connection)
      → SessionsInv s
      → Fine k (counts s.hub c) (writes_to s.hub_writes c)
      → SessionsInv (with_connection s c k)
  connection_changes s c k inv new =
      changes s c k s.hub s.hub_writes inv new (λ d miss. refl) (λ d miss. refl)

  pub with_hub-some :
      (s : Sessions M) (o : Option (Defs.System M)) {t : Sessions M}
      → with_hub s o ≡ some t
      → (h : Defs.System M) × (o ≡ some h) × (record s { hub = h } ≡ t)
  with_hub-some s (some h) e = (h, refl, cc)
  with_hub-some s none e = cc

  -- The connection stands at a call that its goroutine has just made.
  pub calls :
      (s : Sessions M) (c : ℕ) (k : Connection) (a : Defs.Action M) {t : Sessions M}
      → SessionsInv s
      → ((h : Defs.System M)
          → Defs.step s.hub a ≡ some h
          → Fine k (counts h c) (writes_to s.hub_writes c))
      → ((h : Defs.System M)
          → Defs.step s.hub a ≡ some h
          → (d : ℕ) → (c == d) ≡ false
          → counts h d ≡ counts s.hub d)
      → with_hub (with_connection s c k) (Defs.step s.hub a) ≡ some t
      → SessionsInv t
  calls s c k a inv new same e =
      let (h, on, eq) = with_hub-some (with_connection s c k) _ e in
      subst SessionsInv eq
        (changes s c k h s.hub_writes inv (new h on) (same h on) (λ d miss. refl))
