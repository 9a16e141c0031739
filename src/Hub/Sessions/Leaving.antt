-- ===== src/Hub/Sessions/Leaving.antt =====
-- A browser that goes away: its goroutines return and its socket is closed.
use monitoring_tool.Prelude.{
  ℕ, ◌≡◌, refl, ◌∙◌, ap, inl, inr, true, false, List, [], ◌∷◌, ◌++◌, none, some, ◌==◌, length,
  arith, Bool-cases, if_then, if_else,
}
use monitoring_tool.Channel.Pick.{pick_last}
use monitoring_tool.Hub.Defs as Defs
use monitoring_tool.Hub.Defs.{selecting, take_unregister, has, remove}
use monitoring_tool.Hub.Invariant.{count, count-eq-zero, count-pos, count-remove}
use monitoring_tool.Hub.Sessions.{
  at_read, leaving, reader_returned, at_tick, pinger_returned, Connection, Sessions, hub_act, reads,
  left, ticks, with_connection, step, start, Reach, here, next,
}
use monitoring_tool.Hub.Sessions.Census.{counts}
use monitoring_tool.Hub.Sessions.Fine.{serves_reader, reads_now, same_number}
use monitoring_tool.Hub.Sessions.Safety.{Reach-SessionsInv}

has-count : (c : ℕ) (xs : List ℕ) → count c xs ≡ 1 → has c xs ≡ true
has-count c xs h = elim (Bool-cases (has c xs)) [
  | inl there ↦ there
  | inr absent ↦ ground (arith, h, count-eq-zero c xs absent)
]

has-none : (c : ℕ) (xs : List ℕ) → count c xs ≡ 0 → has c xs ≡ false
has-none c xs h = elim (Bool-cases (has c xs)) [
  | inl there ↦ ground (arith, h, count-pos c xs there)
  | inr absent ↦ absent
]

has-remove : (c : ℕ) (xs : List ℕ) → has c (remove c xs) ≡ false
has-remove c xs = has-none c (remove c xs) (count-remove c c xs ∙ rw (same_number c) refl)

module _ {M : Type 0} where
  -- The four moments after the last read of a connection.
  abbrev unregisters : Sessions M → ℕ → Sessions M
  unregisters s c = record (with_connection s c (record (s.connections c) { reading = leaving })) {
    hub = record s.hub { unregistering = s.hub.unregistering ++ c ∷ [] };
  }

  abbrev removed : Sessions M → ℕ → Sessions M
  removed s c = record (with_connection s c (record (s.connections c) { reading = leaving })) {
    hub = record s.hub {
      hub = record s.hub.hub { clients = remove c s.hub.hub.clients };
      closed = c ∷ s.hub.closed;
    };
  }

  breaks_off :
      (s : Sessions M) (c : ℕ)
      → (s.connections c).reading ≡ at_read
      → step s (reads c none) ≡ some (unregisters s c)
  unfolding step Defs.step
  breaks_off s c r = rw r refl

  is_removed :
      (s : Sessions M) (c : ℕ)
      → s.hub.runner ≡ selecting
      → has c s.hub.hub.clients ≡ true
      → step (unregisters s c) (hub_act (take_unregister (length s.hub.unregistering)))
        ≡ some (removed s c)
  unfolding step Defs.step
  is_removed s c r h = rw r (rw (pick_last s.hub.unregistering c) (rw h refl))

  reader_ends :
      (s : Sessions M) (c : ℕ)
      → (s.connections c).reading ≡ leaving
      → has c s.hub.unregistering ≡ false
      → step s (left c)
        ≡ some (with_connection s c (record (s.connections c) { reading = reader_returned }))
  unfolding step
  reader_ends s c r h = rw r (rw h refl)

  pinger_ends :
      (s : Sessions M) (c : ℕ)
      → (s.connections c).pinging ≡ at_tick
      → has c s.hub.hub.clients ≡ false
      → step s (ticks c)
        ≡ some (with_connection s c (record (s.connections c) { pinging = pinger_returned }))
  unfolding step
  pinger_ends s c p h = rw p (rw h refl)

  at_self : (s : Sessions M) (c : ℕ) (k : Connection) → (with_connection s c k).connections c ≡ k
  at_self s c k = if_then (c == c) _ _ (same_number c)

  at_other :
      (s : Sessions M) (c d : ℕ) (k : Connection)
      → (c == d) ≡ false
      → (with_connection s c k).connections d ≡ s.connections d
  at_other s c d k h = if_else (c == d) _ _ h

  -- Both goroutines of the client have returned and its socket is closed; the others are as before.
  abbrev pub Gone : Sessions M → Sessions M → ℕ → Type 0
  Gone s t c =
      ((t.connections c).reading ≡ reader_returned)
      × ((t.connections c).pinging ≡ pinger_returned)
      × (has c t.hub.hub.clients ≡ false)
      × (t.hub.closed ≡ c ∷ s.hub.closed)
      × ((d : ℕ)
          → (c == d) ≡ false
          → (t.connections d ≡ s.connections d)
            × (count d t.hub.hub.clients ≡ count d s.hub.hub.clients))

  -- In any run of a new hub with its connections, at a moment when `Run` is at its `select`: a client
  -- whose next read fails, as when the browser goes away, can be let go while the others stand still.
  -- `Run` takes its deferred call, removes it and closes its socket, its reader returns, and so does
  -- its pinger at the next tick; the other connections stay as they are.
  pub lets_go :
      {s : Sessions M} (c : ℕ)
      → Reach start s
      → s.hub.runner ≡ selecting
      → (s.connections c).reading ≡ at_read
      → (s.connections c).pinging ≡ at_tick
      → (t : Sessions M) × Reach s t × Gone s t c
  lets_go {s} c run select r p =
      let (_, (one, _, _, none_waits)) =
        serves_reader _ _ (counts s.hub c) (Reach-SessionsInv run c).census (ap reads_now r) in
      let s2 : Sessions M = removed s c in
      let k2 : Connection = record (s.connections c) { reading = leaving } in
      let k3 : Connection = record (s2.connections c) { reading = reader_returned } in
      let s3 : Sessions M = with_connection s2 c k3 in
      let k4 : Connection = record (s3.connections c) { pinging = pinger_returned } in
      let clients = s.hub.hub.clients in
      let broken = next (reads c none) here (breaks_off s c r) in
      let gone =
        next (hub_act (take_unregister (length s.hub.unregistering))) broken
          (is_removed s c select (has-count c clients one)) in
      let back = next (left c) gone (
        reader_ends s2 c (ap (λ k. k.reading) (at_self s c k2))
          (has-none c s.hub.unregistering none_waits)) in
      let over = next (ticks c) back (
        pinger_ends s3 c
          (ap (λ k. k.pinging) (at_self s2 c k3) ∙ ap (λ k. k.pinging) (at_self s c k2) ∙ p)
          (has-remove c clients)) in
      (
        with_connection s3 c k4,
        over,
        (
          ap (λ k. k.reading) (at_self s3 c k4) ∙ ap (λ k. k.reading) (at_self s2 c k3),
          ap (λ k. k.pinging) (at_self s3 c k4),
          has-remove c clients,
          refl,
          λ d miss. (
            at_other s3 c d k4 miss ∙ at_other s2 c d k3 miss ∙ at_other s c d k2 miss,
            count-remove c d clients ∙ rw miss refl,
          ),
        ),
      )
