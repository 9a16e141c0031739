-- ===== src/Hub/Deadlock.antt =====
-- A failed write, and what becomes of the hub after it.
use monitoring_tool.Prelude.{ℕ, ◌≡◌, refl, List, ◌∙◌, some, arith}
use monitoring_tool.Channel.{pick}
use monitoring_tool.Hub.Defs.{
  writing, unregistering_self, System, Action, register, write_fails, step, Reach, here, next,
}

module _ {M : Type 0} where
  abbrev pub StaysPut : System M → System M → ℕ → Type 0
  StaysPut s t c =
      (t.runner ≡ unregistering_self c)
      × (t.hub.clients ≡ s.hub.clients)
      × (t.closed ≡ s.closed)
      × (t.written ≡ s.written)
      × (t.taken ≡ s.taken)

  StaysPut-step :
      (s : System M) (a : Action M) {t : System M} (c : ℕ)
      → s.runner ≡ unregistering_self c
      → step s a ≡ some t
      → StaysPut s t c
  unfolding step
  StaysPut-step s (register x) c r e = ground arith
  StaysPut-step s a c r e = ground arith

  -- `Run` sends on `unregister`, of which it is the only receiver: once it stands there, whatever
  -- the other goroutines do and however long, it stays there. No client is registered or removed
  -- any more, no connection is closed, and no message is taken or written.
  pub stuck_forever :
      {s t : System M} (c : ℕ) → s.runner ≡ unregistering_self c → Reach s t → StaysPut s t c
  stuck_forever c r here = (r, refl, refl, refl, refl)
  stuck_forever c r (next {t = m} a reach e) =
      let (rm, km, dm, wm, tm) = stuck_forever c r reach in
      let (rt, kt, dt, wt, tt') = StaysPut-step m a c rm e in
      (rt, kt ∙ km, dt ∙ dm, wt ∙ wm, tt' ∙ tm)

  fails-step :
      (s : System M) (m : M) (rest : List ℕ) (i c : ℕ) (left : List ℕ) {t : System M}
      → s.runner ≡ writing m rest
      → pick i rest ≡ some (c, left)
      → step s (write_fails i) ≡ some t
      → StaysPut s t c
  unfolding step
  fails-step s m rest i c left r p e = ground arith

  -- Every failed write of a broadcast leads there.
  pub write_failure_blocks :
      (s : System M) (m : M) (rest : List ℕ) (i c : ℕ) (left : List ℕ) {t u : System M}
      → s.runner ≡ writing m rest
      → pick i rest ≡ some (c, left)
      → step s (write_fails i) ≡ some t
      → Reach t u
      → (u.runner ≡ unregistering_self c)
        × (u.hub.clients ≡ s.hub.clients)
        × (u.closed ≡ s.closed)
        × (u.written ≡ s.written)
        × (u.taken ≡ s.taken)
  write_failure_blocks s m rest i c left r p e reach =
      let (rt, kt, dt, wt, tt') = fails-step s m rest i c left r p e in
      let (ru, ku, du, wu, tu) = stuck_forever c rt reach in
      (ru, ku ∙ kt, du ∙ dt, wu ∙ wt, tu ∙ tt')
