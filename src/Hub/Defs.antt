-- ===== src/Hub/Defs.antt =====
-- The hub and its `Run` goroutine, one channel action or one write at a time.
use monitoring_tool.Prelude.{
  ℕ, ◌+◌, ◌≡◌, Bool, true, false, List, [], ◌∷◌, ◌++◌, Option, none, some, ◌==◌, any, if◌then◌else◌,
}
use monitoring_tool.Channel.{
  Channel, make_chan, Sending, sent, full, send_panic, try_send, Receiving, received, drained,
  blocked, receive, pick,
}

-- `clients` is the map's key set. `register` and `unregister` have no buffer: a send on them is a
-- wait in `Hubs.registering` or `Hubs.unregistering` until `Run` receives.
pub record Hub (M : Type 0) : Type 0 where
  pub clients : List ℕ
  pub broadcast : Channel M

-- Where `Run` stands.
pub data Runner (M : Type 0) : Type 0 where
  selecting : Runner M
  writing : M → List ℕ → Runner M  -- the clients of the copy that are still to be written to
  unregistering_self : ℕ → Runner M  -- in `h.unregister <- client`, after a failed write
  returned : Runner M

pub record System (M : Type 0) : Type 0 where
  pub hub : Hub M
  pub runner : Runner M
  pub registering : List ℕ
  pub unregistering : List ℕ
  pub cancelled : Bool
  pub closed : List ℕ  -- clients whose connection the hub has closed
  pub snapshot : List ℕ  -- the copy of the clients made for the last message
  pub written : List ℕ  -- the clients that the last message has reached
  pub dropped : ℕ  -- broadcasts that found the channel full
  pub taken : List M  -- messages that `Run` has received, in order
  pub queued : List M  -- messages that `Broadcast` has put on the channel, in order

pub data Action (M : Type 0) : Type 0 where
  register : ℕ → Action M
  unregister : ℕ → Action M
  broadcasts : M → Action M
  take_register : ℕ → Action M
  take_unregister : ℕ → Action M
  take_broadcast : Action M
  write_ok : ℕ → Action M  -- the i-th client left: a map is ranged over in any order
  write_fails : ℕ → Action M
  round_over : Action M
  cancel : Action M
  see_cancel : Action M

abbrev pub has : ℕ → List ℕ → Bool
has c xs = any (λ x. c == x) xs

unfoldable pub remove : ℕ → List ℕ → List ℕ
remove c [] = []
remove c (x ∷ xs) = if c == x then remove c xs else x ∷ remove c xs

module _ {M : Type 0} where
  unfoldable pub new_hub : Hub M
  new_hub = record { clients = []; broadcast = make_chan 500 }

  -- `h.clients[client] = true`
  abbrev pub add_client : Hub M → ℕ → Hub M
  add_client h c = if has c h.clients then h else record h { clients = c ∷ h.clients }

  abbrev registered : System M → Option (ℕ × List ℕ) → Option (System M)
  registered s none = none
  registered s (some (c, rest)) = some (record s { hub = add_client s.hub c; registering = rest })

  -- A client that the map lacks is left alone: its connection is closed once.
  abbrev unregistered : System M → Option (ℕ × List ℕ) → Option (System M)
  unregistered s none = none
  unregistered s (some (c, rest)) = some (
      if has c s.hub.clients
      then record s {
        hub = record s.hub { clients = remove c s.hub.clients };
        closed = c ∷ s.closed;
        unregistering = rest;
      }
      else record s { unregistering = rest })

  abbrev copies : System M → Receiving M → Option (System M)
  copies s (received m ch) = some (record s {
    hub = record s.hub { broadcast = ch };
    runner = writing m s.hub.clients;
    snapshot = s.hub.clients;
    written = [];
    taken = s.taken ++ m ∷ [];
  })
  copies s drained = none
  copies s blocked = none

  abbrev writes : System M → M → Option (ℕ × List ℕ) → Option (System M)
  writes s m none = none
  writes s m (some (c, rest)) = some (record s { runner = writing m rest; written = c ∷ s.written })

  abbrev fails : System M → Option (ℕ × List ℕ) → Option (System M)
  fails s none = none
  fails s (some (c, rest)) = some (record s { runner = unregistering_self c })

  abbrev sends : System M → M → Sending M → System M
  sends s m (sent ch) = record s {
    hub = record s.hub { broadcast = ch };
    queued = s.queued ++ m ∷ [];
  }
  sends s m full = record s { dropped = s.dropped + 1 }
  sends s m send_panic = s

  -- What `Run` does next. In `unregistering_self` it waits for a receiver, and it is the only one.
  abbrev run_act : System M → Runner M → Action M → Option (System M)
  run_act s selecting (take_register i) = registered s (pick i s.registering)
  run_act s selecting (take_unregister i) = unregistered s (pick i s.unregistering)
  run_act s selecting take_broadcast = copies s (receive s.hub.broadcast)
  run_act s selecting see_cancel =
      if s.cancelled then some (record s { runner = returned }) else none
  run_act s (writing m rest) (write_ok i) = writes s m (pick i rest)
  run_act s (writing m rest) (write_fails i) = fails s (pick i rest)
  run_act s (writing m []) round_over = some (record s { runner = selecting })
  run_act s _ _ = none

  unfoldable pub step : System M → Action M → Option (System M)
  unfolding remove
  step s (register c) = some (record s { registering = s.registering ++ c ∷ [] })
  step s (unregister c) = some (record s { unregistering = s.unregistering ++ c ∷ [] })
  step s (broadcasts m) = some (sends s m (try_send s.hub.broadcast m))
  step s cancel = some (record s { cancelled = true })
  step s a = run_act s s.runner a

  unfoldable pub start : System M
  unfolding new_hub
  start = record {
    hub = new_hub;
    runner = selecting;
    registering = [];
    unregistering = [];
    cancelled = false;
    closed = [];
    snapshot = [];
    written = [];
    dropped = 0;
    taken = [];
    queued = [];
  }

  pub data Reach (s : System M) : System M → Type 0 where
    here : Reach s s
    next : {t u : System M} (a : Action M) → Reach s t → step t a ≡ some u → Reach s u
