-- ===== src/Hub/Sessions.antt =====
-- The hub with the connections of `ServeWS` in internal/websocket/hub.go: for each, the handler that
-- registers it, the goroutine that reads and the one that pings, and the mutex of its writes.
pub mod Census
pub mod Fine
pub mod Readers
pub mod Pingers
pub mod Safety
pub mod Runs
pub mod Upgrade
pub mod Leaving
use monitoring_tool.Prelude.{
  ℕ, ◌≡◌, Bool, true, false, not, String, str_eq, List, [], ◌∷◌, Option, none, some, ◌==◌,
  if◌then◌else◌,
}
use monitoring_tool.Channel.{pick}
use monitoring_tool.Hub.Defs as Defs
use monitoring_tool.Hub.Defs.{
  Runner, writing, register, unregister, broadcasts, take_register, take_unregister, take_broadcast,
  write_ok, write_fails, round_over, cancel, see_cancel, has,
}

-- The handler: before the upgrade, in `Register`, or back from it.
pub data Serving : Type 0 where
  absent registering served : Serving

-- The goroutine that reads: at `ReadJSON`, before the mutex for a pong, in the write of the pong,
-- and in the deferred `Unregister`.
pub data Reading : Type 0 where
  not_reading at_read before_pong in_pong leaving reader_returned : Reading

-- The goroutine that pings: at its ticker, before the mutex, and in the write of the ping.
pub data Pinging : Type 0 where
  not_pinging at_tick before_ping in_ping pinger_returned : Pinging

-- Who holds the mutex of the connection.
pub data Writer : Type 0 where
  nobody the_reader the_pinger the_hub : Writer

pub record Connection : Type 0 where
  pub serving : Serving
  pub reading : Reading
  pub pinging : Pinging
  pub writer : Writer

-- `hub_writes` is the client in whose `WriteJSON` `Run` is, if it is in one.
pub record Sessions (M : Type 0) : Type 0 where
  pub hub : Defs.System M
  pub connections : ℕ → Connection
  pub hub_writes : Option ℕ

pub data Action (M : Type 0) : Type 0 where
  accepts : ℕ → Action M  -- the upgrade of a new client succeeds
  hub_act : Defs.Action M → Action M
  hub_locks : ℕ → Action M  -- for the i-th client that is left to write to
  begins_loops : ℕ → Action M
  reads : ℕ → Option (Option String) → Action M  -- nothing, or the "type" of a message if it has one
  pong_locks : ℕ → Action M
  pong_over : ℕ → Bool → Action M
  left : ℕ → Action M  -- `Unregister` returns
  ticks : ℕ → Action M
  ping_locks : ℕ → Action M
  ping_over : ℕ → Bool → Action M

abbrev pub is_absent : Serving → Bool
is_absent absent = true
is_absent _ = false

abbrev pub is_nobody : Writer → Bool
is_nobody nobody = true
is_nobody _ = false

-- The calls of `Register` and `Unregister` are those of the connections.
abbrev pub is_call : {M : Type 0} → Defs.Action M → Bool
is_call (register c) = true
is_call (unregister c) = true
is_call _ = false

abbrev pub no_connection : Connection
no_connection = record {
  serving = absent;
  reading = not_reading;
  pinging = not_pinging;
  writer = nobody;
}

module _ {M : Type 0} where
  abbrev pub with_connection : Sessions M → ℕ → Connection → Sessions M
  with_connection s c k = record s { connections = λ d. if c == d then k else s.connections d }

  abbrev pub with_hub : Sessions M → Option (Defs.System M) → Option (Sessions M)
  with_hub s none = none
  with_hub s (some h) = some (record s { hub = h })

  -- The loop is left: the deferred call stands at the hub's channel.
  abbrev pub breaks : Sessions M → ℕ → Connection → Option (Sessions M)
  breaks s c k =
      with_hub (with_connection s c (record k { reading = leaving }))
        (Defs.step s.hub (unregister c))

  abbrev pub accepts_client : Sessions M → ℕ → Connection → Serving → Option (Sessions M)
  accepts_client s c k absent =
      with_hub (with_connection s c (record k { serving = registering }))
        (Defs.step s.hub (register c))
  accepts_client s c k _ = none

  abbrev pub loops_begin : Sessions M → ℕ → Connection → Serving → Option (Sessions M)
  loops_begin s c k registering =
      if has c s.hub.registering
      then none
      else some (
          with_connection s c (record k { serving = served; reading = at_read; pinging = at_tick }))
  loops_begin s c k _ = none

  abbrev pub read_message :
      Sessions M → ℕ → Connection → Option (Option String) → Option (Sessions M)
  read_message s c k none = breaks s c k
  read_message s c k (some none) = some s
  read_message s c k (some (some kind)) =
      some
        (if str_eq kind "ping" then with_connection s c (record k { reading = before_pong }) else s)

  abbrev pub reads_on :
      Sessions M → ℕ → Connection → Reading → Option (Option String) → Option (Sessions M)
  reads_on s c k at_read m = read_message s c k m
  reads_on s c k _ m = none

  abbrev pub locks_pong : Sessions M → ℕ → Connection → Reading → Option (Sessions M)
  locks_pong s c k before_pong =
      if is_nobody k.writer
      then some (with_connection s c (record k { reading = in_pong; writer = the_reader }))
      else none
  locks_pong s c k _ = none

  abbrev pub ends_pong : Sessions M → ℕ → Connection → Reading → Bool → Option (Sessions M)
  ends_pong s c k in_pong true =
      some (with_connection s c (record k { reading = at_read; writer = nobody }))
  ends_pong s c k in_pong false = breaks s c (record k { writer = nobody })
  ends_pong s c k _ ok = none

  abbrev pub reader_returns : Sessions M → ℕ → Connection → Reading → Option (Sessions M)
  reader_returns s c k leaving =
      if has c s.hub.unregistering
      then none
      else some (with_connection s c (record k { reading = reader_returned }))
  reader_returns s c k _ = none

  abbrev pub ticks_on : Sessions M → ℕ → Connection → Pinging → Option (Sessions M)
  ticks_on s c k at_tick = some (
      with_connection s c
        (record k { pinging = if has c s.hub.hub.clients then before_ping else pinger_returned }))
  ticks_on s c k _ = none

  abbrev pub locks_ping : Sessions M → ℕ → Connection → Pinging → Option (Sessions M)
  locks_ping s c k before_ping =
      if is_nobody k.writer
      then some (with_connection s c (record k { pinging = in_ping; writer = the_pinger }))
      else none
  locks_ping s c k _ = none

  abbrev pub ends_ping : Sessions M → ℕ → Connection → Pinging → Bool → Option (Sessions M)
  ends_ping s c k in_ping ok = some (
      with_connection s c
        (record k { pinging = if ok then at_tick else pinger_returned; writer = nobody }))
  ends_ping s c k _ ok = none

  -- `Run` at the mutex of the client that it writes to next.
  abbrev pub locks_next : Sessions M → Option (ℕ × List ℕ) → Option (Sessions M)
  locks_next s none = none
  locks_next s (some (c, rest)) =
      if is_nobody (s.connections c).writer
      then some (record (with_connection s c (record (s.connections c) { writer = the_hub })) {
        hub_writes = some c;
      })
      else none

  abbrev pub locks_for : Sessions M → ℕ → Option ℕ → Runner M → Option (Sessions M)
  locks_for s i none (writing m rest) = locks_next s (pick i rest)
  locks_for s i _ _ = none

  -- The write of `Run` is over, and its mutex is free again.
  abbrev pub ends_write : Sessions M → Defs.Action M → ℕ → Option (ℕ × List ℕ) → Option (Sessions M)
  ends_write s a c none = none
  ends_write s a c (some (d, rest)) =
      if c == d
      then with_hub
          (record (with_connection s c (record (s.connections c) { writer = nobody })) {
            hub_writes = none;
          })
          (Defs.step s.hub a)
      else none

  abbrev pub over : Sessions M → Defs.Action M → ℕ → Option ℕ → Runner M → Option (Sessions M)
  over s a i (some c) (writing m rest) = ends_write s a c (pick i rest)
  over s a i _ _ = none

  abbrev pub hub_step : Sessions M → Defs.Action M → Option (Sessions M)
  hub_step s (write_ok i) = over s (write_ok i) i s.hub_writes s.hub.runner
  hub_step s (write_fails i) = over s (write_fails i) i s.hub_writes s.hub.runner
  hub_step s a = if is_call a then none else with_hub s (Defs.step s.hub a)

  unfoldable pub step : Sessions M → Action M → Option (Sessions M)
  step s (accepts c) = accepts_client s c (s.connections c) (s.connections c).serving
  step s (hub_act a) = hub_step s a
  step s (hub_locks i) = locks_for s i s.hub_writes s.hub.runner
  step s (begins_loops c) = loops_begin s c (s.connections c) (s.connections c).serving
  step s (reads c m) = reads_on s c (s.connections c) (s.connections c).reading m
  step s (pong_locks c) = locks_pong s c (s.connections c) (s.connections c).reading
  step s (pong_over c ok) = ends_pong s c (s.connections c) (s.connections c).reading ok
  step s (left c) = reader_returns s c (s.connections c) (s.connections c).reading
  step s (ticks c) = ticks_on s c (s.connections c) (s.connections c).pinging
  step s (ping_locks c) = locks_ping s c (s.connections c) (s.connections c).pinging
  step s (ping_over c ok) = ends_ping s c (s.connections c) (s.connections c).pinging ok

  -- A new hub whose `Run` has been started, before any connection.
  unfoldable pub start : Sessions M
  start = record { hub = Defs.start; connections = λ c. no_connection; hub_writes = none }

  pub data Reach (s : Sessions M) : Sessions M → Type 0 where
    here : Reach s s
    next : {t u : Sessions M} (a : Action M) → Reach s t → step t a ≡ some u → Reach s u
