-- ===== src/Hub/Connection.antt =====
-- A connection's reader, and the alerts that come from the bus.
use monitoring_tool.Prelude.{
  ℕ, ◌+◌, ◌≤◌, ◌<◌, ◌≡◌, refl, ◌⊎◌, Bool, true, false, str_eq, List, [], ◌∷◌, ◌++◌, Option, none,
  some, arith, length, count_by, All, if◌then◌else◌,
}
use monitoring_tool.Hub.Defs.{Hub}
use monitoring_tool.Hub.Session.{Message, on_alert, Incoming, read_error, message, reader}

abbrev pub is_ping : Incoming → Bool
is_ping read_error = false
is_ping (message none ok) = false
is_ping (message (some kind) ok) = str_eq kind "ping"

-- What lets the reader go on: a message that is no ping, or a ping whose pong is written.
abbrev pub goes_on : Incoming → Bool
goes_on read_error = false
goes_on (message none ok) = true
goes_on (message (some kind) ok) = if str_eq kind "ping" then ok else true

-- The reader tries one pong for each ping, in whatever else it reads, as long as the reads and the
-- pongs succeed; the first of them that fails ends it, after at most one more try, and nothing that
-- the client sends later counts.
pub reader_lem :
    (front : List Incoming) (last : Incoming) (rest : List Incoming)
    → All (λ m. goes_on m ≡ true) front
    → goes_on last ≡ false
    → (reader front ≡ (count_by is_ping front, false))
      × (reader (front ++ last ∷ rest)
          ≡ (count_by is_ping front + (if is_ping last then 1 else 0), true))
unfolding reader
reader_lem [] read_error rest fs l = (refl, refl)
reader_lem [] (message none ok) rest fs l = ground arith
reader_lem [] (message (some kind) ok) rest fs l = ground arith
reader_lem (read_error ∷ front) last rest fs l = ground arith
reader_lem (message none ok ∷ front) last rest fs l =
    let (a, b) = reader_lem front last rest fs.1 l in ground (arith, a, b)
reader_lem (message (some kind) ok ∷ front) last rest fs l =
    let (a, b) = reader_lem front last rest fs.1 l in ground (arith, a, b)

module _ {P : Type 0} where
  abbrev alert_message : P → ℕ → Message P
  alert_message x now = record { kind = "alert"; payload = x; timestamp = now }

  -- The outcomes of `OnAlert`.
  abbrev pub AlertOutcome : Hub (Message P) → Option P → ℕ → Type 0
  AlertOutcome h payload now =
      ((payload ≡ none) × (on_alert h payload now ≡ (h, true)))
      ⊎ ((x : P) × (payload ≡ some x)
          × (length h.broadcast.buffer < h.broadcast.capacity)
          × (on_alert h payload now ≡ (
            record h {
              broadcast = record h.broadcast {
                buffer = h.broadcast.buffer ++ alert_message x now ∷ [];
              };
            },
            false,
          )))
      ⊎ ((x : P) × (payload ≡ some x)
          × (h.broadcast.capacity ≤ length h.broadcast.buffer)
          × (on_alert h payload now ≡ (h, false)))

  -- An alert that cannot be encoded is an error and changes nothing; one that can be encoded is put
  -- last on the broadcast channel of an open hub where there is room, and is dropped without an error
  -- where there is none.
  pub on_alert_lem :
      (h : Hub (Message P)) (payload : Option P) (now : ℕ)
      → h.broadcast.closed ≡ false
      → AlertOutcome h payload now
  unfolding on_alert
  on_alert_lem h payload now c = ground arith
