-- ===== src/Hub/Session.antt =====
-- The two loops that `ServeWS` starts for a connection, the origin check, and `OnAlert`.
use monitoring_tool.Prelude.{
  ℕ, suc, Bool, true, false, ◌||◌, String, str_eq, List, [], ◌∷◌, Option, none, some, if◌then◌else◌,
}
use monitoring_tool.Channel.{sent, try_send}
use monitoring_tool.Hub.Defs.{Hub}

-- `upgrader.CheckOrigin`, on the `Origin` header.
unfoldable pub check_origin : String → Bool
check_origin origin =
    if str_eq origin ""
    then true
    else str_eq origin "http://localhost:8080"
      || str_eq origin "http://localhost:3000"
      || str_eq origin "http://127.0.0.1:8080"

pub record Message (P : Type 0) : Type 0 where
  pub kind : String
  pub payload : P
  pub timestamp : ℕ

-- `OnAlert`: the payload is what `json.Marshal` gave, if it gave any. The new broadcast channel, and
-- whether an error is returned.
unfoldable pub on_alert : {P : Type 0} → Hub (Message P) → Option P → ℕ → Hub (Message P) × Bool
on_alert h none now = (h, true)
on_alert h (some payload) now =
    elim (try_send h.broadcast (record { kind = "alert"; payload = payload; timestamp = now })) [
      | sent ch ↦ (record h { broadcast = ch }, false)
      | _ ↦ (h, false)
    ]

-- What `conn.ReadJSON` and, after a ping, `client.WriteJSON` may do.
pub data Incoming : Type 0 where
  read_error : Incoming
  message : Option String → Bool → Incoming  -- its "type", if it is a text; whether a write succeeds

-- The reader's loop: how many pongs it tries to send, and whether it has ended, upon which the
-- deferred `Unregister` runs.
unfoldable pub reader : List Incoming → ℕ × Bool
reader [] = (0, false)
reader (read_error ∷ rest) = (0, true)
reader (message none ok ∷ rest) = reader rest
reader (message (some kind) ok ∷ rest) =
    let (pongs, ended) = reader rest in
    if str_eq kind "ping" then if ok then (suc pongs, ended) else (1, true) else (pongs, ended)

-- A tick of the pinger: whether the client is still in the map, and whether the ping is written.
unfoldable pub pinger : List (Bool × Bool) → ℕ × Bool
pinger [] = (0, false)
pinger ((exists, ok) ∷ rest) =
    let (pings, ended) = pinger rest in
    if exists then if ok then (suc pings, ended) else (1, true) else (0, true)
