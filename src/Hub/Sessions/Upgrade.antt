-- ===== src/Hub/Sessions/Upgrade.antt =====
-- internal/api/handlers/websocket.go, and what `ServeWS` does before there is a client.
use monitoring_tool.Prelude.{
  ℕ, ◌≡◌, ◌⊎◌, Bool, true, ◌&&◌, ◌||◌, String, str_eq, Option, some, arith, if◌then◌else◌,
}
use monitoring_tool.Hub.Session.{check_origin}
use monitoring_tool.Hub.Sessions.{Sessions, accepts, step}

-- The route that `RegisterWebSocketRoutes` adds.
abbrev pub ws_path : String
ws_path = "/ws"

module _ {M : Type 0} where
  -- The upgrade: the origin is checked, and the handshake may fail for other reasons.
  unfoldable pub serve_ws : String → Bool → Sessions M → ℕ → Option (Sessions M)
  serve_ws origin handshake s c =
      let joined = step s (accepts c) in if check_origin origin && handshake then joined else some s

  -- `HandleWebSocket`, for a GET of a path with this `Origin`; other paths are other handlers'.
  unfoldable pub handle_web_socket : String → String → Bool → Sessions M → ℕ → Option (Sessions M)
  unfolding serve_ws
  handle_web_socket path origin handshake s c =
      let answered = serve_ws origin handshake s c in
      if str_eq path ws_path then answered else some s

  -- A request changes the hub and its connections only if its path is the one of the route and its origin is empty or one of
  -- the three of this machine that are listed, and then by one new client.
  pub handle_web_socket-origin :
      (path origin : String) (handshake : Bool) (s : Sessions M) (c : ℕ) {t : Sessions M}
      → handle_web_socket path origin handshake s c ≡ some t
      → (t ≡ s)
        ⊎ ((str_eq path "/ws" ≡ true)
            × ((str_eq origin ""
                  || str_eq origin "http://localhost:8080"
                  || str_eq origin "http://localhost:3000"
                  || str_eq origin "http://127.0.0.1:8080")
                ≡ true)
            × (step s (accepts c) ≡ some t))
  unfolding handle_web_socket check_origin
  handle_web_socket-origin path origin handshake s c e = ground (arith, e)
