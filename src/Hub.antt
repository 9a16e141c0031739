-- ===== src/Hub.antt =====
-- internal/websocket/hub.go: the hub's state, its `Run` loop against the goroutines that call it,
-- and the two loops that `ServeWS` starts. A client is the identity of its `*Client`.
pub mod Defs
pub mod Session
pub mod Connection
pub mod Invariant
pub mod Deadlock
pub mod Sessions
