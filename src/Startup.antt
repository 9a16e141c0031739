-- ===== src/Startup.antt =====
-- What cmd/monitoring-tool does before `main`: the database and its migrations, the container of
-- internal/app, and `init`.
pub mod Migrations
pub mod Dependencies
pub mod Server
pub mod Watchers
pub mod Init
pub mod Booting
