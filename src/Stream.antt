-- ===== src/Stream.antt =====
-- From the bus to the browsers' hub: what becomes of an alert that the dispatcher has taken.
pub mod System
pub mod Moves
pub mod Steps
pub mod Delivered
