-- ===== src/App.antt =====
-- The process: the goroutines of all parts around the shared worker pool, and `main`.
pub mod System
pub mod Step
pub mod Senders
pub mod Invariant
pub mod Frames
pub mod Moves
pub mod Submissions
pub mod Sends
pub mod Order
pub mod Turns
pub mod Sequence
pub mod Safety
pub mod Shutdown
pub mod Answering
pub mod Returning
pub mod Draining
pub mod Waits
pub mod Finishing
pub mod Ending
