-- ===== src/Tasks.antt =====
-- The tasks of the pool at work in the process: what they store and publish.
pub mod Hands
pub mod Untouched
pub mod Others
pub mod Statements
pub mod Flow
pub mod Following
pub mod Refinement
pub mod Accounting
pub mod Alone
pub mod Evaluate
pub mod Effect
pub mod System
