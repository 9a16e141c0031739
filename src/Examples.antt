-- ===== src/Examples.antt =====
-- The theorems at concrete inputs, over a small platform, and runs of the definitions.
mod Toy
mod Scripts
mod Runtime
mod Storing
mod Watching
mod Whole
mod Booted
mod Events
mod Answering
mod Configuring
mod Tasking
mod Serving
mod Streaming
