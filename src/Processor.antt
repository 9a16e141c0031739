-- ===== src/Processor.antt =====
-- internal/processor: the event bus, the state manager that stores and publishes an alert, and the
-- evaluator engine that owns the worker pool.
pub mod Bus
pub mod Delivery
pub mod StateManager
pub mod Pipeline
