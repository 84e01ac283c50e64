-- ===== src/Queue.antt =====
-- src/queue: the ingest processor, the dead-letter queue and the replay of what is parked there.
pub mod Processor
pub mod DeadLetters
pub mod Requeue
pub mod Sweep
pub mod Options
pub mod Workers
pub mod Life
