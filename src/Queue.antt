-- ===== src/Queue.antt =====
-- The executor queue of simpleevo/scheduler/queue.py.
pub mod Bound
mod BoundLaws
mod Tests
