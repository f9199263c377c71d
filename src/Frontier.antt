-- ===== src/Frontier.antt =====
-- The resource frontier of simpleevo/scheduler/frontier.py.
pub mod Policy
pub mod Axis
mod Winners
mod Order
mod Survivors
mod Ranks
mod Top
mod Bounds
mod Tests
