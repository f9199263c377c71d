-- ===== src/Attempts.antt =====
-- Execution attempts in simpleevo/db/store.py, and the reconciler of simpleevo/scheduler/reconcile.py.
pub mod Marks
pub mod Reconcile
mod MarksLaws
mod Conserves
mod ReconcileLaws
mod Offers
pub mod Frees
pub mod Starts
mod Tests
