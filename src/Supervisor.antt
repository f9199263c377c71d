-- ===== src/Supervisor.antt =====
-- The growth gate's side of class ResearchStore in simpleevo/db/store.py: wake events, run limits,
-- decisions, integration requests and epochs.
pub mod Events
pub mod Requests
pub mod Review
pub mod Commit
pub mod Quiet
mod Installs
mod CommitReturns
mod CommitLaws
mod ReviewLaws
mod KeepsOne
mod OneOpen
mod Limits
mod Tests
mod ReviewTests
mod LimitsTests
