-- ===== src/Lease.antt =====
-- The research lease: the allocation part of class ResearchStore in simpleevo/db/store.py.
pub mod Allocate
pub mod Conclude
pub mod Deliver
pub mod Adjudicate
pub mod Frame
pub mod Machine
pub mod Writes
pub mod Minting
pub mod Goes
pub mod Calls
pub mod Keeping
pub mod History
pub mod Outcomes
mod Tests
