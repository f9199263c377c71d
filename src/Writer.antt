-- ===== src/Writer.antt =====
-- simpleevo/db/lease_writer.py: what a seat at work writes to the store by itself.
pub mod Lease
pub mod Ledger
mod LeaseLaws
mod LedgerLaws
mod Tests
