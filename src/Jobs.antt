-- ===== src/Jobs.antt =====
-- The documents by which the scheduler and its workers talk, in simpleevo/jobs/envelope.py.
pub mod Envelope
mod EnvelopeLaws
mod Tests
