-- ===== src/Queries.antt =====
-- simpleevo/db/queries.py: the reads of the scheduler and the agents.
pub mod Reads
pub mod Lineage
mod LineageLaws
mod ReadsLaws
mod Tests
