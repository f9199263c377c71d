-- ===== src/Proposals.antt =====
-- Publication of proposals and of research batches, in simpleevo/db/store.py.
pub mod Publish
pub mod Batch
mod PublishLaws
mod Tests
