-- ===== src/Experiments.antt =====
-- Results of experiments: `ingest_experiment_result` of simpleevo/db/store.py.
pub mod Ingest
mod IngestLaws
mod Once
mod Tests
