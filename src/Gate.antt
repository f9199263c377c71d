-- ===== src/Gate.antt =====
-- The hard gates of simpleevo/adjudicate/gate.py.
pub mod Apply
mod Laws
mod Tests
