-- ===== src/Db.antt =====
-- The L2 store: simpleevo/db/schema.py, and the row classes and transactions of
-- simpleevo/db/store.py.
pub mod Rows
pub mod State
pub mod Exec
pub mod Select
pub mod Insert
pub mod Update
pub mod Laws
pub mod Keeps
