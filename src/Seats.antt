-- ===== src/Seats.antt =====
-- The seats that a growth decision buys, in simpleevo/scheduler/loop.py.
pub mod Purchase
pub mod Growth
mod Apart
mod PurchaseLaws
mod GrowthLaws
mod Tests
