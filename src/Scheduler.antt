-- ===== src/Scheduler.antt =====
-- simpleevo/scheduler/: the admission of integration requests, and of the loop the routing of
-- adjudicated deliveries and of dead seats, and the draining of the executor queue.
pub mod Admission
pub mod Deliveries
pub mod Resubmit
pub mod Drain
mod AdmissionLaws
mod DeliveryLaws
mod ResubmitLaws
mod DrainLaws
mod Tests
