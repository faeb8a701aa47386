-- ===== src/Tests.antt =====
-- Concrete services to run the models on, and the theorems applied to them.
pub mod Digest
pub mod Services
pub mod Memory
pub mod Evidence
pub mod Delivery
pub mod Identity
pub mod Policy
pub mod Reading
pub mod Writing
pub mod Custody
pub mod Audit
pub mod Bearer
pub mod Administrator
