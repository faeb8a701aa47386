-- ===== src/Retention.antt =====
-- Retention of evidence: the database's triggers, and scripts/audit_retention_cleanup.py.
pub mod Store
pub mod Statement
pub mod Tables
mod Rows
pub mod Evidence
pub mod Held
pub mod Host
pub mod Cleanup
pub mod Main
pub mod Purge
pub mod Expected
pub mod Exact
pub mod Honest
pub mod Concurrent
pub mod Spared
pub mod Kept
pub mod Complete
