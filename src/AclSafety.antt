-- ===== src/AclSafety.antt =====
-- scripts/redis_acl_safety.py: Redis identities validated on connections that fail closed.
pub mod Command
pub mod Connection
pub mod Environment
pub mod Session
pub mod Allowed
pub mod Production
pub mod Shut
pub mod Attested
