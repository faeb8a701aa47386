-- ===== src/Config/Policy.antt =====
-- Which keys the writers of stored rows accept.
use Prim.Native.String.{len}
use omnibioai_security_audit.Prelude.{◌≤◌, ◌≡◌, ◌≢◌, ◌⊎◌, String, true, some, arith, eq_iff}
use omnibioai_security_audit.Python.{ok}
use omnibioai_security_audit.Crypto.{compare_digest}
use omnibioai_security_audit.Config.{
  AuditConfig, require_record_integrity_key, check_independent, is_key_id,
}

check_independent-ok :
    (key secret : String) → check_independent key secret ≡ ok tt → (secret ≡ "") ⊎ (key ≢ secret)
unfolding check_independent compare_digest
check_independent-ok key secret h = ground (arith, eq_iff secret "", eq_iff key secret)

-- A key that the writers are given is the configured one, has at least 32 bytes, comes with the
-- configured identifier of the documented form, and differs from the secret that signs events
-- unless that is empty.
pub require_record_integrity_key-ok :
    (cfg : AuditConfig) (key key_id : String)
    → require_record_integrity_key cfg ≡ ok (key, key_id)
    → (cfg.record_integrity_key ≡ some key)
      × (cfg.record_integrity_key_id ≡ some key_id)
      × (32 ≤ len key)
      × (is_key_id key_id ≡ true)
      × ((cfg.event_signing_secret ≡ "") ⊎ (key ≢ cfg.event_signing_secret))
unfolding require_record_integrity_key
require_record_integrity_key-ok cfg key key_id h =
    ground (arith, check_independent-ok key cfg.event_signing_secret)
