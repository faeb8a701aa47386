-- ===== src/RecordIntegrity/Accept.antt =====
-- A row whose hash was computed is accepted by the verifier.
use omnibioai_security_audit.Prelude.{
  ◌≡◌, sym, ap, ◌∙◌, String, eq_refl, Bool, true, false, Option, some, arith, truthy,
}
use omnibioai_security_audit.Python.{Result, ok}
use omnibioai_security_audit.Crypto.{compare_digest, is_ascii, IsHex}
use omnibioai_security_audit.Library.{Library}
use omnibioai_security_audit.RecordIntegrity.Cells.{Record}
use omnibioai_security_audit.RecordIntegrity.Message.{audit_event_fields}
use omnibioai_security_audit.RecordIntegrity.Detect.{hash_fields-ok}
use omnibioai_security_audit.RecordIntegrity.{
  stored_hash, integrity_key, compute_audit_event_hash, verify_audit_event_hash, compare_stored,
}

compare_digest_refl : (h : String) → is_ascii h ≡ true → compare_digest h h ≡ ok true
unfolding compare_digest
compare_digest_refl h e = ground (arith, eq_refl h)

compare_stored-same :
    (h : String) (legacy : Result Bool)
    → is_ascii h ≡ true
    → compare_stored h (ok h) legacy ≡ ok true
unfolding compare_stored
compare_stored-same h legacy e = rw (compare_digest_refl h e)

module _ (lib : Library) (hex : IsHex lib.crypto) where
  pub hash-is_ascii :
      (r : Record) (secret : String) (key_id : Option String) (h : String)
      → compute_audit_event_hash lib r secret key_id ≡ ok h
      → (is_ascii h ≡ true) × (truthy h ≡ true)
  unfolding compute_audit_event_hash
  hash-is_ascii r secret key_id h made =
      let (m, em, eh) = hash_fields-ok lib audit_event_fields false key_id r secret h made in
      (
        ap is_ascii (sym eh) ∙ hex.is_ascii-hexdigest (integrity_key lib secret) m,
        ap truthy (sym eh) ∙ hex.truthy-hexdigest (integrity_key lib secret) m,
      )

  pub verify_audit_event_hash-computed :
      (r : Record) (secret : String) (key_id : Option String) (h : String)
      → compute_audit_event_hash lib r secret key_id ≡ ok h
      → stored_hash r ≡ some h
      → verify_audit_event_hash lib r secret key_id ≡ ok true
  unfolding verify_audit_event_hash
  verify_audit_event_hash-computed r secret key_id h made stored =
      rw (stored, made, verify_audit_event_hash)
        (compare_stored-same h _ (hash-is_ascii r secret key_id h made).0)
