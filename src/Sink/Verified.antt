-- ===== src/Sink/Verified.antt =====
-- What the sink writes passes the verification of stored rows.
use omnibioai_security_audit.Prelude.{
  ℕ, ◌≡◌, ◌≤◌, refl, ap, ◌∙◌, String, truthy, true, Option, some,
}
use omnibioai_security_audit.Python.{ok, >>=-eq-ok, ok-inj}
use omnibioai_security_audit.Python.Time.{naive, max_wall}
use omnibioai_security_audit.Config.{AuditConfig, require_record_integrity_key}
use omnibioai_security_audit.Crypto.{IsHex}
use omnibioai_security_audit.Library.{Library}
use omnibioai_security_audit.RecordIntegrity.{
  stored_hash, compute_audit_event_hash, verify_audit_event_hash, hash_fields,
}
use omnibioai_security_audit.RecordIntegrity.Accept.{
  verify_audit_event_hash-computed, hash-is_ascii,
}
use omnibioai_security_audit.RecordIntegrity.Cells.{Cell, Record, get, put, text, opt_text}
use omnibioai_security_audit.RecordIntegrity.Message.{
  canonical_message, canonical_parts, field_text, timestamp_text,
}
use omnibioai_security_audit.RecordIntegrity.Rounding.{round_half_up, canonical_time-rounded}
use omnibioai_security_audit.Storage.Rows.{AuditEventRecord}
use omnibioai_security_audit.Sink.{Payload, event_record, unhashed_row, build_row}

-- The columns of a stored row, its hash among them.
abbrev pub stored_record : AuditEventRecord → Record
stored_record row =
    put "record_integrity_hash" (opt_text row.record_integrity_hash) (event_record row)

stored_hash-put :
    (h : String) (r : Record)
    → truthy h ≡ true
    → stored_hash (put "record_integrity_hash" (text h) r) ≡ some h
unfolding stored_hash get
stored_hash-put h r e = rw e

module _ (lib : Library) (cfg : AuditConfig) (hex : IsHex lib.crypto) where
  -- The hash of a row does not cover the column that it stands in.
  hash-put :
      (v : Cell) (row : AuditEventRecord) (secret : String) (key_id : Option String)
      → compute_audit_event_hash lib
          (put "record_integrity_hash" v (event_record row))
          secret
          key_id
        ≡ compute_audit_event_hash lib (event_record row) secret key_id
  unfolding compute_audit_event_hash hash_fields canonical_message canonical_parts get event_record
  hash-put v row secret key_id = refl

  -- Nor does it see the fraction of a second that the column drops.
  hash-rounded :
      (row : AuditEventRecord) (t : ℕ) (secret : String) (key_id : Option String)
      → row.timestamp ≡ naive t
      → round_half_up t ≤ max_wall
      → compute_audit_event_hash lib
          (event_record (record row { timestamp = naive (round_half_up t) }))
          secret
          key_id
        ≡ compute_audit_event_hash lib (event_record row) secret key_id
  unfolding compute_audit_event_hash hash_fields canonical_message canonical_parts get event_record
      field_text timestamp_text
  hash-rounded row t secret key_id e h = rw (e, canonical_time-rounded t h)

  hashed-verifies :
      (row : AuditEventRecord) (key key_id hash : String)
      → compute_audit_event_hash lib (event_record row) key (some key_id) ≡ ok hash
      → verify_audit_event_hash lib
          (put "record_integrity_hash" (text hash) (event_record row))
          key
          (some key_id)
        ≡ ok true
  hashed-verifies row key key_id hash made =
      let h = hash-is_ascii lib hex (event_record row) key (some key_id) hash made in
      verify_audit_event_hash-computed lib hex _ key (some key_id) hash
        (hash-put (text hash) row key (some key_id) ∙ made)
        (stored_hash-put hash (event_record row) h.1)

  -- If the digest is hexadecimal, a row that the sink builds names the configured key and verifies
  -- under it, as it was built, and with its timestamp rounded to the nearest second if that is a
  -- date.
  pub build_row-verifies :
      (p : Payload) (row : AuditEventRecord) (t : ℕ)
      → build_row lib cfg p ≡ ok row
      → row.timestamp ≡ naive t
      → round_half_up t ≤ max_wall
      → (key : String) × (key_id : String) × (require_record_integrity_key cfg ≡ ok (key, key_id))
        × (row.integrity_key_id ≡ some key_id)
        × (verify_audit_event_hash lib (stored_record row) key (some key_id) ≡ ok true)
        × (verify_audit_event_hash lib
              (stored_record (record row { timestamp = naive (round_half_up t) }))
              key
              (some key_id)
            ≡ ok true)
  unfolding build_row event_record
  build_row-verifies p row t h e bound =
      let ((key, key_id), configured, rest) = >>=-eq-ok (require_record_integrity_key cfg) _ h in
      let (bare, built, rest') = >>=-eq-ok (unhashed_row lib cfg p) _ rest in
      let (hash, made, same) =
        >>=-eq-ok (compute_audit_event_hash lib (event_record bare) key (some key_id)) _ rest' in
      let rounded =
        hash-rounded bare t key (some key_id) (ap (λ r. r.timestamp) (ok-inj same) ∙ e) bound
        ∙ made in
      rw (← ok-inj same) (
        key,
        key_id,
        configured,
        refl,
        hashed-verifies bare key key_id hash made,
        hashed-verifies (record bare { timestamp = naive (round_half_up t) }) key key_id hash
            rounded,
      )
