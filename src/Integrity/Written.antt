-- ===== src/Integrity/Written.antt =====
-- The rows that the sink writes, as the verification script judges them.
use omnibioai_security_audit.Prelude.{
  ℕ, ◌≡◌, ◌≢◌, ◌≤◌, refl, sym, ap, ◌∙◌, arith, String, ◌↔◌, none, true, false, Option, some, Dict,
  lookup, eq_iff, [],
}
use omnibioai_security_audit.Python.{ok, ok-inj}
use omnibioai_security_audit.Python.Time.{naive, max_wall}
use omnibioai_security_audit.Config.{AuditConfig, require_record_integrity_key}
use omnibioai_security_audit.Crypto.{IsHex}
use omnibioai_security_audit.Library.{Library}
use omnibioai_security_audit.RecordIntegrity.{
  stored_hash, compute_audit_event_hash, verify_audit_event_hash, hash_fields,
}
use omnibioai_security_audit.RecordIntegrity.Cells.{Cell, get, put, text, opt_text}
use omnibioai_security_audit.RecordIntegrity.Message.{canonical_message, canonical_parts}
use omnibioai_security_audit.RecordIntegrity.Rounding.{round_half_up}
use omnibioai_security_audit.Storage.Rows.{AuditEventRecord}
use omnibioai_security_audit.Sink.{Payload, event_record, build_row}
use omnibioai_security_audit.Sink.Verified.{stored_record, build_row-verifies}
use omnibioai_security_audit.Integrity.{
  audit_events, event_columns, missing_fields, is_blank, selected_secret,
}
use omnibioai_security_audit.Integrity.Clean.{IsSound}

-- The row has the texts that the script requires.
pub record HasRequired (row : AuditEventRecord) : Type 0 where
  pub event_id : row.event_id ≢ ""
  pub service : row.service ≢ ""
  pub event_type : row.event_type ≢ ""
  pub action : row.action ≢ ""

missing_fields-HasRequired :
    (lib : Library) (row : AuditEventRecord)
    → missing_fields row.event_id (event_columns row) (audit_events lib).required ≡ []
    → HasRequired row
unfolding missing_fields event_columns event_record get audit_events
missing_fields-HasRequired lib row h = record {
  event_id = λ e. ground (arith, eq_iff row.event_id "");
  service = λ e. ground (arith, eq_iff row.service "");
  event_type = λ e. ground (arith, eq_iff row.event_type "");
  action = λ e. ground (arith, eq_iff row.action "");
}

HasRequired-missing_fields :
    (lib : Library) (row : AuditEventRecord)
    → HasRequired row
    → missing_fields row.event_id (event_columns row) (audit_events lib).required ≡ []
unfolding missing_fields event_columns event_record get audit_events
HasRequired-missing_fields lib row h = ground (
  arith,
  eq_iff row.event_id "",
  eq_iff row.service "",
  eq_iff row.event_type "",
  eq_iff row.action "",
)

module _ (lib : Library) where
  -- The column of the key identifier is not among those that are hashed.
  verify-key_column :
      (v : Cell) (row : AuditEventRecord) (secret : String) (key_id : String)
      → verify_audit_event_hash lib
          (put "integrity_key_id" v (stored_record row))
          secret
          (some key_id)
        ≡ verify_audit_event_hash lib (stored_record row) secret (some key_id)
  unfolding verify_audit_event_hash stored_hash compute_audit_event_hash hash_fields
      canonical_message canonical_parts get event_record
  verify-key_column v row secret key_id = refl

  -- A hash that verifies is there.
  verified-not_blank :
      (row : AuditEventRecord) (hash : Option String) (secret : String) (key_id : String)
      → row.record_integrity_hash ≡ hash
      → verify_audit_event_hash lib (stored_record row) secret (some key_id) ≡ ok true
      → is_blank (opt_text row.record_integrity_hash) ≡ false
  unfolding verify_audit_event_hash stored_hash is_blank get
  verified-not_blank row none secret key_id e h = absurd (let bad = rw e at h in cc)
  verified-not_blank row (some s) secret key_id e h = ground arith

  sound-of_verified :
      (stored : AuditEventRecord) (keys : Dict String) (key key_id : String)
      → stored.integrity_key_id ≡ some key_id
      → lookup key_id keys ≡ some key
      → verify_audit_event_hash lib (stored_record stored) key (some key_id) ≡ ok true
      → missing_fields stored.event_id (event_columns stored) (audit_events lib).required ≡ []
      → IsSound (audit_events lib) keys (event_columns stored)
  unfolding event_columns get selected_secret audit_events event_record
  sound-of_verified stored keys key key_id named given verifies complete = (
    key,
    rw named given,
    rw named (verify-key_column (text key_id) stored key key_id ∙ verifies),
    verified-not_blank stored stored.record_integrity_hash key key_id refl verifies,
    complete,
  )

  missing-of_sound :
      (stored : AuditEventRecord) (keys : Dict String)
      → IsSound (audit_events lib) keys (event_columns stored)
      → missing_fields stored.event_id (event_columns stored) (audit_events lib).required ≡ []
  unfolding event_columns get audit_events event_record
  missing-of_sound stored keys (secret, selected, verified, there, complete) = complete

  module _ (cfg : AuditConfig) (hex : IsHex lib.crypto) where
    -- If the digest is hexadecimal and the keyring gives the writers' key for its identifier: a row
    -- that the sink built, with its timestamp rounded as the column does it, is sound for the
    -- verification script exactly if its event_id, service, event_type and action are not empty.
    pub build_row-IsSound :
        (p : Payload) (row : AuditEventRecord) (t : ℕ) (keys : Dict String) (key key_id : String)
        → build_row lib cfg p ≡ ok row
        → row.timestamp ≡ naive t
        → round_half_up t ≤ max_wall
        → require_record_integrity_key cfg ≡ ok (key, key_id)
        → lookup key_id keys ≡ some key
        → let stored : AuditEventRecord = record row { timestamp = naive (round_half_up t) } in
          IsSound (audit_events lib) keys (event_columns stored) ↔ HasRequired stored
    build_row-IsSound p row t keys key key_id built at_t bound configured given =
        let stored : AuditEventRecord = record row { timestamp = naive (round_half_up t) } in
        let (key', id, same_key, names, as_built, verified) =
          build_row-verifies lib cfg hex p row t built at_t bound in
        let pair = ok-inj (sym same_key ∙ configured) in
        let key_same : key' ≡ key = ap (λ x. x.0) pair in
        let id_same : id ≡ key_id = ap (λ x. x.1) pair in
        let named : stored.integrity_key_id ≡ some key_id = names ∙ ap some id_same in
        let verifies = rw (key_same, id_same) at verified in
        (
          λ sound. missing_fields-HasRequired lib stored (missing-of_sound stored keys sound),
          λ required.
              sound-of_verified stored keys key key_id named given verifies
                (HasRequired-missing_fields lib stored required),
        )
