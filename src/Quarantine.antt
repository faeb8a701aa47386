-- ===== src/Quarantine.antt =====
-- consumers/quarantine.py: the durable record of a poison entry.
use omnibioai_security_audit.Prelude.{ℕ, String, [], ◌∷◌, Option, none, some, Dict, lookup}
use omnibioai_security_audit.Python.{Result, ok, err, ◌>>=◌}
use omnibioai_security_audit.Python.Json.{Json, Fields, obj, str}
use omnibioai_security_audit.Python.Json
use omnibioai_security_audit.Config.{AuditConfig, require_record_integrity_key}
use omnibioai_security_audit.Library.{Library}
use omnibioai_security_audit.RecordIntegrity.{compute_quarantine_record_hash}
use omnibioai_security_audit.RecordIntegrity.Cells.{Record, text, int, opt_text}
use omnibioai_security_audit.Storage.{Database, committed, integrity_error, failed}
use omnibioai_security_audit.Storage.Rows.{QuarantinedAuditEvent}
use omnibioai_security_audit.Alerts.{SecurityAlert}

-- failure_category, service and failure_detail
pub record Diagnosis : Type 0 where
  pub failure_category : String
  pub service : Option String
  pub failure_detail : Option String

abbrev pub malformed : String → Diagnosis
malformed detail = record {
  failure_category = "malformed";
  service = none;
  failure_detail = some detail;
}

-- `payload.get("service")`, if it is a text
abbrev pub text_value : Option Json → Option String
text_value none = none
text_value (some (str s)) = some s
text_value (some _) = none

unfoldable pub diagnose_payload : Json → Diagnosis
diagnose_payload (obj fields) = record {
  failure_category = "persistence_exhausted";
  service = text_value (Json.get "service" fields);
  failure_detail = none;
}
diagnose_payload _ = malformed "NotAJsonObject"

unfoldable pub classify_poison_reason : Library → Option String → Diagnosis
unfolding diagnose_payload
classify_poison_reason lib none = malformed "MissingDataField"
classify_poison_reason lib (some raw) = elim (lib.loads raw) [
  | err e ↦ malformed e.kind
  | ok payload ↦ diagnose_payload payload
]

unfoldable pub quarantine_record : QuarantinedAuditEvent → Record
quarantine_record q =
    ("stream_message_id", text q.stream_message_id)
    ∷ ("raw_data", opt_text q.raw_data)
    ∷ ("raw_signature", opt_text q.raw_signature)
    ∷ ("service", opt_text q.service)
    ∷ ("failure_category", text q.failure_category)
    ∷ ("failure_detail", opt_text q.failure_detail)
    ∷ ("delivery_attempts", int q.delivery_attempts)
    ∷ []

-- The alert names the diagnosis and the count, never the payload; its clock is read when it is sent.
unfoldable pub quarantine_alert : QuarantinedAuditEvent → String → SecurityAlert
quarantine_alert q timestamp = record {
  condition = "poison_event_quarantined";
  severity = "warning";
  component = "audit-worker";
  message = "A stream event was quarantined instead of persisted as canonical audit evidence";
  metadata =
      ("failure_category", text q.failure_category)
      ∷ ("service", opt_text q.service)
      ∷ ("delivery_attempts", int q.delivery_attempts)
      ∷ [];
  timestamp = timestamp;
}

module _ (lib : Library) (cfg : AuditConfig) where
  unfoldable pub unhashed_row : String → Dict String → ℕ → QuarantinedAuditEvent
  unhashed_row message_id fields delivery_attempts =
      let d = classify_poison_reason lib (lookup "data" fields) in
      record {
        stream_message_id = message_id;
        raw_data = lookup "data" fields;
        raw_signature = lookup "sig" fields;
        service = d.service;
        failure_category = d.failure_category;
        failure_detail = d.failure_detail;
        delivery_attempts = delivery_attempts;
        record_integrity_hash = none;
        integrity_key_id = none;
      }

  unfoldable pub build_row : String → Dict String → ℕ → Result QuarantinedAuditEvent
  unfolding unhashed_row
  build_row message_id fields delivery_attempts = do
    keys ← require_record_integrity_key cfg
    let row = unhashed_row message_id fields delivery_attempts
    hash ← compute_quarantine_record_hash lib (quarantine_record row) keys.0 (some keys.1)
    ok (record row { record_integrity_hash = some hash; integrity_key_id = some keys.1 })

  module _ {D : Type 0} (db : Database D) where
    -- The row that was committed, or that was there already, for the alert that follows.
    abbrev pub add_row : QuarantinedAuditEvent → D → Result QuarantinedAuditEvent × D
    add_row row d =
        let (outcome, d') = db.add_quarantined row d in
        elim outcome [
          | committed ↦ (ok row, d')
          | integrity_error ↦ (ok row, d')
          | failed e ↦ (err e, d')
        ]

    unfoldable pub write_row : Result QuarantinedAuditEvent → D → Result QuarantinedAuditEvent × D
    write_row (err e) d = (err e, d)
    write_row (ok row) d = add_row row d

    unfoldable pub write : String → Dict String → ℕ → D → Result QuarantinedAuditEvent × D
    write message_id fields delivery_attempts d =
        write_row (build_row message_id fields delivery_attempts) d
