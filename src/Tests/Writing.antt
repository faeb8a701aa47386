-- ===== src/Tests/Writing.antt =====
-- The two writers on a database in memory.
use omnibioai_security_audit.Prelude.{◌≡◌, ◌≢◌, refl, lookup, true, none, some, []}
use omnibioai_security_audit.Python.{ok, err}
use omnibioai_security_audit.Python.Time.{naive}
use omnibioai_security_audit.Config.{
  require_record_integrity_key, check_key, is_key_id, check_independent,
}
use omnibioai_security_audit.Crypto.{compare_digest, is_ascii}
use omnibioai_security_audit.Event.{make_event}
use omnibioai_security_audit.Quarantine
use omnibioai_security_audit.Quarantine.{
  classify_poison_reason, diagnose_payload, quarantine_record,
}
use omnibioai_security_audit.RecordIntegrity.{
  compute_audit_event_hash, compute_quarantine_record_hash, hash_fields,
}
use omnibioai_security_audit.RecordIntegrity.Cells.{get}
use omnibioai_security_audit.RecordIntegrity.Message.{
  canonical_message, canonical_parts, field_text, timestamp_text, context_text, canonical_json,
  to_naive_utc,
}
use omnibioai_security_audit.Sink
use omnibioai_security_audit.Storage.Rows.{QuarantinedAuditEvent}
use omnibioai_security_audit.Worker.Accounted.Tables.{sink_write-stored, quarantine_write-stored}
use omnibioai_security_audit.Tests.Memory.{Tables, add, entry, memory, memory-IsAppendOnly}
use omnibioai_security_audit.Tests.Services.{lib, cfg, launch}

abbrev empty : Tables
empty = record { events = []; quarantined = [] }

abbrev payload : Sink.Payload
payload = record { event = make_event "e0" (naive 0) launch; integrity_status = some "valid" }

written : (Sink.write lib cfg memory payload empty).0 ≡ ok true
unfolding Sink.write Sink.write_row Sink.build_row Sink.unhashed_row Sink.event_record make_event
    to_naive_utc require_record_integrity_key check_key is_key_id check_independent compare_digest
    is_ascii compute_audit_event_hash hash_fields canonical_message canonical_parts get field_text
    timestamp_text context_text canonical_json lookup add
written = refl

sink_write-stored_example :
    memory.event_at payload.event.event_id (Sink.write lib cfg memory payload empty).1 ≢ none
sink_write-stored_example =
    sink_write-stored lib cfg memory memory-IsAppendOnly payload empty true written

abbrev undiagnosed : QuarantinedAuditEvent
undiagnosed = record {
  stream_message_id = "1-0";
  raw_data = none;
  raw_signature = none;
  service = none;
  failure_category = "";
  failure_detail = none;
  delivery_attempts = 0;
  record_integrity_hash = none;
  integrity_key_id = none;
}

abbrev quarantined : QuarantinedAuditEvent
quarantined = elim (Quarantine.build_row lib cfg "1-0" entry 5) [ ok q ↦ q | err e ↦ undiagnosed ]

recorded : (Quarantine.write lib cfg memory "1-0" entry 5 empty).0 ≡ ok quarantined
unfolding Quarantine.write Quarantine.write_row Quarantine.build_row Quarantine.unhashed_row
    quarantine_record classify_poison_reason diagnose_payload require_record_integrity_key check_key
    is_key_id check_independent compare_digest is_ascii compute_quarantine_record_hash hash_fields
    canonical_message canonical_parts get field_text timestamp_text context_text canonical_json
    lookup add
recorded = refl

quarantine_write-stored_example :
    memory.quarantined_at "1-0" (Quarantine.write lib cfg memory "1-0" entry 5 empty).1 ≢ none
quarantine_write-stored_example =
    quarantine_write-stored lib cfg memory memory-IsAppendOnly "1-0" entry 5 empty quarantined
      recorded
