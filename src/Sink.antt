-- ===== src/Sink.antt =====
-- consumers/sink.py: the durable write of one event.
pub mod Verified
use omnibioai_security_audit.Prelude.{ℕ, String, Bool, true, List, [], ◌∷◌, Option, none, some}
use omnibioai_security_audit.Python.{Exn, Result, ok, err, ◌>>=◌}
use omnibioai_security_audit.Config.{AuditConfig, require_record_integrity_key}
use omnibioai_security_audit.Event.{AuditEvent, or_default}
use omnibioai_security_audit.Event.Raw.{scope_name}
use omnibioai_security_audit.Library.{Library}
use omnibioai_security_audit.RecordIntegrity.{compute_audit_event_hash}
use omnibioai_security_audit.RecordIntegrity.Cells.{Cell, Record, text, time, json, opt_text}
use omnibioai_security_audit.RecordIntegrity.Message.{to_naive_utc}
use omnibioai_security_audit.Storage.{Database, Commit, committed, integrity_error, failed}
use omnibioai_security_audit.Storage.Rows.{AuditEventRecord}

-- `event.model_dump()` with the status that the worker adds; a caller may leave the status out.
pub record Payload : Type 0 where
  pub event : AuditEvent
  pub integrity_status : Option String

-- The covered columns of a row, as a dictionary.
unfoldable pub event_record : AuditEventRecord → Record
event_record r =
    ("event_id", text r.event_id)
    ∷ ("timestamp", time r.timestamp)
    ∷ ("service", text r.service)
    ∷ ("event_type", text r.event_type)
    ∷ ("user_id", opt_text r.user_id)
    ∷ ("organization_id", opt_text r.organization_id)
    ∷ ("tenant_scope", text r.tenant_scope)
    ∷ ("action", text r.action)
    ∷ ("resource", opt_text r.resource)
    ∷ ("decision", opt_text r.decision)
    ∷ ("reason", opt_text r.reason)
    ∷ ("trace_id", opt_text r.trace_id)
    ∷ ("context", json r.context)
    ∷ ("integrity_status", text r.integrity_status)
    ∷ []

module _ (lib : Library) (cfg : AuditConfig) where
  -- The row before its hash is known.
  unfoldable pub unhashed_row : Payload → Result AuditEventRecord
  unhashed_row p = do
    timestamp ← to_naive_utc p.event.timestamp
    ok (record {
      event_id = p.event.event_id;
      timestamp = timestamp;
      service = p.event.service;
      event_type = p.event.event_type;
      user_id = p.event.user_id;
      organization_id = p.event.organization_id;
      tenant_scope = scope_name p.event.tenant_scope;
      action = p.event.action;
      resource = p.event.resource;
      decision = p.event.decision;
      reason = p.event.reason;
      trace_id = p.event.trace_id;
      context = p.event.context;
      integrity_status = or_default p.integrity_status "unsigned";
      record_integrity_hash = none;
      integrity_key_id = none;
    })

  unfoldable pub build_row : Payload → Result AuditEventRecord
  unfolding unhashed_row
  build_row p = do
    keys ← require_record_integrity_key cfg
    row ← unhashed_row p
    hash ← compute_audit_event_hash lib (event_record row) keys.0 (some keys.1)
    ok (record row { record_integrity_hash = some hash; integrity_key_id = some keys.1 })

  module _ {D : Type 0} (db : Database D) where
    -- A committed row and a taken key are both a success.
    abbrev pub add_row : AuditEventRecord → D → Result Bool × D
    add_row row d =
        let (outcome, d') = db.add_event row d in
        elim outcome [
          | committed ↦ (ok true, d')
          | integrity_error ↦ (ok true, d')
          | failed e ↦ (err e, d')
        ]

    unfoldable pub write_row : Result AuditEventRecord → D → Result Bool × D
    write_row (err e) d = (err e, d)
    write_row (ok row) d = add_row row d

    unfoldable pub write : Payload → D → Result Bool × D
    write p d = write_row (build_row p) d
