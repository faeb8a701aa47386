-- ===== src/Storage/Rows.antt =====
-- db/models.py: the columns that the writers fill; the server's own defaults are not modelled.
use omnibioai_security_audit.Prelude.{ℕ, String, Option}
use omnibioai_security_audit.Python.Time.{DateTime}
use omnibioai_security_audit.Python.Json.{Json}

pub record AuditEventRecord : Type 0 where
  pub event_id : String
  pub timestamp : DateTime
  pub service : String
  pub event_type : String
  pub user_id : Option String
  pub organization_id : Option String
  pub tenant_scope : String
  pub action : String
  pub resource : Option String
  pub decision : Option String
  pub reason : Option String
  pub trace_id : Option String
  pub context : Json
  pub integrity_status : String
  pub record_integrity_hash : Option String
  pub integrity_key_id : Option String

pub record QuarantinedAuditEvent : Type 0 where
  pub stream_message_id : String
  pub raw_data : Option String
  pub raw_signature : Option String
  pub service : Option String
  pub failure_category : String
  pub failure_detail : Option String
  pub delivery_attempts : ℕ
  pub record_integrity_hash : Option String
  pub integrity_key_id : Option String
