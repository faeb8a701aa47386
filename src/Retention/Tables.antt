-- ===== src/Retention/Tables.antt =====
-- `_TABLES` of scripts/audit_retention_cleanup.py: the tables, their keys and their dates.
use omnibioai_security_audit.Prelude.{String, List}
use omnibioai_security_audit.Python.Time.{DateTime}
use omnibioai_security_audit.Storage.Rows.{AuditEventRecord}
use omnibioai_security_audit.Retention.Store.{QuarantinedRow, Store, Collation}
use omnibioai_security_audit.Retention.Statement.{Guards, event_guards, quarantine_guards}

-- The two tables of evidence.
pub data Table : Type 0 where
  audit_events quarantined_audit_events : Table

abbrev pub Row : Table → Type 0
Row audit_events = AuditEventRecord
Row quarantined_audit_events = QuarantinedRow

abbrev pub rows : (t : Table) → Store → List (Row t)
rows audit_events store = store.audit_events
rows quarantined_audit_events store = store.quarantined_audit_events

abbrev pub table_name : Table → String
table_name audit_events = "audit_events"
table_name quarantined_audit_events = "quarantined_audit_events"

abbrev pub key_of : (t : Table) → Row t → String
key_of audit_events row = row.event_id
key_of quarantined_audit_events row = row.quarantine.stream_message_id

-- `timestamp` or `quarantined_at`
abbrev pub date_of : (t : Table) → Row t → DateTime
date_of audit_events row = row.timestamp
date_of quarantined_audit_events row = row.quarantined_at

abbrev pub with_rows : (t : Table) → List (Row t) → Store → Store
with_rows audit_events rs store = record store { audit_events = rs }
with_rows quarantined_audit_events rs store = record store { quarantined_audit_events = rs }

abbrev pub guards : Collation → (t : Table) → String → Store → Guards (Row t)
guards collation audit_events user store = event_guards collation user store
guards collation quarantined_audit_events user store = quarantine_guards collation user store
