-- ===== src/Storage.antt =====
-- db/models.py: the rows of the two evidence tables, and what the program asks of the database.
pub mod Rows
use omnibioai_security_audit.Prelude.{String, ◌≡◌, ◌≢◌, Option, none, some}
use omnibioai_security_audit.Python.{Exn}
use Rows.{AuditEventRecord, QuarantinedAuditEvent}

-- How `session.add(row)` with `session.commit()` ends: the row is committed, the commit raises
-- IntegrityError, or it raises anything else.
pub data Commit : Type 0 where
  committed integrity_error : Commit
  failed : Exn → Commit

-- The database, over its own states `D`.
pub record Database (D : Type 0) : Type 0 where
  pub add_event : AuditEventRecord → D → Commit × D
  pub add_quarantined : QuarantinedAuditEvent → D → Commit × D
  -- The row with a primary key.
  pub event_at : String → D → Option AuditEventRecord
  pub quarantined_at : String → D → Option QuarantinedAuditEvent

-- What the primary keys and the append-only triggers promise: a committed row is there, an
-- IntegrityError means that the key is taken, and no insert takes away or alters another row.
pub record IsAppendOnly {D : Type 0} (db : Database D) : Type 0 where
  pub committed_event :
      (r : AuditEventRecord) (d : D)
      → (db.add_event r d).0 ≡ committed
      → db.event_at r.event_id (db.add_event r d).1 ≡ some r
  pub taken_event :
      (r : AuditEventRecord) (d : D)
      → (db.add_event r d).0 ≡ integrity_error
      → db.event_at r.event_id (db.add_event r d).1 ≢ none
  pub kept_event :
      (r : AuditEventRecord) (d : D) (k : String) (old : AuditEventRecord)
      → db.event_at k d ≡ some old
      → db.event_at k (db.add_event r d).1 ≡ some old
  pub kept_quarantined :
      (r : AuditEventRecord) (d : D) (k : String) (old : QuarantinedAuditEvent)
      → db.quarantined_at k d ≡ some old
      → db.quarantined_at k (db.add_event r d).1 ≡ some old
  pub committed_quarantined :
      (q : QuarantinedAuditEvent) (d : D)
      → (db.add_quarantined q d).0 ≡ committed
      → db.quarantined_at q.stream_message_id (db.add_quarantined q d).1 ≡ some q
  pub taken_quarantined :
      (q : QuarantinedAuditEvent) (d : D)
      → (db.add_quarantined q d).0 ≡ integrity_error
      → db.quarantined_at q.stream_message_id (db.add_quarantined q d).1 ≢ none
  pub kept_event_q :
      (q : QuarantinedAuditEvent) (d : D) (k : String) (old : AuditEventRecord)
      → db.event_at k d ≡ some old
      → db.event_at k (db.add_quarantined q d).1 ≡ some old
  pub kept_quarantined_q :
      (q : QuarantinedAuditEvent) (d : D) (k : String) (old : QuarantinedAuditEvent)
      → db.quarantined_at k d ≡ some old
      → db.quarantined_at k (db.add_quarantined q d).1 ≡ some old
