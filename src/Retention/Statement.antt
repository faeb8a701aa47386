-- ===== src/Retention/Statement.antt =====
-- What the users of the database may send, and what it does to the tables under their triggers. A
-- TRUNCATE, which meets no trigger and needs the right to drop the table, is not among it.
use omnibioai_security_audit.Prelude.{ℕ, String, Bool, List, [], ◌∷◌}
use omnibioai_security_audit.Python.{Result, ok, err}
use omnibioai_security_audit.Storage.Rows.{AuditEventRecord}
use omnibioai_security_audit.Retention.Store.{
  AuditLegalHold, QuarantinedRow, Store, Collation, Trigger, delete_rows, update_rows, insert_row,
  names, audit_events_no_update, audit_events_no_delete, quarantined_audit_events_no_update,
  quarantined_audit_events_no_delete, audit_legal_holds_no_update,
}

-- One statement on one table; the tests and the new values stand for the text of the statement.
pub data Change (A : Type 0) : Type 0 where
  insert : A → Change A
  update : (A → Bool) → (A → A) → Change A
  delete : (A → Bool) → Change A

pub data Statement : Type 0 where
  on_events : Change AuditEventRecord → Statement
  on_quarantined : Change QuarantinedRow → Statement
  on_holds : Change AuditLegalHold → Statement

-- The primary key, and the two triggers, of a table.
pub record Guards (A : Type 0) : Type 0 where
  pub same : A → A → Bool
  pub no_update : Trigger A
  pub no_delete : Trigger A

unfoldable pub change_rows : {A : Type 0} → Guards A → Change A → List A → Result (List A × ℕ)
change_rows g (insert new) rows = insert_row (g.same new) new rows
change_rows g (update matches new) rows = update_rows g.no_update matches new rows
change_rows g (delete matches) rows = delete_rows g.no_delete matches rows

-- A statement that failed changed nothing.
abbrev pub kept {ℓ} : {A : Type ℓ} → A → Result (A × ℕ) → A
kept old (ok done) = done.0
kept old (err e) = old

module _ (collation : Collation) where
  unfoldable pub event_guards : String → Store → Guards AuditEventRecord
  unfolding audit_events_no_update audit_events_no_delete
  event_guards user store = record {
    same = λ new row. collation.same_key row.event_id new.event_id;
    no_update = audit_events_no_update collation;
    no_delete = audit_events_no_delete collation user store.audit_legal_holds;
  }

  unfoldable pub quarantine_guards : String → Store → Guards QuarantinedRow
  unfolding quarantined_audit_events_no_update quarantined_audit_events_no_delete
  quarantine_guards user store = record {
    same = λ new row.
        collation.same_key row.quarantine.stream_message_id new.quarantine.stream_message_id;
    no_update = quarantined_audit_events_no_update collation;
    no_delete = quarantined_audit_events_no_delete collation user store.audit_legal_holds;
  }

  -- A hold is released by deleting it, which no trigger refuses.
  unfoldable pub hold_guards : Guards AuditLegalHold
  unfolding audit_legal_holds_no_update
  hold_guards = record {
    same = λ new row. names collation new.record_table new.record_key row;
    no_update = audit_legal_holds_no_update collation;
    no_delete = λ row. ok tt;
  }

  unfoldable pub execute : String → Statement → Store → Store
  unfolding change_rows
  execute user (on_events change) store = record store {
    audit_events =
        kept store.audit_events (change_rows (event_guards user store) change store.audit_events);
  }
  execute user (on_quarantined change) store = record store {
    quarantined_audit_events =
        kept store.quarantined_audit_events
          (change_rows (quarantine_guards user store) change store.quarantined_audit_events);
  }
  execute user (on_holds change) store = record store {
    audit_legal_holds =
        kept store.audit_legal_holds (change_rows hold_guards change store.audit_legal_holds);
  }

  -- What a sequence of statements, each with its user, leaves.
  unfoldable pub run : List (String × Statement) → Store → Store
  run [] store = store
  run ((user, statement) ∷ rest) store = run rest (execute user statement store)
