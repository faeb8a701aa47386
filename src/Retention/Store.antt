-- ===== src/Retention/Store.antt =====
-- alembic/versions/0005_retention_immutability.py and db/models.py (AuditLegalHold): the evidence
-- tables, the legal holds, and the triggers that a statement of a database user meets.
use omnibioai_security_audit.Prelude.{
  ℕ, ◌+◌, String, partition, Bool, false, not, ◌&&◌, ◌||◌, List, [], ◌∷◌, ◌++◌, Option,
  if◌then◌else◌,
}
use omnibioai_security_audit.Python.{Exn, Result, ok, err, ◌>>=◌, ◌>>◌}
use omnibioai_security_audit.Python.Time.{DateTime}
use omnibioai_security_audit.Storage.Rows.{AuditEventRecord, QuarantinedAuditEvent}

pub record AuditLegalHold : Type 0 where
  pub record_table : String
  pub record_key : String
  pub held_at : DateTime
  pub held_by : Option String
  pub reason : Option String

-- A row of quarantined_audit_events with its column quarantined_at.
pub record QuarantinedRow : Type 0 where
  pub quarantine : QuarantinedAuditEvent
  pub quarantined_at : DateTime

pub record Store : Type 0 where
  pub audit_events : List AuditEventRecord
  pub quarantined_audit_events : List QuarantinedRow
  pub audit_legal_holds : List AuditLegalHold

-- How the server compares the text of keys and the names of users.
pub record Collation : Type 0 where
  pub same_key : String → String → Bool
  pub same_user : String → String → Bool

abbrev pub maintenance_user : String
maintenance_user = "audit_maintenance"

-- SQLSTATE 45000
abbrev pub signal : String → Exn
signal text = record { kind = "OperationalError"; message = text }

abbrev pub duplicate_entry : Exn
duplicate_entry = record { kind = "IntegrityError"; message = "duplicate entry" }

-- What is asked of a row before a statement changes it.
abbrev pub Trigger : Type 0 → Type 0
Trigger A = A → Result (Unit {0})

-- BEFORE ... FOR EACH ROW: a signal at one row undoes the whole statement. The count is of the rows
-- that the statement matched.
unfoldable pub each_row :
    {A : Type 0} → Trigger A → (A → Bool) → (A → List A) → List A → Result (List A × ℕ)
each_row before matches change [] = ok ([], 0)
each_row before matches change (row ∷ rows) =
    let rest = each_row before matches change rows in
    if matches row
    then before row >> (rest >>= λ done. ok (change row ++ done.0, done.1 + 1))
    else rest >>= λ done. ok (row ∷ done.0, done.1)

-- DELETE and UPDATE of the matching rows.
abbrev pub delete_rows : {A : Type 0} → Trigger A → (A → Bool) → List A → Result (List A × ℕ)
delete_rows before matches = each_row before matches (λ row. [])

abbrev pub update_rows :
    {A : Type 0} → Trigger A → (A → Bool) → (A → A) → List A → Result (List A × ℕ)
update_rows before matches change = each_row before matches (λ row. change row ∷ [])

-- INSERT of a row; `matches` finds its primary key.
unfoldable pub insert_row : {A : Type 0} → (A → Bool) → A → List A → Result (List A × ℕ)
insert_row matches new [] = ok (new ∷ [], 1)
insert_row matches new (row ∷ rows) =
    let rest = insert_row matches new rows in
    if matches row then err duplicate_entry else rest >>= λ done. ok (row ∷ done.0, done.1)

module _ (collation : Collation) where
  -- SUBSTRING_INDEX(USER(), '@', 1) = 'audit_maintenance'
  unfoldable pub is_maintenance : String → Bool
  is_maintenance user = collation.same_user (partition b'@' user).0 maintenance_user

  -- SELECT 1 FROM audit_legal_holds WHERE record_table = ... AND record_key = ...
  unfoldable pub names : String → String → AuditLegalHold → Bool
  names table key hold =
      collation.same_key hold.record_table table && collation.same_key hold.record_key key

  unfoldable pub is_held : String → String → List AuditLegalHold → Bool
  unfolding names
  is_held table key [] = false
  is_held table key (hold ∷ holds) = names table key hold || is_held table key holds

  unfoldable pub audit_events_no_update : Trigger AuditEventRecord
  audit_events_no_update row = err (signal "audit_events is append-only: UPDATE denied by trigger")

  unfoldable pub audit_events_no_delete : String → List AuditLegalHold → Trigger AuditEventRecord
  unfolding is_maintenance is_held
  audit_events_no_delete user holds row =
      if not (is_maintenance user)
      then err (signal "audit_events delete requires the audit_maintenance identity")
      else if is_held "audit_events" row.event_id holds
      then err (signal "audit_events row is under legal hold, delete denied")
      else ok tt

  unfoldable pub quarantined_audit_events_no_update : Trigger QuarantinedRow
  quarantined_audit_events_no_update row =
      err (signal "quarantined_audit_events is append-only: UPDATE denied by trigger")

  unfoldable pub quarantined_audit_events_no_delete :
      String → List AuditLegalHold → Trigger QuarantinedRow
  unfolding is_maintenance is_held
  quarantined_audit_events_no_delete user holds row =
      if not (is_maintenance user)
      then err (signal "quarantined_audit_events delete requires the audit_maintenance identity")
      else if is_held "quarantined_audit_events" row.quarantine.stream_message_id holds
      then err (signal "quarantined_audit_events row is under legal hold, delete denied")
      else ok tt

  unfoldable pub audit_legal_holds_no_update : Trigger AuditLegalHold
  audit_legal_holds_no_update row = err (
      signal (
        "audit_legal_holds is append-only: UPDATE denied by trigger -- delete and re-insert instead"))
