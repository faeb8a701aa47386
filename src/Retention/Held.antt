-- ===== src/Retention/Held.antt =====
-- A row under legal hold stays for as long as the hold is not released.
use mathlib.Core.List.{Memᴰ}
use omnibioai_security_audit.Prelude.{ℕ, ◌≡◌, refl, inl, inr, String, true, List, [], ◌∷◌, All}
use omnibioai_security_audit.Python.{Result, ok, err}
use omnibioai_security_audit.Retention.Store.{
  AuditLegalHold, Store, Collation, names, audit_legal_holds_no_update,
}
use omnibioai_security_audit.Retention.Statement.{
  Change, insert, update, delete, Statement, on_events, on_quarantined, on_holds, change_rows,
  hold_guards, kept, execute, run,
}
use omnibioai_security_audit.Retention.Rows.{each_row-loss, each_row-unmatched, insert_row-loss}
use omnibioai_security_audit.Retention.Tables.{Table, Row, rows, table_name, key_of}
use omnibioai_security_audit.Retention.Evidence.{Retains, execute-IsLogged, is_held_of_mem}

module _ (collation : Collation) where
  change_holds-kept :
      (hold : AuditLegalHold) (change : Change AuditLegalHold) (holds : List AuditLegalHold)
      (ended : Result (List AuditLegalHold × ℕ))
      → change_rows (hold_guards collation) change holds ≡ ended
      → Retains hold (on_holds change)
      → Memᴰ hold holds
      → Memᴰ hold (kept holds ended)
  unfolding change_rows hold_guards
  change_holds-kept hold change holds (err e) h stays m = m
  change_holds-kept hold (insert new) holds (ok done) h stays m =
      insert_row-loss ((hold_guards collation).same new) new hold holds done m h
  change_holds-kept hold (update matches new) holds (ok done) h stays m =
      elim (each_row-loss (audit_legal_holds_no_update collation) matches _ hold holds done m h) [
        | inl found ↦ found
        | inr passed ↦ absurd (cc)
      ]
  change_holds-kept hold (delete matches) holds (ok done) h stays m =
      each_row-unmatched (λ row. ok tt) matches _ hold holds done stays m h

  execute-keeps_hold :
      (user : String) (statement : Statement) (store : Store) (hold : AuditLegalHold)
      → Retains hold statement
      → Memᴰ hold store.audit_legal_holds
      → Memᴰ hold (execute collation user statement store).audit_legal_holds
  unfolding execute
  execute-keeps_hold user (on_events change) store hold stays m = m
  execute-keeps_hold user (on_quarantined change) store hold stays m = m
  execute-keeps_hold user (on_holds change) store hold stays m =
      change_holds-kept hold change store.audit_legal_holds _ refl stays m

  -- A row of an evidence table that a legal hold names, and the hold, are both still there as they
  -- were after any sequence of statements by any users, the maintenance user included, none of
  -- which deletes the hold.
  pub run-keeps_held :
      (t : Table) (steps : List (String × Statement)) (store : Store) (row : Row t)
      (hold : AuditLegalHold)
      → names collation (table_name t) (key_of t row) hold ≡ true
      → All (λ (step : String × Statement). Retains hold step.1) steps
      → Memᴰ hold store.audit_legal_holds
      → Memᴰ row (rows t store)
      → Memᴰ row (rows t (run collation steps store))
        × Memᴰ hold (run collation steps store).audit_legal_holds
  unfolding run
  run-keeps_held t [] store row hold named retained held m = (m, held)
  run-keeps_held t ((user, statement) ∷ rest) store row hold named (stays, retained) held m =
      run-keeps_held t rest (execute collation user statement store) row hold named retained
        (execute-keeps_hold user statement store hold stays held)
        (elim ((execute-IsLogged collation t user statement store).loss row m) [
          | inl found ↦ found
          | inr (maintains, free) ↦
              let bad =
                is_held_of_mem collation (table_name t) (key_of t row) hold store.audit_legal_holds
                  held named in
              absurd (cc)
        ])
