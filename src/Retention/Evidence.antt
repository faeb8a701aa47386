-- ===== src/Retention/Evidence.antt =====
-- The evidence tables as an append-only log with legal holds.
use mathlib.Core.List.{Memᴰ}
use omnibioai_security_audit.Prelude.{
  ◌≡◌, refl, ◌⊎◌, inl, inr, arith, String, true, false, List, [], ◌∷◌, All,
}
use omnibioai_security_audit.Python.{ok}
use omnibioai_security_audit.Storage.Rows.{AuditEventRecord}
use omnibioai_security_audit.Retention.Store.{
  AuditLegalHold, QuarantinedRow, Store, Collation, is_maintenance, is_held, names,
}
use omnibioai_security_audit.Retention.Statement.{
  delete, Statement, on_events, on_quarantined, on_holds, event_guards, quarantine_guards, execute,
  run,
}
use omnibioai_security_audit.Retention.Tables.{
  Table, audit_events, quarantined_audit_events, Row, rows, table_name, key_of,
}
use omnibioai_security_audit.Retention.Rows.{Inserts, change_rows-loss, change_rows-origin}

-- The statement inserts the row in the table.
abbrev pub Appends : (t : Table) → Row t → Statement → Type 0
Appends audit_events row (on_events change) = Inserts row change
Appends quarantined_audit_events row (on_quarantined change) = Inserts row change
Appends _ row _ = ⊥

-- The statement does not release the hold.
abbrev pub Retains : AuditLegalHold → Statement → Type 0
Retains hold (on_holds (delete matches)) = matches hold ≡ false
Retains hold _ = Unit {0}

-- Some statement of the sequence has the property.
abbrev pub Some : (Statement → Type 0) → List (String × Statement) → Type 0
Some P [] = ⊥
Some P (step ∷ rest) = P step.1 ⊎ Some P rest

-- What an append-only log with holds allows a statement to do to its rows.
pub record IsLogged (collation : Collation) (t : Table) (user : String) (statement : Statement)
    (old new : Store) : Type 0 where
  pub origin :
      (row : Row t) → Memᴰ row (rows t new) → Memᴰ row (rows t old) ⊎ Appends t row statement
  pub loss :
      (row : Row t)
      → Memᴰ row (rows t old)
      → Memᴰ row (rows t new)
        ⊎ ((is_maintenance collation user ≡ true)
            × (is_held collation (table_name t) (key_of t row) old.audit_legal_holds ≡ false))

module _ (collation : Collation) where
  event-loss :
      (user : String) (store : Store) (row : AuditEventRecord)
      → ((event_guards collation user store).no_update row ≡ ok tt)
        ⊎ ((event_guards collation user store).no_delete row ≡ ok tt)
      → (is_maintenance collation user ≡ true)
        × (is_held collation "audit_events" row.event_id store.audit_legal_holds ≡ false)
  unfolding event_guards
  event-loss user store row h = ground arith

  quarantine-loss :
      (user : String) (store : Store) (row : QuarantinedRow)
      → ((quarantine_guards collation user store).no_update row ≡ ok tt)
        ⊎ ((quarantine_guards collation user store).no_delete row ≡ ok tt)
      → (is_maintenance collation user ≡ true)
        × (is_held collation "quarantined_audit_events" row.quarantine.stream_message_id
              store.audit_legal_holds
            ≡ false)
  unfolding quarantine_guards
  quarantine-loss user store row h = ground arith

  -- Whatever statement a user sends: a row that is in an evidence table afterwards was in it before
  -- as it is, or is inserted by the statement; and a row that was in it is still there as it was,
  -- unless the user is the maintenance user and no legal hold names the row.
  pub execute-IsLogged :
      (t : Table) (user : String) (statement : Statement) (store : Store)
      → IsLogged collation t user statement store (execute collation user statement store)
  unfolding execute event_guards quarantine_guards
  execute-IsLogged audit_events user (on_events change) store = record {
    origin = λ row m.
        change_rows-origin (event_guards collation user store) row change store.audit_events _
          (λ x passed. cc) refl m;
    loss = λ row m.
        elim (change_rows-loss (event_guards collation user store) row change store.audit_events _
          refl m) [ inl found ↦ inl found | inr passed ↦ inr (event-loss user store row passed) ];
  }
  execute-IsLogged quarantined_audit_events user (on_quarantined change) store = record {
    origin = λ row m.
        change_rows-origin (quarantine_guards collation user store) row change
          store.quarantined_audit_events _ (λ x passed. cc) refl m;
    loss = λ row m.
        elim (change_rows-loss (quarantine_guards collation user store) row change
          store.quarantined_audit_events _ refl m) [
            | inl found ↦ inl found
            | inr passed ↦ inr (quarantine-loss user store row passed)
          ];
  }
  execute-IsLogged audit_events user (on_quarantined change) store = record {
    origin = λ row m. inl m;
    loss = λ row m. inl m;
  }
  execute-IsLogged audit_events user (on_holds change) store = record {
    origin = λ row m. inl m;
    loss = λ row m. inl m;
  }
  execute-IsLogged quarantined_audit_events user (on_events change) store = record {
    origin = λ row m. inl m;
    loss = λ row m. inl m;
  }
  execute-IsLogged quarantined_audit_events user (on_holds change) store = record {
    origin = λ row m. inl m;
    loss = λ row m. inl m;
  }

  -- After any sequence of statements by any users, every row of an evidence table was in it before,
  -- with the same columns, or was inserted so by one of the statements.
  pub run-origin :
      (t : Table) (steps : List (String × Statement)) (store : Store) (row : Row t)
      → Memᴰ row (rows t (run collation steps store))
      → Memᴰ row (rows t store) ⊎ Some (Appends t row) steps
  unfolding run
  run-origin t [] store row m = inl m
  run-origin t ((user, statement) ∷ rest) store row m =
      elim (run-origin t rest (execute collation user statement store) row m) [
        | inr later ↦ inr (inr later)
        | inl old ↦ elim ((execute-IsLogged t user statement store).origin row old) [
          | inl found ↦ inl found
          | inr now ↦ inr (inl now)
        ]
      ]

  -- A sequence of statements of users other than the maintenance user takes no row away from an
  -- evidence table, and alters none.
  pub run-keeps_rows :
      (t : Table) (steps : List (String × Statement)) (store : Store) (row : Row t)
      → All (λ (step : String × Statement). is_maintenance collation step.0 ≡ false) steps
      → Memᴰ row (rows t store)
      → Memᴰ row (rows t (run collation steps store))
  unfolding run
  run-keeps_rows t [] store row others m = m
  run-keeps_rows t ((user, statement) ∷ rest) store row (other, others) m =
      run-keeps_rows t rest (execute collation user statement store) row others
        (elim ((execute-IsLogged t user statement store).loss row m) [
          | inl found ↦ found
          | inr (maintains, free) ↦ absurd (cc)
        ])

  pub is_held_of_mem :
      (table key : String) (hold : AuditLegalHold) (holds : List AuditLegalHold)
      → Memᴰ hold holds
      → names collation table key hold ≡ true
      → is_held collation table key holds ≡ true
  unfolding is_held
  is_held_of_mem table key hold [] m named = elim m [ ]
  is_held_of_mem table key hold (h ∷ holds) (Memᴰ.head e) named =
      let here : names collation table key h ≡ true = rw (← e) named in ground arith
  is_held_of_mem table key hold (h ∷ holds) (Memᴰ.tail m) named =
      ground (arith, is_held_of_mem table key hold holds m named)
