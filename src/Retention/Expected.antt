-- ===== src/Retention/Expected.antt =====
-- What a run of the retention script should leave, stated without the script's own tests.
use omnibioai_security_audit.Prelude.{
  ℕ, ◌≡◌, refl, arith, String, Bool, true, false, not, ◌&&◌, ◌||◌, List, [], ◌∷◌, Bool-cases, inl,
  inr, leb, ltb, if◌then◌else◌,
}
use omnibioai_security_audit.Storage.Rows.{AuditEventRecord}
use omnibioai_security_audit.Retention.Store.{
  AuditLegalHold, QuarantinedRow, Store, Collation, names, is_held,
}
use omnibioai_security_audit.Retention.Tables.{Table, audit_events, quarantined_audit_events}
use omnibioai_security_audit.Retention.Cleanup.{is_eligible}
use omnibioai_security_audit.Retention.Main.{tables}
use omnibioai_security_audit.Retention.Purge.{without, purge}

-- The elements that pass a test, in their order.
unfoldable pub selected : {A : Type 0} → (A → Bool) → List A → List A
selected keep [] = []
selected keep (x ∷ xs) = let rest = selected keep xs in if keep x then x ∷ rest else rest

-- Some hold is for this table and this key.
unfoldable pub on_hold : Collation → String → String → List AuditLegalHold → Bool
on_hold collation table key [] = false
on_hold collation table key (hold ∷ holds) =
    (collation.same_key hold.record_table table && collation.same_key hold.record_key key)
    || on_hold collation table key holds

-- An event stays that is not older than the limit, or on hold; and so does a quarantined message.
unfoldable pub event_stays : Collation → ℕ → List AuditLegalHold → AuditEventRecord → Bool
event_stays collation limit holds row =
    leb limit row.timestamp.wall || on_hold collation "audit_events" row.event_id holds

unfoldable pub message_stays : Collation → ℕ → List AuditLegalHold → QuarantinedRow → Bool
message_stays collation limit holds row =
    leb limit row.quarantined_at.wall
    || on_hold collation "quarantined_audit_events" row.quarantine.stream_message_id holds

-- The database after a run: as it was if the run was not to execute, and otherwise both tables with
-- the rows that stay, and all holds.
unfoldable pub left_by : Collation → Bool → ℕ → Store → Store
left_by collation false limit store = store
left_by collation true limit store = record {
  audit_events = selected (event_stays collation limit store.audit_legal_holds) store.audit_events;
  quarantined_audit_events =
      selected (message_stays collation limit store.audit_legal_holds)
        store.quarantined_audit_events;
  audit_legal_holds = store.audit_legal_holds;
}

-- The purge of one table after another, as the script's loop does it.
abbrev pub swept : Collation → Bool → ℕ → List Table → Store → Store
swept collation execute limit [] store = store
swept collation execute limit (t ∷ ts) store =
    swept collation execute limit ts (if execute then purge collation t limit store else store)

without-selected :
    {A : Type 0} (test keep : A → Bool) (xs : List A)
    → ((x : A) → test x ≡ not (keep x))
    → without test xs ≡ selected keep xs
unfolding selected
without-selected test keep [] h = refl
without-selected test keep (x ∷ xs) h = elim (Bool-cases (keep x)) [
  | inl stays ↦ rw (h x, stays, without-selected test keep xs h) refl
  | inr goes ↦ rw (h x, goes, without-selected test keep xs h) refl
]

is_held-on_hold :
    (collation : Collation) (table key : String) (holds : List AuditLegalHold)
    → is_held collation table key holds ≡ on_hold collation table key holds
unfolding is_held on_hold names
is_held-on_hold collation table key [] = refl
is_held-on_hold collation table key (hold ∷ holds) =
    rw (is_held-on_hold collation table key holds) refl

not_stays :
    (date limit : ℕ) (a b : Bool) → a ≡ b → (ltb date limit && not a) ≡ not (leb limit date || b)
not_stays date limit a b e = ground arith

-- The loop over the script's tables leaves what it should.
pub swept-left_by :
    (collation : Collation) (execute : Bool) (limit : ℕ) (store : Store)
    → swept collation execute limit tables store ≡ left_by collation execute limit store
unfolding left_by purge is_eligible event_stays message_stays
swept-left_by collation false limit store = refl
swept-left_by collation true limit store =
    let holds = store.audit_legal_holds in
    let events =
      without-selected (is_eligible collation audit_events limit holds)
        (event_stays collation limit holds) store.audit_events
        (λ row.
          not_stays row.timestamp.wall limit _ _
            (is_held-on_hold collation "audit_events" row.event_id holds)) in
    let messages =
      without-selected (is_eligible collation quarantined_audit_events limit holds)
        (message_stays collation limit holds) store.quarantined_audit_events
        (λ row. not_stays row.quarantined_at.wall limit _ _ (
          is_held-on_hold collation "quarantined_audit_events" row.quarantine.stream_message_id
            holds)) in
    rw (events, messages) refl
