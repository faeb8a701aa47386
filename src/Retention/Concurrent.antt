-- ===== src/Retention/Concurrent.antt =====
-- What the script leaves true while other users work on the same tables and calls may fail.
use omnibioai_security_audit.Prelude.{
  ℕ, ◌≡◌, refl, String, Bool, not, List, [], ◌∷◌, Option, none, some, ◌==ℕ◌,
}
use omnibioai_security_audit.Python.{Result, ok, err}
use omnibioai_security_audit.Python.Exec.{Exec, lift}
use omnibioai_security_audit.Python.Exec.Keeps.{
  Keeps, Keeps-pure, Keeps-lift, Keeps-if, Keeps-attempt,
}
use omnibioai_security_audit.Retention.Host.{
  Driver, Fault, World, after, before, call, fine, invoke,
}
use omnibioai_security_audit.Retention.Store.{Store, Collation}
use omnibioai_security_audit.Retention.Statement.{
  delete, Statement, on_events, on_quarantined, change_rows, execute, run,
}
use omnibioai_security_audit.Retention.Tables.{
  Table, audit_events, quarantined_audit_events, Row, rows, with_rows, guards,
}
use omnibioai_security_audit.Retention.Cleanup.{
  is_eligible, deleted, connect, count_eligible, delete_eligible, commit, commit_pending,
  delete_counted, after_count, table_round, clean_table, clean_tables,
}

-- The store, and the work that is not committed, have a property.
pub record Holds (Q : Store → Type 0) (w : World) : Type 0 where
  pub committed : Q w.store
  pub uncommitted : (p : Store) → w.pending ≡ some p → Q p

-- The statement that the script sends to a table.
abbrev pub purge_statement : Collation → (t : Table) → ℕ → Store → Statement
purge_statement collation audit_events limit s =
    on_events (delete (is_eligible collation audit_events limit s.audit_legal_holds))
purge_statement collation quarantined_audit_events limit s =
    on_quarantined
      (delete (is_eligible collation quarantined_audit_events limit s.audit_legal_holds))

-- What the script and the others do to the database keeps the property.
pub record IsSafe (collation : Collation) (driver : Driver) (limit : ℕ) (Q : Store → Type 0)
    : Type 0 where
  pub by_others : (n : ℕ) (s : Store) → Q s → Q (run collation (driver.others n) s)
  pub by_script :
      (t : Table) (s : Store)
      → Q s
      → Q (execute collation driver.user (purge_statement collation t limit s) s)

execute-purge :
    (collation : Collation) (user : String) (t : Table) (limit : ℕ) (s : Store)
    (done : List (Row t) × ℕ)
    → change_rows
        (guards collation t user s)
        (delete (is_eligible collation t limit s.audit_legal_holds))
        (rows t s)
      ≡ ok done
    → execute collation user (purge_statement collation t limit s) s ≡ with_rows t done.0 s
unfolding execute
execute-purge collation user audit_events limit s done h = rw h refl
execute-purge collation user quarantined_audit_events limit s done h = rw h refl

module _ (collation : Collation) (driver : Driver) (limit : ℕ) (Q : Store → Type 0)
    (safe : IsSafe collation driver limit Q) where
  Keeps-invoke :
      {A : Type 0} (fault : Fault) (m : Exec World A)
      → Keeps (Holds Q) m
      → Keeps (Holds Q) (invoke fault m)
  unfolding invoke
  Keeps-invoke fine m km = km
  Keeps-invoke (before e) m km = Keeps-lift (err e)
  Keeps-invoke (after e) m km =
      Keeps-attempt m (λ done. lift (err e)) _ km (λ done. Keeps-lift (err e))
        (λ x. Keeps-lift (err x))

  Keeps-call :
      {A : Type 0} (m : Exec World A)
      → Keeps (Holds Q) m
      → Keeps (Holds Q) (call collation driver m)
  unfolding call
  Keeps-call m km = record {
    at = λ w p. (Keeps-invoke (driver.fault w.calls) m km).at _ (record {
      committed = safe.by_others w.calls w.store p.committed;
      uncommitted = p.uncommitted;
    });
  }

  Keeps-connect : Keeps (Holds Q) (connect collation driver)
  unfolding connect
  Keeps-connect = Keeps-call _ (record {
    at = λ w p. record { committed = p.committed; uncommitted = λ s waiting. absurd (cc) };
  })

  Keeps-count_eligible : (t : Table) → Keeps (Holds Q) (count_eligible collation driver t limit)
  unfolding count_eligible
  Keeps-count_eligible t = Keeps-call _ (record { at = λ w p. p })

  Holds-deleted :
      (t : Table) (w : World) (answer : Result (List (Row t) × ℕ))
      → change_rows
          (guards collation t driver.user w.store)
          (delete (is_eligible collation t limit w.store.audit_legal_holds))
          (rows t w.store)
        ≡ answer
      → Holds Q w
      → Holds Q (deleted t answer w).1
  unfolding deleted
  Holds-deleted t w (err e) h p = p
  Holds-deleted t w (ok done) h p = record {
    committed = p.committed;
    uncommitted = λ s waiting.
        let purged = safe.by_script t w.store p.committed in
        let same : with_rows t done.0 w.store ≡ s = cc in
        rw (← same) (rw (execute-purge collation driver.user t limit w.store done h) at purged);
  }

  Keeps-delete_eligible : (t : Table) → Keeps (Holds Q) (delete_eligible collation driver t limit)
  unfolding delete_eligible
  Keeps-delete_eligible t = Keeps-call _ (record { at = λ w p. Holds-deleted t w _ refl p })

  Holds-commit_pending :
      (w : World) (pending : Option Store)
      → w.pending ≡ pending
      → Holds Q w
      → Holds Q (commit_pending pending w)
  unfolding commit_pending
  Holds-commit_pending w none e p = p
  Holds-commit_pending w (some done) e p = record {
    committed = p.uncommitted done e;
    uncommitted = λ s waiting. absurd (cc);
  }

  Keeps-commit : Keeps (Holds Q) (commit collation driver)
  unfolding commit
  Keeps-commit = record {
    at = λ w p.
        (Keeps-invoke (driver.fault w.calls) _
            (record { at = λ v q. Holds-commit_pending v v.pending refl q })).at
          _ (record { committed = p.committed; uncommitted = p.uncommitted });
  }

  Keeps-after_count :
      (execute : Bool) (t : Table) (eligible : ℕ)
      → Keeps (Holds Q) (after_count collation driver execute t limit eligible)
  unfolding after_count delete_counted
  Keeps-after_count execute t eligible = Keeps-if (not execute) _ _ (Keeps-pure _) (
      Keeps-if (eligible ==ℕ 0) _ _ (Keeps-pure _) (
        Keeps-attempt (delete_eligible collation driver t limit) _ _ (Keeps-delete_eligible t)
          (λ n.
            Keeps-attempt (commit collation driver) _ _ Keeps-commit (λ u. Keeps-pure _)
              (λ e. Keeps-lift (err e)))
          (λ e. Keeps-lift (err e))))

  Keeps-clean_table :
      (execute : Bool) (t : Table) → Keeps (Holds Q) (clean_table collation driver execute limit t)
  unfolding clean_table table_round
  Keeps-clean_table execute t =
      Keeps-attempt (table_round collation driver execute limit t) _ _
        (Keeps-attempt (connect collation driver) _ _ Keeps-connect
          (λ u.
            Keeps-attempt (count_eligible collation driver t limit) _ _ (Keeps-count_eligible t)
              (λ n. Keeps-after_count execute t n) (λ e. Keeps-lift (err e)))
          (λ e. Keeps-lift (err e)))
        (λ outcome. Keeps-pure outcome) (λ e. Keeps-pure _)

  pub Keeps-clean_tables :
      (execute : Bool) (ts : List Table)
      → Keeps (Holds Q) (clean_tables collation driver execute limit ts)
  unfolding clean_tables
  Keeps-clean_tables execute [] = Keeps-pure []
  Keeps-clean_tables execute (t ∷ ts) =
      Keeps-attempt (clean_table collation driver execute limit t) _ _ (Keeps-clean_table execute t)
        (λ outcome.
          Keeps-attempt (clean_tables collation driver execute limit ts) _ _
            (Keeps-clean_tables execute ts) (λ rest. Keeps-pure _) (λ e. Keeps-lift (err e)))
        (λ e. Keeps-lift (err e))
