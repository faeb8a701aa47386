-- ===== src/Retention/Cleanup.antt =====
-- scripts/audit_retention_cleanup.py, on a database that other users use at the same time.
use omnibioai_security_audit.Prelude.{
  ℕ, ◌+◌, String, Bool, true, false, not, ◌&&◌, List, [], ◌∷◌, Option, none, some, ltb, ◌==ℕ◌,
  if◌then◌else◌,
}
use omnibioai_security_audit.Python.{Result, ok, err}
use omnibioai_security_audit.Python.Exec.{Exec, pure, attempt, ◌>>=◌, ◌>>◌}
use omnibioai_security_audit.Retention.Host.{Driver, World, call, invoke}
use omnibioai_security_audit.Retention.Store.{AuditLegalHold, Store, Collation, is_held}
use omnibioai_security_audit.Retention.Statement.{delete, change_rows}
use omnibioai_security_audit.Retention.Tables.{
  Table, Row, rows, table_name, key_of, date_of, with_rows, guards,
}

pub record Args : Type 0 where
  pub execute : Bool
  pub dry_run : Bool

-- An entry of `results`.
pub data Outcome : Type 0 where
  dry_run success : ℕ → Outcome
  partial : ℕ → ℕ → Outcome
  failed : String → Outcome

abbrev pub is_ok : Outcome → Bool
is_ok (dry_run n) = true
is_ok (success n) = true
is_ok (partial expected actual) = false
is_ok (failed kind) = false

abbrev pub status_of : Outcome → String
status_of (dry_run n) = "dry_run"
status_of (success n) = "success"
status_of (partial expected actual) = "partial"
status_of (failed kind) = "failed"

abbrev pub is_failed : Outcome → Bool
is_failed (failed kind) = true
is_failed _ = false

unfoldable pub count : {A : Type 0} → (A → Bool) → List A → ℕ
count test [] = 0
count test (x ∷ xs) = let n = count test xs in if test x then n + 1 else n

-- The rows that the WHERE of both statements finds.
unfoldable pub is_eligible : Collation → (t : Table) → ℕ → List AuditLegalHold → Row t → Bool
is_eligible collation t cutoff holds row =
    ltb (date_of t row).wall cutoff && not (is_held collation (table_name t) (key_of t row) holds)

-- The DELETE stays with the connection until it is committed.
unfoldable pub deleted : (t : Table) → Result (List (Row t) × ℕ) → Exec World ℕ
deleted t (err e) w = (err e, w)
deleted t (ok done) w = (ok done.1, record w { pending = some (with_rows t done.0 w.store) })

unfoldable pub commit_pending : Option Store → World → World
commit_pending none w = w
commit_pending (some done) w = record w { store = done; pending = none }

unfoldable pub report_deleted : ℕ → ℕ → Outcome
report_deleted eligible deleted =
    if deleted ==ℕ eligible then success deleted else partial eligible deleted

module _ (collation : Collation) (driver : Driver) where
  unfoldable pub count_eligible : Table → ℕ → Exec World ℕ
  count_eligible t cutoff = call collation driver (λ w.
      (ok (count (is_eligible collation t cutoff w.store.audit_legal_holds) (rows t w.store)), w))

  unfoldable pub delete_eligible : Table → ℕ → Exec World ℕ
  unfolding deleted
  delete_eligible t cutoff = call collation driver (λ w.
      deleted t
        (change_rows (guards collation t driver.user w.store)
          (delete (is_eligible collation t cutoff w.store.audit_legal_holds)) (rows t w.store))
        w)

  -- `conn.commit()`: nothing is committed in between.
  unfoldable pub commit : Exec World (Unit {0})
  unfolding commit_pending invoke
  commit w =
      invoke (driver.fault w.calls) (λ v. (ok tt, commit_pending v.pending v))
        (record w { calls = w.calls + 1 })

  unfoldable pub delete_counted : Table → ℕ → ℕ → Exec World Outcome
  delete_counted t cutoff eligible =
      delete_eligible t cutoff >>= λ deleted. commit >> pure (report_deleted eligible deleted)

  unfoldable pub after_count : Bool → Table → ℕ → ℕ → Exec World Outcome
  after_count execute t cutoff eligible =
      if not execute
      then pure (dry_run eligible)
      else if eligible ==ℕ 0
      then pure (success 0)
      else delete_counted t cutoff eligible

  -- `engine.connect()` begins with no uncommitted work.
  unfoldable pub connect : Exec World (Unit {0})
  connect = call collation driver (λ w. (ok tt, record w { pending = none }))

  -- The body of the `try`.
  unfoldable pub table_round : Bool → ℕ → Table → Exec World Outcome
  table_round execute cutoff t =
      connect >> (count_eligible t cutoff >>= after_count execute t cutoff)

  -- One round of the loop over the tables.
  unfoldable pub clean_table : Bool → ℕ → Table → Exec World Outcome
  clean_table execute cutoff t =
      attempt (table_round execute cutoff t) pure (λ e. pure (failed e.kind))

  unfoldable pub clean_tables : Bool → ℕ → List Table → Exec World (List (Table × Outcome))
  clean_tables execute cutoff [] = pure []
  clean_tables execute cutoff (t ∷ ts) = clean_table execute cutoff t >>= λ outcome.
      clean_tables execute cutoff ts >>= λ rest. pure ((t, outcome) ∷ rest)
