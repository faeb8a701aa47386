-- ===== src/Retention/Complete.antt =====
-- On a server that answers, with the right user, a run of the script ends with 0.
use omnibioai_security_audit.Prelude.{
  ℕ, suc, ◌+◌, ◌*◌, ◌≡◌, refl, sym, ap, ◌∙◌, inl, inr, arith, String, Bool, true, false, ◌&&◌, List,
  [], ◌∷◌, ◌++◌, none, some, Bool-cases, Option-cases, ◌==ℕ◌,
}
use omnibioai_security_audit.Python.{ok, err}
use omnibioai_security_audit.Python.Exec.{Exec}
use omnibioai_security_audit.Python.Exec.Keeps.{attempt-of_ok}
use omnibioai_security_audit.Python.Int.{pos}
use omnibioai_security_audit.Python.Time.{backward}
use omnibioai_security_audit.Library.{Library}
use omnibioai_security_audit.StatusFile.{setting, status_path}
use omnibioai_security_audit.Retention.Host.{
  Driver, Host, World, call, fine, invoke, now, write_file,
}
use omnibioai_security_audit.Retention.Store.{Store, Collation, Trigger, each_row, is_maintenance}
use omnibioai_security_audit.Retention.Statement.{change_rows, run, event_guards, quarantine_guards}
use omnibioai_security_audit.Retention.Tables.{
  Table, audit_events, quarantined_audit_events, Row, rows, guards, with_rows,
}
use omnibioai_security_audit.Retention.Cleanup.{
  Args, Outcome, dry_run, success, is_ok, count, is_eligible, deleted, connect, count_eligible,
  delete_eligible, delete_counted, commit, commit_pending, report_deleted, after_count, table_round,
  clean_table, clean_tables,
}
use omnibioai_security_audit.Retention.Main.{
  tables, day, all_ok, cutoff, write_status_file, exit_code, finish, retain, main, mode_of,
}
use omnibioai_security_audit.Retention.Purge.{change_rows-delete}
use omnibioai_security_audit.Retention.Exact.{IsAlone, reported_all}
use omnibioai_security_audit.Retention.Expected.{left_by}
use omnibioai_security_audit.Retention.Honest.{main_configured, retain-eq-zero}

-- No call of the driver fails, nobody else uses the database, and its user may delete.
pub record IsReady (collation : Collation) (driver : Driver) : Type 0 where
  pub alone : IsAlone driver
  pub works : (n : ℕ) → driver.fault n ≡ fine
  pub may_delete : is_maintenance collation driver.user ≡ true

each_row-passes :
    {A : Type 0} (trigger : Trigger A) (matches : A → Bool) (change : A → List A) (rs : List A)
    → ((x : A) → matches x ≡ true → trigger x ≡ ok tt)
    → (done : List A × ℕ) × (each_row trigger matches change rs ≡ ok done)
unfolding each_row
each_row-passes trigger matches change [] passes = (([], 0), refl)
each_row-passes trigger matches change (x ∷ rs) passes =
    let (rest, made) = each_row-passes trigger matches change rs passes in
    elim (Bool-cases (matches x)) [
      | inl t ↦ ((change x ++ rest.0, rest.1 + 1), rw (t, each_row) (rw (passes x t, made) refl))
      | inr f ↦ ((x ∷ rest.0, rest.1), rw (f, each_row) (rw made refl))
    ]

-- The triggers let the maintenance user delete every eligible row.
eligible-passes :
    (collation : Collation) (user : String) (t : Table) (limit : ℕ) (s : Store) (row : Row t)
    → is_maintenance collation user ≡ true
    → is_eligible collation t limit s.audit_legal_holds row ≡ true
    → (guards collation t user s).no_delete row ≡ ok tt
unfolding event_guards quarantine_guards is_eligible
eligible-passes collation user audit_events limit s row may h = ground arith
eligible-passes collation user quarantined_audit_events limit s row may h = ground arith

module _ (collation : Collation) (driver : Driver) (ready : IsReady collation driver) where
  call-ready :
      {A : Type 0} (m : Exec World A) (w : World)
      → call collation driver m w ≡ m (record w { calls = w.calls + 1 })
  unfolding call run invoke
  call-ready {A} m w =
      ap
        (λ f.
          invoke f m (record w {
            store = run collation (driver.others w.calls) w.store;
            calls = w.calls + 1;
          }))
        (ready.works w.calls)
      ∙ ap (λ steps. m (record w { store = run collation steps w.store; calls = w.calls + 1 }))
          (ready.alone w.calls)

  delete_eligible-ready :
      (t : Table) (limit : ℕ) (w : World)
      → (left : Store) × (delete_eligible collation driver t limit w ≡ (
        ok (count (is_eligible collation t limit w.store.audit_legal_holds) (rows t w.store)),
        record w { pending = some left; calls = w.calls + 1 },
      ))
  unfolding delete_eligible deleted change_rows
  delete_eligible-ready t limit w =
      let (done, made) =
        each_row-passes (guards collation t driver.user w.store).no_delete
          (is_eligible collation t limit w.store.audit_legal_holds) (λ row. []) (rows t w.store)
          (λ row h. eligible-passes collation driver.user t limit w.store row ready.may_delete h) in
      let counted =
        ap (λ d. d.1) (change_rows-delete collation driver.user t w.store _ done made) in
      (with_rows t done.0 w.store, call-ready _ w ∙ rw (made, deleted, ← counted) refl)

  commit-ready :
      (w : World) (v : World)
      → commit_pending w.pending (record w { calls = w.calls + 1 }) ≡ v
      → commit collation driver w ≡ (ok tt, v)
  unfolding commit invoke
  commit-ready w v e = rw (ready.works w.calls) (ap (λ x. (ok tt, x)) e)

  delete_counted-ready :
      (t : Table) (limit eligible : ℕ) (w : World)
      → eligible ≡ count (is_eligible collation t limit w.store.audit_legal_holds) (rows t w.store)
      → (delete_counted collation driver t limit eligible w).0 ≡ ok (success eligible)
  unfolding delete_counted
  delete_counted-ready t limit eligible w counted =
      let (left, made) = delete_eligible-ready t limit w in
      rw (made, commit-ready (record w { pending = some left; calls = w.calls + 1 }) _ refl)
        (ap ok (
          ap (report_deleted eligible) (sym counted)
          ∙ reported_all collation eligible eligible refl))

  after_count-ready :
      (execute : Bool) (t : Table) (limit eligible : ℕ) (w : World)
      → eligible ≡ count (is_eligible collation t limit w.store.audit_legal_holds) (rows t w.store)
      → (outcome : Outcome) × ((after_count collation driver execute t limit eligible w).0
          ≡ ok outcome)
        × (is_ok outcome ≡ true)
  unfolding after_count
  after_count-ready false t limit eligible w counted = (dry_run eligible, refl, refl)
  after_count-ready true t limit eligible w counted = elim (Bool-cases (eligible ==ℕ 0)) [
    | inl zero_left ↦ (success 0, rw zero_left refl, refl)
    | inr more ↦ (success eligible, rw more (delete_counted-ready t limit eligible w counted), refl)
  ]

  clean_table-ready :
      (execute : Bool) (t : Table) (limit : ℕ) (w : World)
      → (outcome : Outcome) × ((clean_table collation driver execute limit t w).0 ≡ ok outcome)
        × (is_ok outcome ≡ true)
  unfolding clean_table table_round connect count_eligible
  clean_table-ready execute t limit w =
      let first = call-ready (λ v. (ok tt, record v { pending = none })) w in
      let second =
        call-ready
          (λ v. (
            ok (count (is_eligible collation t limit v.store.audit_legal_holds) (rows t v.store)),
            v,
          ))
          (record w { calls = w.calls + 1; pending = none }) in
      let (outcome, ends, good) =
        after_count-ready execute t limit
          (count (is_eligible collation t limit w.store.audit_legal_holds) (rows t w.store))
          (record w { calls = w.calls + 1 + 1; pending = none }) refl in
      (outcome, rw (first, second, ends) refl, good)

  clean_tables-ready :
      (execute : Bool) (limit : ℕ) (ts : List Table) (w : World)
      → (results : List (Table × Outcome)) × ((clean_tables collation driver execute limit ts w).0
          ≡ ok results)
        × (all_ok results ≡ true)
  unfolding clean_tables all_ok
  clean_tables-ready execute limit [] w = ([], refl, refl)
  clean_tables-ready execute limit (t ∷ ts) w =
      let (outcome, ran, good) = clean_table-ready execute t limit w in
      let (rest, ran_later, all_good) =
        clean_tables-ready execute limit ts (clean_table collation driver execute limit t w).1 in
      ((t, outcome) ∷ rest, rw (ran, ran_later) refl, ground arith)

module _ (lib : Library) (host : Host) where
  write_status_file-ready :
      (mode : String) (good : Bool) (results : List (Table × Outcome)) (w : World)
      → ((path : String) → host.write_error path ≡ none)
      → (write_status_file lib host mode good results w).0 ≡ ok tt
  unfolding write_status_file write_file now
  write_status_file-ready mode good results w writes =
      elim (Option-cases (setting "AUDIT_HEALTH_STATUS_DIR" host.environ)) [
        | inl unset ↦ rw (unset, write_status_file) refl
        | inr (dir, set) ↦
            rw (set, write_status_file)
              (rw (writes (status_path dir "audit-retention-run.env"), write_file) refl)
      ]

  finish-ready :
      (args : Args) (results : List (Table × Outcome)) (w : World)
      → ((path : String) → host.write_error path ≡ none)
      → all_ok results ≡ true
      → (finish lib host args results w).0 ≡ ok 0
  unfolding finish exit_code
  finish-ready args results w writes good =
      let write = write_status_file lib host (mode_of args) (all_ok results) results in
      let chain : finish lib host args results w ≡ exit_code lib host args results (write w).1 =
        attempt-of_ok write _ _ w
          (write_status_file-ready (mode_of args) (all_ok results) results w writes) in
      ap (λ r. r.0) chain ∙ rw (good, exit_code) refl

  pub retain-ready :
      (args : Args) (days limit : ℕ) (url : String) (driver : Driver) (w : World)
      → host.create_engine url ≡ ok driver
      → IsReady host.collation driver
      → backward (host.utcnow w.draws) (days * day) ≡ ok limit
      → ((path : String) → host.write_error path ≡ none)
      → (retain lib host args days url w).0 ≡ ok 0
  unfolding retain cutoff now
  retain-ready args days limit url driver w opened ready cut writes =
      let start = record w { draws = w.draws + 1 } in
      let clean = clean_tables host.collation driver args.execute limit tables in
      let (results, ran, good) =
        clean_tables-ready host.collation driver ready args.execute limit tables start in
      let ends = finish-ready args results (clean start).1 writes good in
      let chain = attempt-of_ok clean (finish lib host args) (λ e s. (err e, s)) start ran in
      rw (cut, opened) (ap (λ r. r.0) chain ∙ ends)

  -- With the retention days and the maintenance URL set, a server that is ready, and a status file
  -- that can be written: a run that is not asked for a dry run and for execution at once returns 0,
  -- and leaves both tables without exactly the rows that are older than the cutoff and not under
  -- legal hold if it was to execute, and the database as it was if not.
  pub main_purges :
      (args : Args) (raw url : String) (n limit : ℕ) (driver : Driver) (w : World)
      → args.dry_run && args.execute ≡ false
      → setting "AUDIT_RETENTION_DAYS" host.environ ≡ some raw
      → host.int raw ≡ some (pos (suc n))
      → setting "AUDIT_MAINTENANCE_DATABASE_URL" host.environ ≡ some url
      → host.create_engine url ≡ ok driver
      → IsReady host.collation driver
      → backward (host.utcnow w.draws) (suc n * 86400000000) ≡ ok limit
      → ((path : String) → host.write_error path ≡ none)
      → ((main lib host args w).0 ≡ ok 0)
        × ((main lib host args w).1.store ≡ left_by host.collation args.execute limit w.store)
  main_purges args raw url n limit driver w single set days named opened ready cut writes =
      let runs = main_configured lib host args raw n w url single set days named in
      let ends = retain-ready args (suc n) limit url driver w opened ready cut writes in
      let same : (d : Driver) → host.create_engine url ≡ ok d → IsAlone d =
        λ d opened_d. let e : driver ≡ d = cc in rw (← e) ready.alone in
      let (limit', cut', left) = retain-eq-zero lib host args (suc n) url w same ends in
      let e : limit' ≡ limit = cc in
      (ap (λ r. r.0) runs ∙ ends, ap (λ r. r.1.store) runs ∙ rw e at left)
