-- ===== src/Retention/Honest.antt =====
-- The exit code of the whole script, against the abstract purge of both tables.
use omnibioai_security_audit.Prelude.{
  ℕ, suc, ◌≡◌, ◌+◌, ◌*◌, refl, sym, ap, ◌∙◌, inl, inr, arith, String, Bool, true, false, ◌&&◌, List,
  [], ◌∷◌, none, some, Bool-cases, Option-cases, if◌then◌else◌,
}
use omnibioai_security_audit.Python.{ok, err, ok-inj}
use omnibioai_security_audit.Python.Exec.{lift}
use omnibioai_security_audit.Python.Exec.Keeps.{attempt-of_ok, bind-eq-ok}
use omnibioai_security_audit.Python.Int.{pos}
use omnibioai_security_audit.Python.Time.{backward}
use omnibioai_security_audit.Library.{Library}
use omnibioai_security_audit.StatusFile.{setting}
use omnibioai_security_audit.Retention.Host.{Driver, Host, World, now, raise_alert, write_file}
use omnibioai_security_audit.Retention.Store.{Store, Collation}
use omnibioai_security_audit.Retention.Tables.{Table}
use omnibioai_security_audit.Retention.Cleanup.{Args, Outcome, clean_table, clean_tables}
use omnibioai_security_audit.Retention.Main.{
  tables, day, all_ok, cutoff, write_status_file, exit_code, finish, retain, with_days, main,
  usage_error, mode_of,
}
use omnibioai_security_audit.Retention.Purge.{purge}
use omnibioai_security_audit.Retention.Expected.{left_by, swept, swept-left_by}
use omnibioai_security_audit.Retention.Exact.{IsAlone, Leaves, clean_table-ok}

Leaves-store :
    (collation : Collation) (execute : Bool) (t : Table) (limit : ℕ) (store left : Store)
    (outcome : Outcome)
    → Leaves collation execute t limit store outcome left
    → left ≡ (if execute then purge collation t limit store else store)
Leaves-store collation false t limit store left outcome h = h.1
Leaves-store collation true t limit store left outcome h = h.1

clean_tables-ok :
    (collation : Collation) (driver : Driver) (alone : IsAlone driver) (execute : Bool) (limit : ℕ)
    (ts : List Table) (w : World) (results : List (Table × Outcome))
    → (clean_tables collation driver execute limit ts w).0 ≡ ok results
    → all_ok results ≡ true
    → (clean_tables collation driver execute limit ts w).1.store
      ≡ swept collation execute limit ts w.store
unfolding clean_tables all_ok
clean_tables-ok collation driver alone execute limit [] w results h good = refl
clean_tables-ok collation driver alone execute limit (t ∷ ts) w results h good =
    let first = clean_table collation driver execute limit t in
    let others = clean_tables collation driver execute limit ts in
    let (outcome, ran, rest) = bind-eq-ok first _ w h in
    let (later, ran_later, same) = bind-eq-ok others _ (first w).1 rest in
    let both = ap all_ok (ok-inj same) ∙ good in
    let here =
      Leaves-store collation execute t limit w.store (first w).1.store outcome
        (clean_table-ok collation driver alone execute t limit w outcome ran (ground arith)) in
    let there =
      clean_tables-ok collation driver alone execute limit ts (first w).1 later ran_later
        (ground arith) in
    let chain : clean_tables collation driver execute limit (t ∷ ts) w
        ≡ (ok ((t, outcome) ∷ later), (others (first w).1).1) =
      attempt-of_ok first _ _ w ran ∙ attempt-of_ok others _ _ (first w).1 ran_later in
    ap (λ r. r.1.store) chain ∙ there ∙ ap (swept collation execute limit ts) here

module _ (lib : Library) (host : Host) where
  write_file-store :
      (path content : String) (w : World) → (write_file lib host path content w).1.store ≡ w.store
  unfolding write_file
  write_file-store path content w = ground arith

  pub write_status_file-store :
      (mode : String) (good : Bool) (results : List (Table × Outcome)) (w : World)
      → (write_status_file lib host mode good results w).1.store ≡ w.store
  unfolding write_status_file now
  write_status_file-store mode good results w =
      elim (Option-cases (setting "AUDIT_HEALTH_STATUS_DIR" host.environ)) [
        | inl unset ↦ rw (unset, write_status_file) refl
        | inr (dir, set) ↦ rw (set, write_status_file) (write_file-store _ _ _)
      ]

  finish-eq-zero :
      (args : Args) (results : List (Table × Outcome)) (w : World)
      → (finish lib host args results w).0 ≡ ok 0
      → (all_ok results ≡ true) × ((finish lib host args results w).1.store ≡ w.store)
  unfolding finish exit_code raise_alert
  finish-eq-zero args results w h =
      let write = write_status_file lib host (mode_of args) (all_ok results) results in
      let (u, written, rest) = bind-eq-ok write _ w h in
      elim (Bool-cases (all_ok results)) [
        | inl good ↦
            let chain : finish lib host args results w
                ≡ exit_code lib host args results (write w).1 =
              attempt-of_ok write _ _ w written in
            let done : exit_code lib host args results (write w).1 ≡ (ok 0, (write w).1) =
              rw good refl in
            (
              good,
              ap (λ r. r.1.store) (chain ∙ done)
                  ∙ write_status_file-store (mode_of args) (all_ok results) results w,
            )
        | inr bad ↦ absurd (let one = ok-inj (rw bad at rest) in omega arith)
      ]

  -- A run that returned read the clock, opened the database, cleaned the tables and finished.
  pub retain-ran :
      (args : Args) (retention_days : ℕ) (url : String) (w : World) (code : ℕ)
      → (retain lib host args retention_days url w).0 ≡ ok code
      → let start = record w { draws = w.draws + 1 } in
        (limit : ℕ) × (driver : Driver) × (results : List (Table × Outcome)) × (backward
            (host.utcnow w.draws)
            (retention_days * day)
          ≡ ok limit)
        × (host.create_engine url ≡ ok driver)
        × ((clean_tables host.collation driver args.execute limit tables start).0 ≡ ok results)
        × (retain lib host args retention_days url w
            ≡ finish lib host args results
                (clean_tables host.collation driver args.execute limit tables start).1)
  unfolding retain cutoff now
  retain-ran args retention_days url w code h =
      let start = cutoff lib host retention_days in
      let (limit, set, rest) = bind-eq-ok start _ w h in
      let open_engine = lift {S = World} (host.create_engine url) in
      let (driver, opened, rest') = bind-eq-ok open_engine _ (start w).1 rest in
      let clean = clean_tables host.collation driver args.execute limit tables in
      let (results, cleaned, rest'') = bind-eq-ok clean _ (start w).1 rest' in
      (
        limit,
        driver,
        results,
        set,
        opened,
        cleaned,
        attempt-of_ok start _ _ w set
            ∙ attempt-of_ok open_engine _ _ (start w).1 opened
            ∙ attempt-of_ok clean _ _ (start w).1 cleaned,
      )

  pub retain-eq-zero :
      (args : Args) (retention_days : ℕ) (url : String) (w : World)
      → ((driver : Driver) → host.create_engine url ≡ ok driver → IsAlone driver)
      → (retain lib host args retention_days url w).0 ≡ ok 0
      → (limit : ℕ) × (backward (host.utcnow w.draws) (retention_days * day) ≡ ok limit)
        × ((retain lib host args retention_days url w).1.store
            ≡ left_by host.collation args.execute limit w.store)
  retain-eq-zero args retention_days url w alone h =
      let start = record w { draws = w.draws + 1 } in
      let (limit, driver, results, set, opened, cleaned, chain) =
        retain-ran args retention_days url w 0 h in
      let clean = clean_tables host.collation driver args.execute limit tables in
      let (good, kept) =
        finish-eq-zero args results (clean start).1 (sym (ap (λ r. r.0) chain) ∙ h) in
      (
        limit,
        set,
        ap (λ r. r.1.store) chain
            ∙ kept
            ∙ clean_tables-ok host.collation driver (alone driver opened) args.execute limit tables
                start results cleaned good
            ∙ swept-left_by host.collation args.execute limit w.store,
      )

  main_refused :
      (args : Args) (w : World)
      → args.dry_run && args.execute ≡ true
      → (main lib host args w).0 ≡ err usage_error
  unfolding main
  main_refused args w both = rw both refl

  -- The gates of a run for a positive number of days.
  module _ (args : Args) (raw : String) (n : ℕ) (w : World) where
    pub main_configured :
        (url : String)
        → args.dry_run && args.execute ≡ false
        → setting "AUDIT_RETENTION_DAYS" host.environ ≡ some raw
        → host.int raw ≡ some (pos (suc n))
        → setting "AUDIT_MAINTENANCE_DATABASE_URL" host.environ ≡ some url
        → main lib host args w ≡ retain lib host args (suc n) url w
    unfolding main with_days
    main_configured url single set days named = rw (single, set, days, named, main, with_days) refl

    main_unset :
        args.dry_run && args.execute ≡ false
        → setting "AUDIT_RETENTION_DAYS" host.environ ≡ some raw
        → host.int raw ≡ some (pos (suc n))
        → setting "AUDIT_MAINTENANCE_DATABASE_URL" host.environ ≡ none
        → main lib host args w ≡ (ok 1, w)
    unfolding main with_days
    main_unset single set days unset = rw (single, set, days, unset, main, with_days) refl

  -- When nobody else uses the database: a run for a positive number of days that returns 0 under any
  -- faults of the driver had the maintenance URL, and a cutoff by the clock at its start; if it was to
  -- execute, it leaves both tables without exactly the rows that are older than the cutoff and not
  -- under legal hold, and if it was a dry run it leaves the database as it was.
  pub main-eq-zero :
      (args : Args) (raw : String) (n : ℕ) (w : World)
      → ((url : String) (driver : Driver) → host.create_engine url ≡ ok driver → IsAlone driver)
      → setting "AUDIT_RETENTION_DAYS" host.environ ≡ some raw
      → host.int raw ≡ some (pos (suc n))
      → (main lib host args w).0 ≡ ok 0
      → (url : String) × (setting "AUDIT_MAINTENANCE_DATABASE_URL" host.environ ≡ some url)
        × (limit : ℕ) × (backward (host.utcnow w.draws) (suc n * 86400000000) ≡ ok limit)
        × ((main lib host args w).1.store ≡ left_by host.collation args.execute limit w.store)
  main-eq-zero args raw n w alone set days h = elim (Bool-cases (args.dry_run && args.execute)) [
    | inl both ↦ absurd (let bad = main_refused args w both in cc)
    | inr single ↦ elim (Option-cases (setting "AUDIT_MAINTENANCE_DATABASE_URL" host.environ)) [
      | inl unset ↦
          let one = main_unset args raw n w single set days unset in
          absurd (let bad = ok-inj (sym (ap (λ r. r.0) one) ∙ h) in omega arith)
      | inr (url, named) ↦
          let runs = main_configured args raw n w url single set days named in
          let (limit, cut, left) = retain-eq-zero args (suc n) url w (alone url) (rw runs at h) in
          (url, named, limit, cut, ap (λ r. r.1.store) runs ∙ left)
    ]
  ]
