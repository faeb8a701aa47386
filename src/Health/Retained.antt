-- ===== src/Health/Retained.antt =====
-- What the health service says of a run of the retention script, against the tables it left.
use omnibioai_security_audit.Prelude.{
  ℕ, ◌≡◌, ◌⊎◌, ◌+◌, refl, sym, ap, ◌∙◌, inl, inr, arith, String, Bool, true, false, List, [], ◌∷◌,
  length, none, some, Bool-cases, if◌then◌else◌,
}
use omnibioai_security_audit.Python.{ok, ok-inj}
use omnibioai_security_audit.Python.Exec.Keeps.{attempt-of_ok, bind-eq-ok}
use omnibioai_security_audit.Python.Int.{pos}
use omnibioai_security_audit.Library.{Library}
use omnibioai_security_audit.StatusFile.{setting, status_path, is_one_line, is_line_break}
use omnibioai_security_audit.Retention.Store.{Store, Collation}
use omnibioai_security_audit.Retention.Tables.{Table, audit_events, quarantined_audit_events, rows}
use omnibioai_security_audit.Retention.Host.{Driver, Host, World, utc, now, raise_alert, write_file}
use omnibioai_security_audit.Retention.Cleanup.{
  Args, Outcome, is_eligible, count, clean_table, clean_tables,
}
use omnibioai_security_audit.Retention.Main.{
  tables, all_ok, total_deleted, deleted_of, mode_of, write_status_file, exit_code, finish, retain,
}
use omnibioai_security_audit.Retention.Purge.{without, purge}
use omnibioai_security_audit.Retention.Exact.{IsAlone, Leaves, clean_table-ok}
use omnibioai_security_audit.Retention.Honest.{write_status_file-store, retain-ran}
use omnibioai_security_audit.Health.{RetentionIntegrityHealth, get_retention_integrity_health}
use omnibioai_security_audit.Health.Reported.{IsPlain, retention_reported}

-- The number of rows in the two evidence tables.
abbrev pub size : Store → ℕ
size store = length store.audit_events + length store.quarantined_audit_events

length-without :
    {A : Type 0} (test : A → Bool) (xs : List A)
    → count test xs + length (without test xs) ≡ length xs
unfolding count
length-without test [] = refl
length-without test (x ∷ xs) =
    let ih = length-without test xs in
    elim (Bool-cases (test x)) [
      | inl t ↦ rw t (omega (arith, ih))
      | inr f ↦ rw f (omega (arith, ih))
    ]

size-purge :
    (collation : Collation) (t : Table) (limit : ℕ) (store : Store)
    → count (is_eligible collation t limit store.audit_legal_holds) (rows t store)
        + size (purge collation t limit store)
      ≡ size store
unfolding purge
size-purge collation audit_events limit store = omega (
  arith,
  length-without (is_eligible collation audit_events limit store.audit_legal_holds)
      store.audit_events,
)
size-purge collation quarantined_audit_events limit store = omega (
  arith,
  length-without (is_eligible collation quarantined_audit_events limit store.audit_legal_holds)
      store.quarantined_audit_events,
)

-- A table's round that went well took away as many rows as it counts as deleted.
deleted_of-size :
    (collation : Collation) (execute : Bool) (t : Table) (limit : ℕ) (store left : Store)
    (outcome : Outcome)
    → Leaves collation execute t limit store outcome left
    → deleted_of outcome + size left ≡ size store
deleted_of-size collation false t limit store left outcome h = rw (h.0, h.1) (omega arith)
deleted_of-size collation true t limit store left outcome h =
    rw (h.0, h.1) (size-purge collation t limit store)

total_deleted-size :
    (collation : Collation) (driver : Driver) (alone : IsAlone driver) (execute : Bool) (limit : ℕ)
    (ts : List Table) (w : World) (results : List (Table × Outcome))
    → (clean_tables collation driver execute limit ts w).0 ≡ ok results
    → all_ok results ≡ true
    → total_deleted results + size (clean_tables collation driver execute limit ts w).1.store
      ≡ size w.store
unfolding clean_tables all_ok total_deleted
total_deleted-size collation driver alone execute limit [] w results h good =
    rw (← ok-inj h) (omega arith)
total_deleted-size collation driver alone execute limit (t ∷ ts) w results h good =
    let first = clean_table collation driver execute limit t in
    let others = clean_tables collation driver execute limit ts in
    let (outcome, ran, rest) = bind-eq-ok first _ w h in
    let (later, ran_later, same) = bind-eq-ok others _ (first w).1 rest in
    let both = ap all_ok (ok-inj same) ∙ good in
    let here =
      deleted_of-size collation execute t limit w.store (first w).1.store outcome
        (clean_table-ok collation driver alone execute t limit w outcome ran (ground arith)) in
    let there =
      total_deleted-size collation driver alone execute limit ts (first w).1 later ran_later
        (ground arith) in
    let chain : clean_tables collation driver execute limit (t ∷ ts) w
        ≡ (ok ((t, outcome) ∷ later), (others (first w).1).1) =
      attempt-of_ok first _ _ w ran ∙ attempt-of_ok others _ _ (first w).1 ran_later in
    let total = ap total_deleted (sym (ok-inj same)) in
    let left = ap (λ r. size r.1.store) chain in rw (total, left) (omega (arith, here, there))

is_one_line-mode_of : (args : Args) → is_one_line (mode_of args) ≡ true
unfolding mode_of is_one_line is_line_break
is_one_line-mode_of args = elim (Bool-cases args.execute) [
  | inl yes_ ↦ rw yes_ refl
  | inr no_ ↦ rw no_ refl
]

module _ (lib : Library) (host : Host) (plain : IsPlain lib host) (dir : String) where
  -- The text that is reported of a run, and the reading of the clock before the file was written.
  abbrev pub IsReported : RetentionIntegrityHealth → String → ℕ → Type 0
  IsReported health result draw =
      (health.last_retention_run_ts ≡ some (lib.isoformat (utc (host.utcnow draw))))
      × (health.last_retention_run_result ≡ some result)

  write_status_file-ok :
      (mode : String) (good : Bool) (results : List (Table × Outcome)) (v : World)
      → setting "AUDIT_HEALTH_STATUS_DIR" host.environ ≡ some dir
      → host.write_error (status_path dir "audit-retention-run.env") ≡ none
      → let written = write_status_file lib host mode good results v in
        (written.0 ≡ ok tt) × (written.1.draws ≡ v.draws + 1)
  unfolding write_status_file write_file now
  write_status_file-ok mode good results v set writes =
      rw (set, write_status_file) (rw (writes, write_file) (refl, refl))

  -- How the two ends of `main` leave the world behind the status file.
  exit_code-ends :
      (args : Args) (results : List (Table × Outcome)) (v : World) (code : ℕ)
      → (exit_code lib host args results v).0 ≡ ok code
      → let v' = (exit_code lib host args results v).1 in
        (v'.files ≡ v.files)
        × (v'.store ≡ v.store)
        × (((code ≡ 0) × (all_ok results ≡ true) × (v'.draws ≡ v.draws))
            ⊎ ((code ≡ 1) × (all_ok results ≡ false) × (v'.draws ≡ v.draws + 1)))
  unfolding exit_code raise_alert
  exit_code-ends args results v code h = elim (Bool-cases (all_ok results)) [
    | inl good ↦
        let zero_code = ok-inj (rw good at h) in
        rw (good, exit_code) (refl, refl, inl (sym zero_code, refl, refl))
    | inr bad ↦
        let one_code = ok-inj (rw bad at h) in
        rw (bad, exit_code) (refl, refl, inr (sym one_code, refl, refl))
  ]

  -- If times and numbers are written on one line and `int` reads back what `str` writes, the status
  -- file can be written, and nobody else uses the database: under any faults of the driver, a run
  -- that returns 0 is reported as a success, with the number of rows that it took away from the two
  -- tables, and one that returns 1 as failed or partial, both with the clock's reading before the
  -- file was written; and no other code is returned.
  pub retain-IsReported :
      (args : Args) (retention_days : ℕ) (url : String) (w : World) (code : ℕ)
      → setting "AUDIT_HEALTH_STATUS_DIR" host.environ ≡ some dir
      → host.write_error (status_path dir "audit-retention-run.env") ≡ none
      → ((driver : Driver) → host.create_engine url ≡ ok driver → IsAlone driver)
      → (retain lib host args retention_days url w).0 ≡ ok code
      → let w' = (retain lib host args retention_days url w).1 in
        let health = get_retention_integrity_health host.int host.environ w'.files in
        ((code ≡ 0)
          × (draw : ℕ) × (w'.draws ≡ draw + 1)
          × IsReported health "success" draw
          × (n : ℕ) × (health.last_retention_deleted_total ≡ some (pos n))
          × (n + size w'.store ≡ size w.store))
        ⊎ ((code ≡ 1)
            × (draw : ℕ) × (w'.draws ≡ draw + 1 + 1)
            × IsReported health "failed_or_partial" draw)
  unfolding finish
  retain-IsReported args retention_days url w code set writes alone h =
      let (limit, driver, results, cut, opened, cleaned, chain) =
        retain-ran lib host args retention_days url w code h in
      let start = record w { draws = w.draws + 1 } in
      let v = (clean_tables host.collation driver args.execute limit tables start).1 in
      let write = write_status_file lib host (mode_of args) (all_ok results) results in
      let (written, drawn) =
        write_status_file-ok (mode_of args) (all_ok results) results v set writes in
      let ran : retain lib host args retention_days url w
          ≡ exit_code lib host args results (write v).1 =
        chain ∙ attempt-of_ok write _ _ v written in
      let (files, store, ends) =
        exit_code-ends args results (write v).1 code (sym (ap (λ r. r.0) ran) ∙ h) in
      let (ts, result, total, source) =
        retention_reported lib host plain (mode_of args) dir (all_ok results) results v
          (is_one_line-mode_of args) set writes in
      let same_files = ap (λ r. r.1.files) ran ∙ files in
      let same_store =
        ap (λ r. r.1.store) ran
        ∙ store
        ∙ write_status_file-store lib host (mode_of args) (all_ok results) results v in
      rw same_files (elim ends [
        | inl (zero_code, good, last) ↦
            let counted =
              total_deleted-size host.collation driver (alone driver opened) args.execute limit
                tables start results cleaned good in
            inl (
              zero_code,
              v.draws,
              ap (λ r. r.1.draws) ran ∙ last ∙ drawn,
              (ts, result ∙ ap (λ g. some (if g then "success" else "failed_or_partial")) good),
              total_deleted results,
              total,
              ap (λ s. total_deleted results + size s) same_store ∙ counted,
            )
        | inr (one_code, bad, last) ↦ inr (
          one_code,
          v.draws,
          ap (λ r. r.1.draws) ran ∙ last ∙ ap (λ n. n + 1) drawn,
          (ts, result ∙ ap (λ g. some (if g then "success" else "failed_or_partial")) bad),
        )
      ])
