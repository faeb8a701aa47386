-- ===== src/Retention/Exact.antt =====
-- An exit code 0 of an executed run means that exactly the eligible rows are gone.
use omnibioai_security_audit.Prelude.{
  ℕ, ◌+◌, ◌≡◌, refl, sym, ap, ◌∙◌, inl, inr, arith, Bool, true, false, [], none, some, Bool-cases,
  ◌==ℕ◌,
}
use omnibioai_security_audit.Python.{ok, err, ok-inj}
use omnibioai_security_audit.Python.Exec.{Exec, lift}
use omnibioai_security_audit.Python.Exec.Keeps.{attempt-of_ok, attempt-eq-ok, bind-eq-ok}
use omnibioai_security_audit.Retention.Host.{
  Driver, Fault, World, after, before, call, fine, invoke,
}
use omnibioai_security_audit.Retention.Store.{Store, Collation}
use omnibioai_security_audit.Retention.Statement.{delete, change_rows, run}
use omnibioai_security_audit.Retention.Tables.{Table, rows, with_rows, guards}
use omnibioai_security_audit.Retention.Purge.{
  without-nothing, purge, with_rows_same, change_rows-delete,
}
use omnibioai_security_audit.Retention.Cleanup.{
  Outcome, dry_run, success, is_ok, count, deleted, is_eligible, connect, count_eligible,
  delete_eligible, delete_counted, commit, commit_pending, report_deleted, after_count, table_round,
  clean_table,
}

invoke-eq-ok :
    {A : Type 0} (fault : Fault) (m : Exec World A) (w : World) {a : A}
    → (invoke fault m w).0 ≡ ok a
    → ((m w).0 ≡ ok a) × (invoke fault m w ≡ m w)
unfolding invoke
invoke-eq-ok fine m w h = (h, refl)
invoke-eq-ok (before e) m w h = absurd (cc)
invoke-eq-ok (after e) m w h =
    let (a, returned, bad) = bind-eq-ok m (λ done. lift (err e)) w h in absurd (cc)

-- Nobody else uses the database.
abbrev pub IsAlone : Driver → Type 0
IsAlone driver = (n : ℕ) → driver.others n ≡ []

module _ (collation : Collation) where
  -- A dry run reports the eligible rows; an executed one purges them and reports them.
  abbrev pub Leaves : Bool → Table → ℕ → Store → Outcome → Store → Type 0
  Leaves false t cutoff store outcome left =
      (outcome
        ≡ dry_run (count (is_eligible collation t cutoff store.audit_legal_holds) (rows t store)))
      × (left ≡ store)
  Leaves true t cutoff store outcome left =
      (outcome
        ≡ success (count (is_eligible collation t cutoff store.audit_legal_holds) (rows t store)))
      × (left ≡ purge collation t cutoff store)

  nothing_to_purge :
      (t : Table) (cutoff : ℕ) (store : Store)
      → count (is_eligible collation t cutoff store.audit_legal_holds) (rows t store) ≡ 0
      → purge collation t cutoff store ≡ store
  unfolding purge
  nothing_to_purge t cutoff store h =
      ap (λ rs. with_rows t rs store) (without-nothing _ (rows t store) h) ∙ with_rows_same t store

  pub reported_all : (n m : ℕ) → n ≡ m → report_deleted n m ≡ success m
  unfolding report_deleted
  reported_all n m e = ground arith

module _ (collation : Collation) (driver : Driver) (alone : IsAlone driver) where
  pub call-eq-ok :
      {A : Type 0} (m : Exec World A) (w : World) {a : A}
      → (call collation driver m w).0 ≡ ok a
      → let v = record w { calls = w.calls + 1 } in
        ((m v).0 ≡ ok a) × (call collation driver m w ≡ m v)
  unfolding call run
  call-eq-ok m w h =
      let (returned, same) = invoke-eq-ok (driver.fault w.calls) m _ h in
      let quiet = ap (λ steps. run collation steps w.store) (alone w.calls) in
      let begin = ap (λ s. m (record w { store = s; calls = w.calls + 1 })) quiet in
      (sym (ap (λ r. r.0) begin) ∙ returned, same ∙ begin)

  delete_eligible-eq-ok :
      (t : Table) (cutoff : ℕ) (w : World) (n : ℕ)
      → (delete_eligible collation driver t cutoff w).0 ≡ ok n
      → (n ≡ count (is_eligible collation t cutoff w.store.audit_legal_holds) (rows t w.store))
        × ((delete_eligible collation driver t cutoff w).1
            ≡ record w { pending = some (purge collation t cutoff w.store); calls = w.calls + 1 })
  unfolding delete_eligible deleted purge
  delete_eligible-eq-ok t cutoff w n h =
      let (returned, same) = call-eq-ok _ w h in
      let answer =
        change_rows (guards collation t driver.user w.store)
          (delete (is_eligible collation t cutoff w.store.audit_legal_holds)) (rows t w.store) in
      elim answer
          as (λ r.
            answer ≡ r
            → (n
                ≡ count (is_eligible collation t cutoff w.store.audit_legal_holds) (rows t w.store))
              × ((delete_eligible collation driver t cutoff w).1 ≡ record w {
                pending = some (purge collation t cutoff w.store);
                calls = w.calls + 1;
              })) [
                | err e ↦ λ failed. absurd (let bad = rw failed at returned in cc)
                | ok done ↦ λ made.
                    let exact = change_rows-delete collation driver.user t w.store _ done made in
                    let counted = ok-inj (rw made at returned) in
                    (sym counted ∙ ap (λ d. d.1) exact, ap (λ r. r.1) same ∙ rw (made, exact) refl)
              ]
        refl

  commit-eq-ok :
      (w : World) (done : Store) {u : Unit {0}}
      → w.pending ≡ some done
      → (commit collation driver w).0 ≡ ok u
      → (commit collation driver w).1
        ≡ record w { calls = w.calls + 1; store = done; pending = none }
  unfolding commit commit_pending
  commit-eq-ok w done waiting h =
      let (returned, same) = invoke-eq-ok (driver.fault w.calls) _ _ h in
      ap (λ r. r.1) same ∙ rw waiting refl

  -- What a DELETE and its COMMIT, both of which returned, leave.
  delete_counted-eq-ok :
      (t : Table) (cutoff eligible : ℕ) (w : World) (outcome : Outcome)
      → (delete_counted collation driver t cutoff eligible w).0 ≡ ok outcome
      → (outcome
          ≡ report_deleted eligible
              (count (is_eligible collation t cutoff w.store.audit_legal_holds) (rows t w.store)))
        × ((delete_counted collation driver t cutoff eligible w).1.store
            ≡ purge collation t cutoff w.store)
  unfolding delete_counted
  delete_counted-eq-ok t cutoff eligible w outcome h =
      let (n, removed, rest) = bind-eq-ok (delete_eligible collation driver t cutoff) _ w h in
      let (counted, at_delete) = delete_eligible-eq-ok t cutoff w n removed in
      let (u, committed, returned) = bind-eq-ok (commit collation driver) _ _ rest in
      let at_commit =
        commit-eq-ok _ (purge collation t cutoff w.store) (rw at_delete refl) committed in
      (
        sym (ok-inj returned) ∙ ap (report_deleted eligible) counted,
        ap (λ r. r.1.store)
              (attempt-of_ok (delete_eligible collation driver t cutoff) _ _ w removed
                ∙ attempt-of_ok (commit collation driver) _ _ _ committed)
            ∙ ap (λ v. v.store) at_commit,
      )

  -- What a table's round leaves if it did not fail.
  after_count-ok :
      (execute : Bool) (t : Table) (cutoff eligible : ℕ) (w : World) (outcome : Outcome)
      → eligible ≡ count (is_eligible collation t cutoff w.store.audit_legal_holds) (rows t w.store)
      → (after_count collation driver execute t cutoff eligible w).0 ≡ ok outcome
      → Leaves collation execute t cutoff w.store outcome
          (after_count collation driver execute t cutoff eligible w).1.store
  unfolding after_count
  after_count-ok false t cutoff eligible w outcome counted h =
      (sym (ok-inj h) ∙ ap dry_run counted, refl)
  after_count-ok true t cutoff eligible w outcome counted h = elim (Bool-cases (eligible ==ℕ 0)) [
    | inl none_left ↦
        let e : eligible ≡ 0 = ground arith in
        rw none_left (
          sym (ok-inj (rw none_left at h)) ∙ ap success (sym e ∙ counted),
          sym (nothing_to_purge collation t cutoff w.store (sym counted ∙ e)),
        )
    | inr more ↦
        let (reported, left) = delete_counted-eq-ok t cutoff eligible w outcome (rw more at h) in
        rw more (reported ∙ reported_all collation eligible _ counted, left)
  ]

  table_round-ok :
      (execute : Bool) (t : Table) (cutoff : ℕ) (w : World) (outcome : Outcome)
      → (table_round collation driver execute cutoff t w).0 ≡ ok outcome
      → Leaves collation execute t cutoff w.store outcome
          (table_round collation driver execute cutoff t w).1.store
  unfolding table_round connect count_eligible
  table_round-ok execute t cutoff w outcome h =
      let (u, connected, rest) = bind-eq-ok (connect collation driver) _ w h in
      let (n, counted, last) =
        bind-eq-ok (count_eligible collation driver t cutoff) _ (connect collation driver w).1
          rest in
      let at_connect = ap (λ r. r.1.store) (call-eq-ok _ w connected).1 in
      let (number, at_count) = call-eq-ok _ (connect collation driver w).1 counted in
      let same_store = ap (λ r. r.1.store) at_count ∙ at_connect in
      let ends =
        after_count-ok execute t cutoff n
          (count_eligible collation driver t cutoff (connect collation driver w).1).1 outcome
          (sym (ok-inj number)
            ∙ ap (λ s. count (is_eligible collation t cutoff s.audit_legal_holds) (rows t s))
                (sym (ap (λ r. r.1.store) at_count)))
          last in
      let chain : table_round collation driver execute cutoff t w
          ≡ after_count collation driver execute t cutoff n
              (count_eligible collation driver t cutoff (connect collation driver w).1).1 =
        attempt-of_ok (connect collation driver) _ _ w connected
        ∙ attempt-of_ok (count_eligible collation driver t cutoff) _ _ _ counted in
      rw (ap (λ r. r.1.store) chain) (rw same_store at ends)

  -- A round that did not fail leaves what it should, under any fault of the driver.
  pub clean_table-ok :
      (execute : Bool) (t : Table) (cutoff : ℕ) (w : World) (outcome : Outcome)
      → (clean_table collation driver execute cutoff t w).0 ≡ ok outcome
      → is_ok outcome ≡ true
      → Leaves collation execute t cutoff w.store outcome
          (clean_table collation driver execute cutoff t w).1.store
  unfolding clean_table
  clean_table-ok execute t cutoff w outcome h fine_outcome =
      elim (attempt-eq-ok (table_round collation driver execute cutoff t) _ _ w h) [
        | inl (a, ran, same) ↦
            let state : clean_table collation driver execute cutoff t w
                ≡ (ok a, (table_round collation driver execute cutoff t w).1) =
              attempt-of_ok (table_round collation driver execute cutoff t) _ _ w ran in
            rw (ap (λ r. r.1.store) state, sym (ok-inj same))
              (table_round-ok execute t cutoff w a ran)
        | inr (e, raised, same) ↦ let bad = ap is_ok (ok-inj same) ∙ fine_outcome in absurd (cc)
      ]
