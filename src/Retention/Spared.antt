-- ===== src/Retention/Spared.antt =====
-- The rows that no run of the script takes away.
use omnibioai_security_audit.Prelude.{
  ℕ, zero, suc, ◌*◌, ◌≡◌, refl, sym, ◌∙◌, inl, inr, arith, String, Bool, ◌&&◌, List, Option, none,
  some, Bool-cases, Option-cases,
}
use omnibioai_security_audit.Python.{Result, ok, err}
use omnibioai_security_audit.Python.Exec.{lift, ◌>>=◌}
use omnibioai_security_audit.Python.Exec.Keeps.{
  Keeps, Keeps-pure, Keeps-lift, Keeps-if, Keeps-attempt,
}
use omnibioai_security_audit.Python.Int.{ℤ, pos, negsuc}
use omnibioai_security_audit.Python.Time.{backward}
use omnibioai_security_audit.Library.{Library}
use omnibioai_security_audit.StatusFile.{setting}
use omnibioai_security_audit.Retention.Host.{Driver, Host, World, now, raise_alert, write_file}
use omnibioai_security_audit.Retention.Store.{Store}
use omnibioai_security_audit.Retention.Tables.{Table}
use omnibioai_security_audit.Retention.Cleanup.{Args, Outcome, clean_tables}
use omnibioai_security_audit.Retention.Main.{
  tables, day, all_ok, cutoff, write_status_file, exit_code, finish, retain, with_days, main,
  retention_alert, mode_of,
}
use omnibioai_security_audit.Retention.Concurrent.{Holds, IsSafe, Keeps-clean_tables}

Holds-same :
    (Q : Store → Type 0) (w v : World)
    → v.store ≡ w.store
    → v.pending ≡ w.pending
    → Holds Q w
    → Holds Q v
Holds-same Q w v same_store same_pending p = record {
  committed = rw same_store p.committed;
  uncommitted = λ s waiting. p.uncommitted s (sym same_pending ∙ waiting);
}

module _ (lib : Library) (host : Host) (Q : Store → Type 0) where
  Keeps-write_file : (path content : String) → Keeps (Holds Q) (write_file lib host path content)
  unfolding write_file
  Keeps-write_file path content = record {
    at = λ w p.
        Holds-same Q w (write_file lib host path content w).1 (ground arith) (ground arith) p;
  }

  Keeps-status_to :
      (mode : String) (good : Bool) (results : List (Table × Outcome)) (dir : Option String)
      → setting "AUDIT_HEALTH_STATUS_DIR" host.environ ≡ dir
      → Keeps (Holds Q) (write_status_file lib host mode good results)
  unfolding write_status_file now
  Keeps-status_to mode good results none unset = record {
    at = λ w p. rw (unset, write_status_file) p;
  }
  Keeps-status_to mode good results (some dir) set = record {
    at = λ w p.
        rw (set, write_status_file)
          ((Keeps-write_file _ _).at _
            (record { committed = p.committed; uncommitted = p.uncommitted }));
  }

  Keeps-raise_alert : (alert : String → _) → Keeps (Holds Q) (raise_alert lib host alert)
  unfolding raise_alert
  Keeps-raise_alert alert = record {
    at = λ w p. record { committed = p.committed; uncommitted = p.uncommitted };
  }

  Keeps-finish :
      (args : Args) (results : List (Table × Outcome))
      → Keeps (Holds Q) (finish lib host args results)
  unfolding finish exit_code
  Keeps-finish args results =
      Keeps-attempt (write_status_file lib host (mode_of args) (all_ok results) results) _ _
        (Keeps-status_to _ _ _ (setting "AUDIT_HEALTH_STATUS_DIR" host.environ) refl)
        (λ u. Keeps-if (all_ok results) _ _ (Keeps-pure 0) (
          Keeps-attempt (raise_alert lib host (retention_alert (mode_of args) results)) _ _
            (Keeps-raise_alert _) (λ u. Keeps-pure 1) (λ e. Keeps-lift (err e))))
        (λ e. Keeps-lift (err e))

  -- Every engine, at the cutoff that the clock gives, keeps the property.
  abbrev AlwaysSafe : ℕ → World → Type 0
  AlwaysSafe days w =
      (limit : ℕ) (url : String) (driver : Driver)
      → backward (host.utcnow w.draws) (days * day) ≡ ok limit
      → host.create_engine url ≡ ok driver
      → IsSafe host.collation driver limit Q

  cutoff-continues :
      (args : Args) (days : ℕ) (url : String) (w : World) (cut : Result ℕ) (opened : Result Driver)
      → ((limit : ℕ) (driver : Driver)
          → cut ≡ ok limit
          → opened ≡ ok driver
          → IsSafe host.collation driver limit Q)
      → Holds Q w
      → Holds Q
          ((lift cut >>= λ limit. lift opened >>= λ driver.
              clean_tables host.collation driver args.execute limit tables >>= finish lib host args)
            w).1
  cutoff-continues args days url w (err e) opened safe p = p
  cutoff-continues args days url w (ok limit) (err e) safe p = p
  cutoff-continues args days url w (ok limit) (ok driver) safe p =
      (Keeps-attempt (clean_tables host.collation driver args.execute limit tables)
          (finish lib host args) _
          (Keeps-clean_tables host.collation driver limit Q (safe limit driver refl refl)
            args.execute tables)
          (λ results. Keeps-finish args results) (λ e. Keeps-lift (err e))).at
        w p

  retain-keeps :
      (args : Args) (days : ℕ) (url : String) (w : World)
      → AlwaysSafe days w
      → Holds Q w
      → Holds Q (retain lib host args days url w).1
  unfolding retain cutoff now
  retain-keeps args days url w safe p =
      cutoff-continues args days url _ (backward (host.utcnow w.draws) (days * day))
        (host.create_engine url) (λ limit driver cut opened. safe limit url driver cut opened)
        (record { committed = p.committed; uncommitted = p.uncommitted })

  with_days-keeps :
      (args : Args) (n : Option ℤ) (w : World)
      → ((m : ℕ) → n ≡ some (pos (suc m)) → AlwaysSafe (suc m) w)
      → Holds Q w
      → Holds Q (with_days lib host args n w).1
  unfolding with_days
  with_days-keeps args none w safe p = p
  with_days-keeps args (some (negsuc m)) w safe p = p
  with_days-keeps args (some (pos zero)) w safe p = p
  with_days-keeps args (some (pos (suc m))) w safe p =
      elim (Option-cases (setting "AUDIT_MAINTENANCE_DATABASE_URL" host.environ)) [
        | inl unset ↦ rw (unset, with_days) p
        | inr (url, set) ↦ rw (set, with_days) (retain-keeps args (suc m) url w (safe m refl) p)
      ]

  -- Any end of the script, whatever its arguments and its settings.
  pub main-keeps :
      (args : Args) (w : World)
      → ((raw : String) (m : ℕ)
          → setting "AUDIT_RETENTION_DAYS" host.environ ≡ some raw
          → host.int raw ≡ some (pos (suc m))
          → AlwaysSafe (suc m) w)
      → Holds Q w
      → Holds Q (main lib host args w).1
  unfolding main
  main-keeps args w safe p = elim (Bool-cases (args.dry_run && args.execute)) [
    | inl both ↦ rw (both, main) p
    | inr single ↦ elim (Option-cases (setting "AUDIT_RETENTION_DAYS" host.environ)) [
      | inl unset ↦ rw (single, unset, main) p
      | inr (raw, set) ↦
          rw (single, set, main) (with_days-keeps args (host.int raw) w (λ m e. safe raw m set e) p)
    ]
  ]
