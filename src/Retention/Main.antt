-- ===== src/Retention/Main.antt =====
-- `main` of scripts/audit_retention_cleanup.py: its gates, its report and its exit code.
use omnibioai_security_audit.Prelude.{
  ℕ, zero, suc, ◌+◌, ◌*◌, String, Bool, true, false, ◌&&◌, List, [], ◌∷◌, Option, none, some,
  if◌then◌else◌,
}
use omnibioai_security_audit.Python.{Exn, err}
use omnibioai_security_audit.Python.Exec.{Exec, pure, lift, ◌>>=◌, ◌>>◌}
use omnibioai_security_audit.Python.Int.{ℤ, pos, negsuc}
use omnibioai_security_audit.Python.Json.{str, obj, Fields, end, field}
use omnibioai_security_audit.Python.Time.{DateTime, backward}
use omnibioai_security_audit.Library.{Library}
use omnibioai_security_audit.Alerts.{SecurityAlert}
use omnibioai_security_audit.RecordIntegrity.Cells.{text, json}
use omnibioai_security_audit.StatusFile.{setting, status_path, env_line, joined}
use omnibioai_security_audit.Retention.Host.{Host, World, now, raise_alert, write_file}
use omnibioai_security_audit.Retention.Tables.{
  Table, audit_events, quarantined_audit_events, table_name,
}
use omnibioai_security_audit.Retention.Cleanup.{
  Args, Outcome, success, is_ok, is_failed, status_of, clean_tables,
}

abbrev pub tables : List Table
tables = audit_events ∷ quarantined_audit_events ∷ []

-- 24 hours, in microseconds
abbrev pub day : ℕ
day = 86400000000

-- `parser.error(...)`
abbrev pub usage_error : Exn
usage_error = record { kind = "SystemExit"; message = "2" }

unfoldable pub all_ok : List (Table × Outcome) → Bool
all_ok [] = true
all_ok ((t, outcome) ∷ rest) = is_ok outcome && all_ok rest

-- sum(r.get("count", 0) for r in results.values() if r.get("status") == "success")
abbrev pub deleted_of : Outcome → ℕ
deleted_of (success n) = n
deleted_of _ = 0

unfoldable pub total_deleted : List (Table × Outcome) → ℕ
total_deleted [] = 0
total_deleted ((t, outcome) ∷ rest) = deleted_of outcome + total_deleted rest

unfoldable pub any_failed : List (Table × Outcome) → Bool
any_failed [] = false
any_failed ((t, outcome) ∷ rest) = if is_failed outcome then true else any_failed rest

unfoldable pub statuses : List (Table × Outcome) → Fields
statuses [] = end
statuses ((t, outcome) ∷ rest) = field (table_name t) (str (status_of outcome)) (statuses rest)

unfoldable pub mode_of : Args → String
mode_of args = if args.execute then "execute" else "dry_run"

unfoldable pub retention_alert : String → List (Table × Outcome) → String → SecurityAlert
unfolding any_failed statuses
retention_alert mode results timestamp = record {
  condition = "retention_cleanup_failed";
  severity = if any_failed results then "critical" else "warning";
  component = "retention-cleanup";
  message = "Audit retention cleanup completed with partial or failed results";
  metadata = ("mode", text mode) ∷ ("results", json (obj (statuses results))) ∷ [];
  timestamp = timestamp;
}

module _ (lib : Library) (host : Host) where
  -- An overflow ends the script with OverflowError before any connection is made.
  unfoldable pub cutoff : ℕ → Exec World ℕ
  unfolding now
  cutoff retention_days = now lib host >>= λ t. lift (backward t.wall (retention_days * day))

  unfoldable pub status_lines : String → Bool → List (Table × Outcome) → DateTime → List String
  status_lines mode overall_ok results t =
      env_line "LAST_RETENTION_RUN_TS" (lib.isoformat t)
      ∷ env_line "LAST_RETENTION_RUN_MODE" mode
      ∷ env_line "LAST_RETENTION_RUN_RESULT" (if overall_ok then "success" else "failed_or_partial")
      ∷ env_line "LAST_RETENTION_RUN_DELETED_TOTAL" (lib.str_int (total_deleted results))
      ∷ []

  unfoldable pub write_status_file : String → Bool → List (Table × Outcome) → Exec World (Unit {0})
  unfolding write_file status_lines now
  write_status_file mode overall_ok results =
      elim (setting "AUDIT_HEALTH_STATUS_DIR" host.environ) [
        | none ↦ pure tt
        | some dir ↦ now lib host >>= λ t.
            write_file lib host (status_path dir "audit-retention-run.env")
              (joined (status_lines mode overall_ok results t))
      ]

  unfoldable pub exit_code : Args → List (Table × Outcome) → Exec World ℕ
  exit_code args results =
      if all_ok results
      then pure 0
      else raise_alert lib host (retention_alert (mode_of args) results) >> pure 1

  unfoldable pub finish : Args → List (Table × Outcome) → Exec World ℕ
  unfolding exit_code
  finish args results =
      write_status_file (mode_of args) (all_ok results) results >> exit_code args results

  unfoldable pub retain : Args → ℕ → String → Exec World ℕ
  retain args retention_days url = cutoff retention_days >>= λ limit.
      lift (host.create_engine url) >>= λ driver.
      clean_tables host.collation driver args.execute limit tables >>= finish args

  unfoldable pub with_days : Args → Option ℤ → Exec World ℕ
  with_days args none = pure 1
  with_days args (some (negsuc n)) = pure 1
  with_days args (some (pos zero)) = pure 1
  with_days args (some (pos (suc n))) =
      elim (setting "AUDIT_MAINTENANCE_DATABASE_URL" host.environ) [
        | none ↦ pure 1
        | some url ↦ retain args (suc n) url
      ]

  unfoldable pub main : Args → Exec World ℕ
  unfolding with_days
  main args =
      if args.dry_run && args.execute
      then lift (err usage_error)
      else elim (setting "AUDIT_RETENTION_DAYS" host.environ) [
        | none ↦ pure 0
        | some raw ↦ with_days args (host.int raw)
      ]
