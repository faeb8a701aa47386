-- ===== src/Integrity/Main.antt =====
-- `_report` and `main` of scripts/verify_audit_integrity.py.
use omnibioai_security_audit.Prelude.{
  ℕ, String, Bool, true, false, ◌&&◌, List, [], ◌∷◌, map, length, Option, none, some, Dict, ◌==ℕ◌,
  if◌then◌else◌,
}
use omnibioai_security_audit.Python.{Result, ok, err}
use omnibioai_security_audit.Python.Exec.{Exec, pure, lift, ◌>>=◌, ◌>>◌}
use omnibioai_security_audit.Python.Time.{DateTime}
use omnibioai_security_audit.Library.{Library}
use omnibioai_security_audit.Alerts.{SecurityAlert}
use omnibioai_security_audit.RecordIntegrity.Cells.{Record, int}
use omnibioai_security_audit.StatusFile.{setting, status_path, env_line, joined}
use omnibioai_security_audit.Retention.Host.{
  Driver, Host, World, call, now, write_file, raise_alert,
}
use omnibioai_security_audit.Integrity.{
  exit_1, resolve_keyring, event_columns, quarantine_columns, audit_events,
  quarantined_audit_events, Stats, no_stats, verify_rows,
}

abbrev pub is_empty : List String → Bool
is_empty [] = true
is_empty (s ∷ rest) = false

-- Whether the verification of a table found no problems; what is printed has no part in it.
unfoldable pub report : Stats → Bool
report stats =
    is_empty stats.invalid
    && is_empty stats.structural
    && is_empty stats.unverifiable
    && stats.no_baseline ==ℕ 0

unfoldable pub integrity_alert : Stats → Stats → String → SecurityAlert
integrity_alert events quarantine timestamp = record {
  condition = "integrity_verification_failed";
  severity = "critical";
  component = "integrity-verification";
  message =
      "Stored audit record integrity verification found tampered, corrupted, or structurally invalid records";
  metadata =
      ("events_invalid", int (length events.invalid))
      ∷ ("events_structural", int (length events.structural))
      ∷ ("quarantine_invalid", int (length quarantine.invalid))
      ∷ ("quarantine_structural", int (length quarantine.structural))
      ∷ [];
  timestamp = timestamp;
}

-- `a or b`
abbrev or_else : Option String → Option String → Option String
or_else none b = b
or_else (some a) b = some a

abbrev required_url : Option String → Result String
required_url none = err exit_1
required_url (some url) = ok url

module _ (lib : Library) (host : Host) where
  unfoldable pub database_url : Result String
  database_url = required_url (
      or_else (setting "AUDIT_READER_DATABASE_URL" host.environ)
        (setting "AUDIT_DATABASE_URL" host.environ))

  -- `session.query(AuditEventRecord)` and `session.query(QuarantinedAuditEvent)`, with all rows.
  unfoldable pub query_events : Driver → Exec World (List Record)
  query_events driver =
      call host.collation driver (λ w. (ok (map event_columns w.store.audit_events), w))

  unfoldable pub query_quarantined : Driver → Exec World (List Record)
  query_quarantined driver = call host.collation driver (λ w.
      (ok (map (λ row. quarantine_columns row.quarantine) w.store.quarantined_audit_events), w))

  unfoldable pub verify_audit_events : Dict String → List Record → Exec World Stats
  verify_audit_events keys rows = lift (verify_rows (audit_events lib) keys [] no_stats rows)

  unfoldable pub verify_quarantine_records : Dict String → List Record → Exec World Stats
  verify_quarantine_records keys rows =
      lift (verify_rows (quarantined_audit_events lib) keys [] no_stats rows)

  unfoldable pub status_lines : Bool → Stats → Stats → DateTime → List String
  status_lines passed events quarantine t =
      env_line "LAST_VERIFICATION_TS" (lib.isoformat t)
      ∷ env_line "LAST_VERIFICATION_RESULT" (if passed then "pass" else "fail")
      ∷ env_line "LAST_VERIFICATION_EVENTS_CHECKED" (lib.str_int events.checked)
      ∷ env_line "LAST_VERIFICATION_EVENTS_INVALID" (lib.str_int (length events.invalid))
      ∷ env_line "LAST_VERIFICATION_QUARANTINE_CHECKED" (lib.str_int quarantine.checked)
      ∷ env_line "LAST_VERIFICATION_QUARANTINE_INVALID" (lib.str_int (length quarantine.invalid))
      ∷ []

  unfoldable pub write_status_file : Bool → Stats → Stats → Exec World (Unit {0})
  unfolding status_lines
  write_status_file passed events quarantine =
      elim (setting "AUDIT_HEALTH_STATUS_DIR" host.environ) [
        | none ↦ pure tt
        | some dir ↦ now lib host >>= λ t.
            write_file lib host (status_path dir "audit-integrity-verification.env")
              (joined (status_lines passed events quarantine t))
      ]

  unfoldable pub exit_code : Bool → Stats → Stats → Exec World ℕ
  exit_code passed events quarantine =
      if passed then pure 0 else raise_alert lib host (integrity_alert events quarantine) >> pure 1

  unfoldable pub finish : Stats → Stats → Exec World ℕ
  finish events quarantine =
      let passed = report events && report quarantine in
      write_status_file passed events quarantine >> exit_code passed events quarantine

  unfoldable pub verify_quarantine : Dict String → Driver → Stats → Exec World ℕ
  verify_quarantine keys driver events =
      query_quarantined driver >>= λ rows. verify_quarantine_records keys rows >>= finish events

  unfoldable pub verify_both : Dict String → Driver → Exec World ℕ
  verify_both keys driver = query_events driver >>= λ rows.
      verify_audit_events keys rows >>= verify_quarantine keys driver

  unfoldable pub main : Exec World ℕ
  main = lift (resolve_keyring host.environ) >>= λ keys.
      lift database_url >>= λ url. lift (host.create_engine url) >>= verify_both keys
