-- ===== src/Health/Reported.antt =====
-- What the health service reports of a retention run is what the run wrote.
use omnibioai_security_audit.Prelude.{
  ℕ, ◌≡◌, refl, ◌∙◌, String, ◌<>◌, partition, partition-append, has_char, Bool, true, false, List,
  [], ◌∷◌, none, some, Dict, lookup, insert, lookup-insert, eq_refl, if◌then◌else◌,
}
use omnibioai_security_audit.Python.Int.{pos}
use omnibioai_security_audit.Library.{Library}
use omnibioai_security_audit.StatusFile.{
  setting, status_path, env_line, joined, read_lines, read_env_file, is_one_line, is_line_break,
  lines_after-joined, is_one_line-append,
}
use omnibioai_security_audit.Retention.Tables.{Table}
use omnibioai_security_audit.Retention.Cleanup.{Outcome}
use omnibioai_security_audit.Retention.Host.{Host, World, utc, now, write_file}
use omnibioai_security_audit.Retention.Main.{status_lines, total_deleted, write_status_file}
use omnibioai_security_audit.Health.{retention_integrity_of, get_retention_integrity_health}

read_line :
    (key value : String) (lines : List String) (values : Dict String)
    → has_char 61 key ≡ false
    → read_lines (env_line key value ∷ lines) values ≡ read_lines lines (insert key value values)
unfolding read_lines env_line ◌<>◌
read_line key value lines values h =
    let parts : partition 61 (key <> ("=" <> value)) ≡ (key, true, value) =
      partition-append "=" key value h in
    rw (parts, read_lines) refl

-- Texts that stand on one line, and an `int` that reads what `str` writes of a natural number.
pub record IsPlain (lib : Library) (host : Host) : Type 0 where
  pub isoformat_line : (wall : ℕ) → is_one_line (lib.isoformat (utc wall)) ≡ true
  pub str_int_line : (n : ℕ) → is_one_line (lib.str_int n) ≡ true
  pub int-str_int : (n : ℕ) → host.int (lib.str_int n) ≡ some (pos n)

is_one_line-env_line :
    (key value : String)
    → is_one_line key ≡ true
    → is_one_line value ≡ true
    → is_one_line (env_line key value) ≡ true
unfolding env_line is_one_line is_line_break
is_one_line-env_line key value hk hv =
    is_one_line-append key ("=" <> value) hk (is_one_line-append "=" value refl hv)

abbrev result_text : Bool → String
result_text good = if good then "success" else "failed_or_partial"

is_one_line-result_text : (good : Bool) → is_one_line (result_text good) ≡ true
unfolding is_one_line is_line_break
is_one_line-result_text true = refl
is_one_line-result_text false = refl

read_four :
    (ts mode result total : String)
    → read_lines
        (env_line "LAST_RETENTION_RUN_TS" ts
          ∷ env_line "LAST_RETENTION_RUN_MODE" mode
          ∷ env_line "LAST_RETENTION_RUN_RESULT" result
          ∷ env_line "LAST_RETENTION_RUN_DELETED_TOTAL" total
          ∷ [])
        []
      ≡ ("LAST_RETENTION_RUN_TS", ts)
        ∷ ("LAST_RETENTION_RUN_MODE", mode)
        ∷ ("LAST_RETENTION_RUN_RESULT", result)
        ∷ ("LAST_RETENTION_RUN_DELETED_TOTAL", total)
        ∷ []
unfolding has_char insert read_lines
read_four ts mode result total =
    let last = env_line "LAST_RETENTION_RUN_DELETED_TOTAL" total ∷ [] in
    let third = env_line "LAST_RETENTION_RUN_RESULT" result ∷ last in
    let second = env_line "LAST_RETENTION_RUN_MODE" mode ∷ third in
    let one : Dict String = ("LAST_RETENTION_RUN_TS", ts) ∷ [] in
    let two : Dict String =
      ("LAST_RETENTION_RUN_TS", ts) ∷ ("LAST_RETENTION_RUN_MODE", mode) ∷ [] in
    let three : Dict String =
      ("LAST_RETENTION_RUN_TS", ts)
      ∷ ("LAST_RETENTION_RUN_MODE", mode)
      ∷ ("LAST_RETENTION_RUN_RESULT", result)
      ∷ [] in
    read_line "LAST_RETENTION_RUN_TS" ts second [] refl
    ∙ read_line "LAST_RETENTION_RUN_MODE" mode third one refl
    ∙ read_line "LAST_RETENTION_RUN_RESULT" result last two refl
    ∙ read_line "LAST_RETENTION_RUN_DELETED_TOTAL" total [] three refl

module _ (lib : Library) (host : Host) (plain : IsPlain lib host) where
  -- The four lines, read back.
  read_status :
      (mode : String) (good : Bool) (results : List (Table × Outcome)) (wall : ℕ)
      → is_one_line mode ≡ true
      → read_env_file (some (joined (status_lines lib host mode good results (utc wall))))
        ≡ ("LAST_RETENTION_RUN_TS", lib.isoformat (utc wall))
          ∷ ("LAST_RETENTION_RUN_MODE", mode)
          ∷ ("LAST_RETENTION_RUN_RESULT", if good then "success" else "failed_or_partial")
          ∷ ("LAST_RETENTION_RUN_DELETED_TOTAL", lib.str_int (total_deleted results))
          ∷ []
  unfolding read_env_file status_lines is_one_line is_line_break
  read_status mode good results wall one =
      rw
        (lines_after-joined (status_lines lib host mode good results (utc wall)) (
          is_one_line-env_line "LAST_RETENTION_RUN_TS" _ refl (plain.isoformat_line wall),
          (
            is_one_line-env_line "LAST_RETENTION_RUN_MODE" mode refl one,
            (
              is_one_line-env_line "LAST_RETENTION_RUN_RESULT" _ refl
                  (is_one_line-result_text good),
              (
                is_one_line-env_line "LAST_RETENTION_RUN_DELETED_TOTAL" _ refl
                    (plain.str_int_line (total_deleted results)),
                tt,
              ),
            ),
          ),
        ))
        (read_four (lib.isoformat (utc wall)) mode (result_text good)
          (lib.str_int (total_deleted results)))

  written :
      (mode dir : String) (good : Bool) (results : List (Table × Outcome)) (w : World)
      → setting "AUDIT_HEALTH_STATUS_DIR" host.environ ≡ some dir
      → host.write_error (status_path dir "audit-retention-run.env") ≡ none
      → lookup
          (status_path dir "audit-retention-run.env")
          (write_status_file lib host mode good results w).1.files
        ≡ some (joined (status_lines lib host mode good results (utc (host.utcnow w.draws))))
  unfolding write_status_file write_file now
  written mode dir good results w set writes =
      let path = status_path dir "audit-retention-run.env" in
      rw (set, write_status_file)
        (rw (writes, write_file) (lookup-insert path path _ w.files ∙ rw (eq_refl path) refl))

  -- If times and numbers are written on one line and `int` reads back what `str` writes: from a
  -- status file that was written, the health service reads the time of the writing, and the result
  -- and the total that the file was written with.
  pub retention_reported :
      (mode dir : String) (good : Bool) (results : List (Table × Outcome)) (w : World)
      → is_one_line mode ≡ true
      → setting "AUDIT_HEALTH_STATUS_DIR" host.environ ≡ some dir
      → host.write_error (status_path dir "audit-retention-run.env") ≡ none
      → let files = (write_status_file lib host mode good results w).1.files in
        let health = get_retention_integrity_health host.int host.environ files in
        (health.last_retention_run_ts ≡ some (lib.isoformat (utc (host.utcnow w.draws))))
        × (health.last_retention_run_result
            ≡ some (if good then "success" else "failed_or_partial"))
        × (health.last_retention_deleted_total ≡ some (pos (total_deleted results)))
        × (health.status_source ≡ "configured")
  unfolding get_retention_integrity_health retention_integrity_of lookup
  retention_reported mode dir good results w one set writes =
      rw (set, get_retention_integrity_health)
        (rw (written mode dir good results w set writes) (
          rw (read_status mode good results (host.utcnow w.draws) one)
            (refl, refl, plain.int-str_int (total_deleted results), refl)))
