-- ===== src/Retention/Kept.antt =====
-- Held rows and recent rows outlive every run of the script.
use mathlib.Core.List.{Memᴰ}
use omnibioai_security_audit.Prelude.{
  ℕ, suc, ◌+◌, ◌*◌, ◌≤◌, ◌≡◌, refl, sym, ap, ◌∙◌, arith, String, Bool, true, false, List, [], ◌∷◌,
  none, some, All,
}
use omnibioai_security_audit.Python.{Result, ok, err}
use omnibioai_security_audit.Python.Int.{pos}
use omnibioai_security_audit.Python.Time.{backward}
use omnibioai_security_audit.Library.{Library}
use omnibioai_security_audit.StatusFile.{setting}
use omnibioai_security_audit.Retention.Host.{Driver, Host, World}
use omnibioai_security_audit.Retention.Store.{
  AuditLegalHold, Store, Collation, is_maintenance, names,
}
use omnibioai_security_audit.Retention.Statement.{
  Statement, Guards, execute, run, delete, change_rows, kept,
}
use omnibioai_security_audit.Retention.Rows.{each_row-unmatched}
use omnibioai_security_audit.Retention.Tables.{
  Table, audit_events, quarantined_audit_events, Row, rows, table_name, key_of, date_of, guards,
}
use omnibioai_security_audit.Retention.Cleanup.{Args, is_eligible}
use omnibioai_security_audit.Retention.Main.{day, main}
use omnibioai_security_audit.Retention.Evidence.{Retains, run-keeps_rows}
use omnibioai_security_audit.Retention.Held.{run-keeps_held}
use omnibioai_security_audit.Retention.Concurrent.{purge_statement}
use omnibioai_security_audit.Retention.Spared.{main-keeps}

-- A table that is spared by the WHERE keeps the row.
kept-unmatched :
    {A : Type 0} (row : A) (rs : List A) (g : Guards A) (matches : A → Bool)
    (answer : Result (List A × ℕ))
    → change_rows g (delete matches) rs ≡ answer
    → matches row ≡ false
    → Memᴰ row rs
    → Memᴰ row (kept rs answer)
unfolding change_rows
kept-unmatched row rs g matches (err e) h off m = m
kept-unmatched row rs g matches (ok done) h off m =
    each_row-unmatched g.no_delete matches _ row rs done off m h

module _ (collation : Collation) where
  -- A purge of either table keeps a row that is not older than the cutoff.
  purge-keeps_recent :
      (user : String) (limit : ℕ) (t u : Table) (row : Row t) (s : Store)
      → limit ≤ (date_of t row).wall
      → Memᴰ row (rows t s)
      → Memᴰ row (rows t (execute collation user (purge_statement collation u limit s) s))
  unfolding execute is_eligible
  purge-keeps_recent user limit audit_events audit_events row s recent m =
      kept-unmatched row s.audit_events (guards collation audit_events user s) _ _ refl
        (ground arith) m
  purge-keeps_recent user limit quarantined_audit_events quarantined_audit_events row s recent m =
      kept-unmatched row s.quarantined_audit_events
        (guards collation quarantined_audit_events user s) _ _ refl (ground arith) m
  purge-keeps_recent user limit audit_events quarantined_audit_events row s recent m = m
  purge-keeps_recent user limit quarantined_audit_events audit_events row s recent m = m

  purge-Retains :
      (hold : AuditLegalHold) (t : Table) (limit : ℕ) (s : Store)
      → Retains hold (purge_statement collation t limit s)
  purge-Retains hold audit_events limit s = tt
  purge-Retains hold quarantined_audit_events limit s = tt

backward-eq_ok : (t d limit : ℕ) → backward t d ≡ ok limit → limit + d ≡ t
backward-eq_ok t d limit h = ground arith

module _ (lib : Library) (host : Host) (t : Table) (row : Row t) where
  -- Whatever other users do meanwhile and however the driver's calls fail, and whatever the
  -- arguments and settings: a row that a legal hold names, and the hold, are still there as they were
  -- when the script ends, if no other user deletes the hold.
  pub main-keeps_held :
      (args : Args) (hold : AuditLegalHold) (w : World)
      → names host.collation (table_name t) (key_of t row) hold ≡ true
      → ((url : String) (driver : Driver) (n : ℕ)
          → host.create_engine url ≡ ok driver
          → All (λ (step : String × Statement). Retains hold step.1) (driver.others n))
      → w.pending ≡ none
      → Memᴰ hold w.store.audit_legal_holds
      → Memᴰ row (rows t w.store)
      → Memᴰ row (rows t (main lib host args w).1.store)
        × Memᴰ hold (main lib host args w).1.store.audit_legal_holds
  unfolding run
  main-keeps_held args hold w named retained idle held m =
      (main-keeps lib host (λ s. Memᴰ row (rows t s) × Memᴰ hold s.audit_legal_holds) args w
        (λ raw days set parsed limit url driver cut opened. record {
          by_others = λ n s (stays, hold_stays).
              run-keeps_held host.collation t (driver.others n) s row hold named
                (retained url driver n opened) hold_stays stays;
          by_script = λ u s (stays, hold_stays).
              run-keeps_held host.collation t
                ((driver.user, purge_statement host.collation u limit s) ∷ []) s row hold named
                (purge-Retains host.collation hold u limit s, tt) hold_stays stays;
        })
        (record { committed = (m, held); uncommitted = λ p waiting. absurd (cc) })).committed

  -- Whatever other users than the maintenance user do meanwhile and however the driver's calls fail:
  -- a row whose date lies at most the configured days before the clock's reading at the start is
  -- still there as it was when the script ends.
  pub main-keeps_recent :
      (args : Args) (raw : String) (days : ℕ) (w : World)
      → setting "AUDIT_RETENTION_DAYS" host.environ ≡ some raw
      → host.int raw ≡ some (pos (suc days))
      → host.utcnow w.draws ≤ (date_of t row).wall + suc days * day
      → ((url : String) (driver : Driver) (n : ℕ)
          → host.create_engine url ≡ ok driver
          → All
              (λ (step : String × Statement). is_maintenance host.collation step.0 ≡ false)
              (driver.others n))
      → w.pending ≡ none
      → Memᴰ row (rows t w.store)
      → Memᴰ row (rows t (main lib host args w).1.store)
  main-keeps_recent args raw days w set parsed recent strangers idle m =
      (main-keeps lib host (λ s. Memᴰ row (rows t s)) args w
        (λ raw' days' set' parsed' limit url driver cut opened. record {
          by_others = λ n s stays.
              run-keeps_rows host.collation t (driver.others n) s row
                (strangers url driver n opened) stays;
          by_script = λ u s stays.
              let same_raw : raw ≡ raw' = cc in
              let same_days : days ≡ days' =
                days_eq days days' (sym parsed ∙ ap host.int same_raw ∙ parsed') in
              let bound = backward-eq_ok (host.utcnow w.draws) (suc days' * day) limit cut in
              purge-keeps_recent host.collation driver.user limit t u row s
                (within limit (suc days * day) (suc days' * day) (host.utcnow w.draws)
                  (date_of t row).wall (ap (λ d. suc d * day) same_days) bound recent)
                stays;
        })
        (record { committed = m; uncommitted = λ p waiting. absurd (cc) })).committed
    where
      days_eq : (a b : ℕ) → some (pos (suc a)) ≡ some (pos (suc b)) → a ≡ b
      days_eq a b e = ground arith

      within : (limit d d' now wall : ℕ) → d ≡ d' → limit + d' ≡ now → now ≤ wall + d → limit ≤ wall
      within limit d d' now wall e bound recent = omega arith
