-- ===== src/Integrity/Passed.antt =====
-- The exit code of the verification script, against the rows of the database.
use omnibioai_security_audit.Prelude.{
  ◌≡◌, ap, inl, inr, arith, String, true, ◌&&◌, [], map, Dict, All, Bool-cases,
}
use omnibioai_security_audit.Python.{ok, ok-inj}
use omnibioai_security_audit.Python.Exec.{lift}
use omnibioai_security_audit.Python.Exec.Keeps.{bind-eq-ok}
use omnibioai_security_audit.Library.{Library}
use omnibioai_security_audit.Retention.Host.{Driver, Host, World, raise_alert}
use omnibioai_security_audit.Retention.Exact.{IsAlone, call-eq-ok}
use omnibioai_security_audit.Integrity.{
  resolve_keyring, event_columns, quarantine_columns, audit_events, quarantined_audit_events, Stats,
}
use omnibioai_security_audit.Integrity.Main.{
  report, database_url, query_events, query_quarantined, verify_audit_events,
  verify_quarantine_records, write_status_file, exit_code, finish, verify_quarantine, verify_both,
  main,
}
use omnibioai_security_audit.Integrity.Clean.{IsSound, IsDistinct, verify_rows-clean}

-- Every row of both tables is sound, and no identifier is there twice.
pub record IsClean (lib : Library) (keys : Dict String) (w : World) : Type 0 where
  pub events : All (IsSound (audit_events lib) keys) (map event_columns w.store.audit_events)
  pub distinct_events : IsDistinct (audit_events lib) [] (map event_columns w.store.audit_events)
  pub quarantined :
      All
        (IsSound (quarantined_audit_events lib) keys)
        (map (λ row. quarantine_columns row.quarantine) w.store.quarantined_audit_events)
  pub distinct_quarantined :
      IsDistinct
        (quarantined_audit_events lib)
        []
        (map (λ row. quarantine_columns row.quarantine) w.store.quarantined_audit_events)

module _ (lib : Library) (host : Host) where
  finish-eq-zero :
      (events quarantine : Stats) (w : World)
      → (finish lib host events quarantine w).0 ≡ ok 0
      → (report events ≡ true) × (report quarantine ≡ true)
  unfolding finish exit_code raise_alert
  finish-eq-zero events quarantine w h =
      let passed = report events && report quarantine in
      let (u, written, rest) =
        bind-eq-ok (write_status_file lib host passed events quarantine) _ w h in
      elim (Bool-cases passed) [
        | inl good ↦ ground arith
        | inr bad ↦ absurd (let one = ok-inj (rw bad at rest) in omega arith)
      ]

  module _ (driver : Driver) (alone : IsAlone driver) where
    verify_quarantine-eq-zero :
        (keys : Dict String) (events : Stats) (w : World)
        → (verify_quarantine lib host keys driver events w).0 ≡ ok 0
        → (report events ≡ true)
          × All
              (IsSound (quarantined_audit_events lib) keys)
              (map (λ row. quarantine_columns row.quarantine) w.store.quarantined_audit_events)
          × IsDistinct
              (quarantined_audit_events lib)
              []
              (map (λ row. quarantine_columns row.quarantine) w.store.quarantined_audit_events)
    unfolding verify_quarantine query_quarantined verify_quarantine_records
    verify_quarantine-eq-zero keys events w h =
        let (rows, read, rest) = bind-eq-ok (query_quarantined lib host driver) _ w h in
        let (returned, same) = call-eq-ok host.collation driver alone _ w read in
        let (stats, verified, rest') =
          bind-eq-ok (verify_quarantine_records lib host keys rows) _ _ rest in
        let (good, good_q) = finish-eq-zero events stats _ rest' in
        let (sound, distinct) =
          verify_rows-clean (quarantined_audit_events lib) keys rows stats verified good_q in
        rw (ok-inj returned) (good, sound, distinct)

    verify_both-eq-zero :
        (keys : Dict String) (w : World)
        → (verify_both lib host keys driver w).0 ≡ ok 0
        → IsClean lib keys w
    unfolding verify_both query_events verify_audit_events
    verify_both-eq-zero keys w h =
        let (rows, read, rest) = bind-eq-ok (query_events lib host driver) _ w h in
        let (returned, same) = call-eq-ok host.collation driver alone _ w read in
        let (stats, verified, rest') =
          bind-eq-ok (verify_audit_events lib host keys rows) _ _ rest in
        let (good, sound_q, distinct_q) =
          verify_quarantine-eq-zero keys stats (query_events lib host driver w).1 rest' in
        let (sound, distinct) =
          verify_rows-clean (audit_events lib) keys rows stats verified good in
        let kept = ap (λ r. r.1.store) same in
        record {
          events = rw (ok-inj returned) sound;
          distinct_events = rw (ok-inj returned) distinct;
          quarantined = rw kept at sound_q;
          distinct_quarantined = rw kept at distinct_q;
        }

  -- When nobody else uses the database: if the script returns 0, under any faults of the driver, then
  -- the keyring was accepted, every stored row of both tables has its required columns and a hash
  -- that verifies under the key of the keyring that it names, or the legacy key if it names none, and
  -- no identifier is in a table twice.
  pub main-IsClean :
      (w : World)
      → ((url : String) (driver : Driver) → host.create_engine url ≡ ok driver → IsAlone driver)
      → (main lib host w).0 ≡ ok 0
      → (keys : Dict String) × (resolve_keyring host.environ ≡ ok keys) × IsClean lib keys w
  unfolding main
  main-IsClean w alone h =
      let (keys, found, rest) =
        bind-eq-ok (lift {S = World} (resolve_keyring host.environ)) _ w h in
      let (url, named, rest') = bind-eq-ok (lift {S = World} (database_url lib host)) _ w rest in
      let (driver, opened, rest'') =
        bind-eq-ok (lift {S = World} (host.create_engine url)) _ w rest' in
      (keys, found, verify_both-eq-zero driver (alone url driver opened) keys w rest'')
