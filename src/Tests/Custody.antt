-- ===== src/Tests/Custody.antt =====
-- One event under retention, and the theorems on what the script does with it.
use mathlib.Core.List.{Memᴰ}
use omnibioai_security_audit.Prelude.{
  ℕ, suc, ◌*◌, ◌≡◌, refl, ap, ◌∙◌, arith, String, ◌==◌, partition, true, false, List, [], ◌∷◌, none,
  some, lookup,
}
use Prim.Native.String.{[] as nil, ◌∷◌ as cons}
use omnibioai_security_audit.Python.{ok, ok-inj}
use omnibioai_security_audit.Python.Int.{pos}
use omnibioai_security_audit.Python.Time.{naive, backward}
use omnibioai_security_audit.Python.Json.{obj, end}
use omnibioai_security_audit.Alerts.{no_alerts}
use omnibioai_security_audit.Storage.Rows.{AuditEventRecord}
use omnibioai_security_audit.StatusFile.{setting}
use omnibioai_security_audit.Retention.Store.{
  AuditLegalHold, QuarantinedRow, Store, Collation, names, is_maintenance,
}
use omnibioai_security_audit.Retention.Statement.{Statement, on_events, delete, execute, run}
use omnibioai_security_audit.Retention.Tables.{audit_events}
use omnibioai_security_audit.Retention.Host.{fine, Driver, Host, World}
use omnibioai_security_audit.Retention.Cleanup.{Args}
use omnibioai_security_audit.Retention.Main.{main, retain}
use omnibioai_security_audit.Retention.Evidence.{IsLogged, execute-IsLogged}
use omnibioai_security_audit.Retention.Held.{run-keeps_held}
use omnibioai_security_audit.Retention.Expected.{
  left_by, selected, event_stays, message_stays, on_hold,
}
use omnibioai_security_audit.Retention.Honest.{main-eq-zero, main_configured}
use omnibioai_security_audit.Retention.Kept.{main-keeps_held, main-keeps_recent}
use omnibioai_security_audit.Retention.Complete.{IsReady, main_purges, retain-ready}
use omnibioai_security_audit.Tests.Services.{lib}

abbrev pub stored : AuditEventRecord
stored = record {
  event_id = "e1";
  timestamp = naive 5;
  service = "lims";
  event_type = "tool_execution";
  user_id = none;
  organization_id = some "org-a";
  tenant_scope = "organization";
  action = "run";
  resource = none;
  decision = none;
  reason = none;
  trace_id = none;
  context = obj end;
  integrity_status = "verified";
  record_integrity_hash = none;
  integrity_key_id = none;
}

abbrev recent : AuditEventRecord
recent = record stored { event_id = "e2"; timestamp = naive 150000000000 }

-- Old, and under no hold.
abbrev old : AuditEventRecord
old = record stored { event_id = "e3"; timestamp = naive 7 }

abbrev poison : QuarantinedRow
poison = record {
  quarantine = record {
    stream_message_id = "1-0";
    raw_data = none;
    raw_signature = none;
    service = none;
    failure_category = "malformed_json";
    failure_detail = none;
    delivery_attempts = 5;
    record_integrity_hash = none;
    integrity_key_id = none;
  };
  quarantined_at = naive 9;
}

abbrev hold : AuditLegalHold
hold = record {
  record_table = "audit_events";
  record_key = "e1";
  held_at = naive 0;
  held_by = some "case-7";
  reason = none;
}

abbrev exact : Collation
exact = record { same_key = ◌==◌; same_user = ◌==◌ }

abbrev pub store : Store
store = record {
  audit_events = stored ∷ recent ∷ old ∷ [];
  quarantined_audit_events = poison ∷ [];
  audit_legal_holds = hold ∷ [];
}

abbrev pub desk : Store → World
desk s = record { store = s; pending = none; calls = 0; files = []; alerts = no_alerts; draws = 0 }

abbrev pub engine : String → Driver
engine user = record { user = user; others = λ n. []; fault = λ n. fine }

-- `int` counts the strokes that `str_int` writes.
unfoldable pub strokes : String → ℕ
strokes nil = 0
strokes (cons c s) = suc (strokes s)

abbrev pub host : Host
host = record {
  environ =
      ("AUDIT_RETENTION_DAYS", "1")
      ∷ ("AUDIT_MAINTENANCE_DATABASE_URL", "db")
      ∷ ("AUDIT_HEALTH_STATUS_DIR", "status")
      ∷ ("AUDIT_LEGACY_RECORD_VERIFY_KEY", "older")
      ∷ ("AUDIT_READER_DATABASE_URL", "db")
      ∷ [];
  collation = exact;
  int = λ s. some (pos (strokes s));
  create_engine = λ url. ok (engine "audit_maintenance@10.0.0.1");
  utcnow = λ n. 200000000000;
  monotonic = λ n. n;
  write_error = λ path. none;
}

abbrev pub executed : Args
executed = record { execute = true; dry_run = false }

execute-IsLogged_example :
    IsLogged exact audit_events "root@localhost"
      (on_events (delete (λ row. true)))
      store
      (execute exact "root@localhost" (on_events (delete (λ row. true))) store)
execute-IsLogged_example =
    execute-IsLogged exact audit_events "root@localhost" (on_events (delete (λ row. true))) store

abbrev purging : List (String × Statement)
purging = ("audit_maintenance@10.0.0.1", on_events (delete (λ row. true))) ∷ []

run-keeps_held_example :
    Memᴰ stored (run exact purging store).audit_events
    × Memᴰ hold (run exact purging store).audit_legal_holds
unfolding names
run-keeps_held_example =
    run-keeps_held exact audit_events purging store stored hold refl (tt, tt) (Memᴰ.head refl)
      (Memᴰ.head refl)

main-keeps_held_example :
    Memᴰ stored (main lib host executed (desk store)).1.store.audit_events
    × Memᴰ hold (main lib host executed (desk store)).1.store.audit_legal_holds
unfolding names
main-keeps_held_example =
    main-keeps_held lib host audit_events stored executed hold (desk store) refl
      (λ url driver n opened. rw (← ok-inj opened) tt) refl (Memᴰ.head refl) (Memᴰ.head refl)

main-keeps_recent_example : Memᴰ recent (main lib host executed (desk store)).1.store.audit_events
unfolding setting lookup strokes
main-keeps_recent_example =
    main-keeps_recent lib host audit_events recent executed "1" 0 (desk store) refl refl
      (omega arith) (λ url driver n opened. rw (← ok-inj opened) tt) refl
      (Memᴰ.tail (Memᴰ.head refl))

ready : IsReady exact (engine "audit_maintenance@10.0.0.1")
unfolding is_maintenance partition
ready = record { alone = λ n. refl; works = λ n. refl; may_delete = refl }

-- One event is on hold and one is recent; the other one and the message go.
left :
    left_by exact true 113600000000 store
    ≡ record store { audit_events = stored ∷ recent ∷ []; quarantined_audit_events = [] }
unfolding left_by selected event_stays message_stays on_hold
left = refl

main_purges_example :
    ((main lib host executed (desk store)).0 ≡ ok 0)
    × ((main lib host executed (desk store)).1.store ≡ left_by exact true 113600000000 store)
unfolding setting lookup strokes
main_purges_example =
    main_purges lib host executed "1" "db" 0 113600000000 (engine "audit_maintenance@10.0.0.1")
      (desk store) refl refl refl refl refl ready refl (λ path. refl)

-- The run that the examples share.
pub returned : (retain lib host executed 1 "db" (desk store)).0 ≡ ok 0
unfolding setting lookup strokes
returned =
    retain-ready lib host executed 1 113600000000 "db" (engine "audit_maintenance@10.0.0.1")
      (desk store) refl ready refl (λ path. refl)

main_returned : (main lib host executed (desk store)).0 ≡ ok 0
unfolding setting lookup strokes
main_returned =
    ap (λ r. r.0) (main_configured lib host executed "1" 0 (desk store) "db" refl refl refl refl)
    ∙ returned

main-eq-zero_example :
    (url : String) × (setting "AUDIT_MAINTENANCE_DATABASE_URL" host.environ ≡ some url)
    × (limit : ℕ) × (backward 200000000000 (1 * 86400000000) ≡ ok limit)
    × ((main lib host executed (desk store)).1.store ≡ left_by exact true limit store)
unfolding setting lookup strokes
main-eq-zero_example =
    main-eq-zero lib host executed "1" 0 (desk store)
      (λ url driver opened n. rw (← ok-inj opened) refl) refl refl main_returned
