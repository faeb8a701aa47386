-- ===== src/Tests/Audit.antt =====
-- The verification script and the health service on one event that the sink built.
use Prim.Native.String.{len}
use omnibioai_security_audit.Prelude.{
  ℕ, zero, suc, ◌+◌, ◌≡◌, ◌≢◌, ◌≤◌, ◌↔◌, ◌⊎◌, refl, arith, String, true, false, [], ◌∷◌, length,
  Option, none, some, Dict, lookup, insert,
}
use omnibioai_security_audit.Python.{ok, err, ok-inj}
use omnibioai_security_audit.Python.Int.{pos}
use omnibioai_security_audit.Python.Time.{naive}
use omnibioai_security_audit.Crypto.{compare_digest, is_ascii}
use omnibioai_security_audit.Config.{check_independent, require_record_integrity_key, is_key_id}
use omnibioai_security_audit.Library.{Library}
use omnibioai_security_audit.RecordIntegrity.Cells.{Record, get, text}
use omnibioai_security_audit.RecordIntegrity.Rounding.{round_half_up}
use omnibioai_security_audit.StatusFile.{setting, is_one_line, is_line_break}
use omnibioai_security_audit.Retention.Host.{World, call, now, write_file}
use omnibioai_security_audit.Retention.Main.{retain}
use omnibioai_security_audit.Retention.Statement.{run}
use omnibioai_security_audit.Sink.{event_record}
use omnibioai_security_audit.RecordIntegrity.{
  compute_audit_event_hash, hash_fields, verify_audit_event_hash, stored_hash,
  audit_event_hash_matches_legacy_utc_form,
}
use omnibioai_security_audit.RecordIntegrity.Message.{
  canonical_message, canonical_parts, field_text, timestamp_text, context_text, canonical_json,
}
use omnibioai_security_audit.Integrity
use omnibioai_security_audit.Integrity.{
  exit_1, legacy_id, legacy_keys, resolve_keys, resolve_keyring, event_columns, Stats, no_stats,
  verify_rows,
}
use omnibioai_security_audit.Integrity.Main
use omnibioai_security_audit.Integrity.Counts.{verify_rows-counts}
use omnibioai_security_audit.Integrity.Clean.{IsSound}
use omnibioai_security_audit.Integrity.Passed.{IsClean, main-IsClean}
use omnibioai_security_audit.Integrity.Keyring.{require_record_integrity_key-resolve_keys_iff}
use omnibioai_security_audit.Integrity.Written.{HasRequired, build_row-IsSound}
use omnibioai_security_audit.Health.{
  PersistencePipelineHealth, unavailable, int_env, get_retention_integrity_health,
}
use omnibioai_security_audit.Health.Alerts.{due_alerts}
use omnibioai_security_audit.Health.Degrades.{due_alerts-nil_iff}
use omnibioai_security_audit.Health.Reported.{IsPlain}
use omnibioai_security_audit.Health.Retained.{IsReported, size, retain-IsReported}
use omnibioai_security_audit.Tests.Custody.{executed, store, returned, desk, host, stored, strokes}
use omnibioai_security_audit.Tests.Digest.{plain_crypto-IsHex}
use omnibioai_security_audit.Tests.Evidence.{built, builds, built_time, payload}
use omnibioai_security_audit.Tests.Services.{lib, cfg, tally}

abbrev key : String
key = "0123456789abcdef0123456789abcdef"

configured : require_record_integrity_key cfg ≡ ok (key, "k1")
unfolding require_record_integrity_key compare_digest is_key_id check_independent is_ascii
configured = refl

require_record_integrity_key-resolve_keys_iff_example :
    (require_record_integrity_key cfg ≡ ok (key, "k1")) ↔ (
      (cfg.record_integrity_key ≡ some key)
      × (cfg.record_integrity_key_id ≡ some "k1")
      × ((cfg.event_signing_secret ≡ "") ⊎ (compare_digest key cfg.event_signing_secret ≡ ok false))
      × ((resolve_keys (some "older") (some key) (some "k1")
            ≡ ok (insert "k1" key (legacy_keys (some "older"))))
          ⊎ (("k1" ≡ legacy_id)
              × (32 ≤ len key)
              × (resolve_keys (some "older") (some key) (some "k1") ≡ err exit_1))))
unfolding compare_digest is_ascii
require_record_integrity_key-resolve_keys_iff_example =
    require_record_integrity_key-resolve_keys_iff cfg (some "older") key "k1" refl

build_row-IsSound_example :
    IsSound
      (Integrity.audit_events lib)
      (("k1", key) ∷ [])
      (event_columns (record built { timestamp = naive (round_half_up 3) }))
    ↔ HasRequired (record built { timestamp = naive (round_half_up 3) })
unfolding lookup
build_row-IsSound_example =
    build_row-IsSound lib cfg plain_crypto-IsHex payload built 3 (("k1", key) ∷ []) key "k1" builds
      built_time (omega arith) configured refl

abbrev bare : Record
bare = ("event_id", text "e1") ∷ []

abbrev counted : Stats
counted = elim (verify_rows (Integrity.audit_events lib) [] [] no_stats (bare ∷ [])) [
  | ok s ↦ s
  | err e ↦ no_stats
]

counts : verify_rows (Integrity.audit_events lib) [] [] no_stats (bare ∷ []) ≡ ok counted
unfolding verify_rows Integrity.judge Integrity.is_blank get
counts = refl

verify_rows-counts_example :
    (counted.checked ≡ 1)
    × (counted.valid + length counted.invalid + length counted.unverifiable + counted.no_baseline
        ≡ counted.checked)
    × (counted.valid_legacy_tz ≤ counted.valid)
verify_rows-counts_example =
    verify_rows-counts (Integrity.audit_events lib) [] (bare ∷ []) counted counts

-- A digest that is short enough to be computed.
abbrev short_lib : Library
short_lib = record lib { crypto = record { sha256 = λ s. []; hexdigest = λ k message. "ff" } }

abbrev one_event : World
one_event = desk (record {
  audit_events = record stored { record_integrity_hash = some "ff" } ∷ [];
  quarantined_audit_events = [];
  audit_legal_holds = [];
})

passes : (Integrity.Main.main short_lib host one_event).0 ≡ ok 0
unfolding Integrity.Main.main resolve_keyring setting lookup is_key_id Integrity.Main.database_url
    Integrity.Main.verify_both Integrity.Main.query_events call Integrity.Main.verify_audit_events
    Integrity.Main.verify_quarantine_records verify_rows run Integrity.judge Integrity.is_blank get
    event_columns compare_digest is_ascii compute_audit_event_hash hash_fields canonical_message
    canonical_parts event_record field_text timestamp_text context_text canonical_json
    verify_audit_event_hash stored_hash Integrity.selected_secret Integrity.missing_fields
    Integrity.duplicates Integrity.Main.verify_quarantine Integrity.Main.query_quarantined
    Integrity.Main.finish Integrity.Main.report Integrity.Main.exit_code
    Integrity.Main.write_status_file Integrity.audit_events Integrity.quarantined_audit_events
    insert audit_event_hash_matches_legacy_utc_form now write_file
passes = refl

main-IsClean_example :
    (keys : Dict String) × (resolve_keyring host.environ ≡ ok keys)
    × IsClean short_lib keys one_event
main-IsClean_example =
    main-IsClean short_lib host one_event (λ url driver opened n. rw (← ok-inj opened) refl) passes

tally_line : (n : ℕ) → is_one_line (tally n) ≡ true
unfolding is_one_line is_line_break tally
tally_line zero = refl
tally_line (suc n) = tally_line n

strokes-tally : (n : ℕ) → strokes (tally n) ≡ n
unfolding strokes tally
strokes-tally zero = refl
strokes-tally (suc n) = omega (arith, strokes-tally n)

plain : IsPlain lib host
plain = record {
  isoformat_line = tally_line;
  str_int_line = tally_line;
  int-str_int = λ n. rw (strokes-tally n) refl;
}

retain-IsReported_example :
    let w' = (retain lib host executed 1 "db" (desk store)).1 in
    let health = get_retention_integrity_health host.int host.environ w'.files in
    ((◌≡◌ {A = ℕ} 0 0)
      × (draw : ℕ) × (w'.draws ≡ draw + 1)
      × IsReported lib host plain "status" health "success" draw
      × (n : ℕ) × (health.last_retention_deleted_total ≡ some (pos n))
      × (n + size w'.store ≡ 4))
    ⊎ ((◌≡◌ {A = ℕ} 0 1)
        × (draw : ℕ) × (w'.draws ≡ draw + 1 + 1)
        × IsReported lib host plain "status" health "failed_or_partial" draw)
unfolding setting lookup
retain-IsReported_example =
    retain-IsReported lib host plain "status" executed 1 "db" (desk store) 0 refl refl
      (λ driver opened n. rw (← ok-inj opened) refl) returned

abbrev reachable : PersistencePipelineHealth
reachable = record {
  available = true;
  last_successful_persistence_at = none;
  quarantine_count = some 0;
  last_quarantine_at = none;
  error = none;
}

due_alerts-nil_iff_example :
    (due_alerts lib host (unavailable "ConnectionError") reachable ≡ [])
    ↔ ((false ≡ true) × (◌≢◌ {A = Option ℕ} none (some 0)) × (true ≡ true))
unfolding int_env setting lookup
due_alerts-nil_iff_example =
    due_alerts-nil_iff lib host (unavailable "ConnectionError") reachable refl refl refl refl
