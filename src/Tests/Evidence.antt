-- ===== src/Tests/Evidence.antt =====
-- Signatures and stored rows: the theorems at concrete values.
use omnibioai_security_audit.Prelude.{
  ◌≡◌, ◌≢◌, sym, ◌∙◌, ◌↔◌, ◌⊎◌, refl, arith, String, ◌<>◌, true, false, [], ◌∷◌, none, some, eq_iff,
  has_char,
}
use omnibioai_security_audit.Python.{ok, err, ok-inj}
use omnibioai_security_audit.Python.Time.{naive}
use omnibioai_security_audit.Python.Json.{obj, end}
use omnibioai_security_audit.Crypto.{compare_digest, is_ascii}
use omnibioai_security_audit.Config.{check_independent, require_record_integrity_key, is_key_id}
use omnibioai_security_audit.Event.{AuditEvent, make_event}
use omnibioai_security_audit.Processor.{classify_event_integrity, classify_event_integrity_iff}
use omnibioai_security_audit.RecordIntegrity.{
  hash_fields, compute_audit_event_hash, verify_audit_event_hash, stored_hash, integrity_key,
}
use omnibioai_security_audit.RecordIntegrity.Cells.{Record, get, put, null, text}
use omnibioai_security_audit.RecordIntegrity.Detect.{
  verify_audit_event_hash-detects, integrity_key-ne-signing_key, compute_audit_event_hash-null_None,
}
use omnibioai_security_audit.RecordIntegrity.Message.{
  audit_event_fields, field_text, canonical_message, canonical_parts, timestamp_text, context_text,
  canonical_json, str_cell, to_naive_utc,
}
use omnibioai_security_audit.RecordIntegrity.Accept.{
  verify_audit_event_hash-computed, hash-is_ascii,
}
use omnibioai_security_audit.RecordIntegrity.Rounding.{round_half_up}
use omnibioai_security_audit.RecordIntegrity.Tamper.{Agree, HasSingleLines, SingleLine}
use omnibioai_security_audit.Signing.{sign_audit_event, verify_audit_event, event_mac, signing_key}
use omnibioai_security_audit.Signing.Sound.{
  verify_audit_event_iff, sign_audit_event_inj, sign_audit_event-collision,
}
use omnibioai_security_audit.Sink.{Payload, build_row, unhashed_row, event_record}
use omnibioai_security_audit.Sink.Verified.{build_row-verifies, stored_record}
use omnibioai_security_audit.Storage.Rows.{AuditEventRecord}
use omnibioai_security_audit.Tests.Digest.{
  plain_crypto, plain_crypto-IsHex, plain_crypto-IsCollisionFree,
}
use omnibioai_security_audit.Tests.Services.{lib, cfg, launch}

abbrev launched : AuditEvent
launched = make_event "e0" (naive 0) launch

abbrev signature : String
signature = "v1" <> (":" <> event_mac plain_crypto "v1" "lims" "{}" "s")

signed : sign_audit_event plain_crypto "lims" (some "{}") "s" ≡ ok signature
unfolding sign_audit_event
signed = refl

verify_audit_event_iff_example :
    (verify_audit_event plain_crypto "lims" (some "{}") (some signature) "s" ≡ true)
    ↔ (sign_audit_event plain_crypto "lims" (some "{}") "s" ≡ ok signature)
verify_audit_event_iff_example =
    verify_audit_event_iff plain_crypto plain_crypto-IsHex "lims" "{}" signature "s"

sign_audit_event_inj_example :
    (◌≡◌ {A = String} "lims" "lims") × (◌≡◌ {A = String} "{}" "{}") × (◌≡◌ {A = String} "s" "s")
unfolding has_char
sign_audit_event_inj_example =
    sign_audit_event_inj plain_crypto plain_crypto-IsCollisionFree "lims" "lims" "{}" "{}" "s" "s"
      signature refl refl signed (verify_audit_event_iff_example.1 signed)

sign_audit_event-collision_example :
    sign_audit_event plain_crypto "lims" (some ("x" <> ("\n" <> "{}"))) "s"
    ≡ sign_audit_event plain_crypto ("lims" <> ("\n" <> "x")) (some "{}") "s"
sign_audit_event-collision_example =
    sign_audit_event-collision plain_crypto "lims" "x" "{}" "s" refl

classify_event_integrity_iff_example :
    let status = classify_event_integrity plain_crypto "lims" (some "v1:00") (some "{}") "s" in
    let made = sign_audit_event plain_crypto "lims" (some "{}") "s" ≡ ok "v1:00" in
    ((status ≡ "valid") × made) ⊎ ((status ≡ "invalid") × (¬ made))
classify_event_integrity_iff_example =
    classify_event_integrity_iff plain_crypto plain_crypto-IsHex "lims" "{}" "v1:00" "s" refl

-- A row of one column; the others read as None.
abbrev row : Record
row = ("event_id", text "e1") ∷ []

abbrev mac : String
mac = elim (compute_audit_event_hash lib row "s" (some "k1")) [ ok h ↦ h | err e ↦ "" ]

computed : compute_audit_event_hash lib row "s" (some "k1") ≡ ok mac
unfolding compute_audit_event_hash hash_fields canonical_message canonical_parts get field_text
    timestamp_text context_text canonical_json
computed = refl

abbrev stored_row : Record
stored_row = put "record_integrity_hash" (text mac) row

computed_stored : compute_audit_event_hash lib stored_row "s" (some "k1") ≡ ok mac
unfolding compute_audit_event_hash hash_fields canonical_message canonical_parts get field_text
    timestamp_text context_text canonical_json
computed_stored = refl

stored : stored_hash stored_row ≡ some mac
unfolding stored_hash get
stored = rw (hash-is_ascii lib plain_crypto-IsHex row "s" (some "k1") mac computed).1 refl

line :
    (r : Record) (f w : String)
    → SingleLine f
    → field_text lib false f (get f r) ≡ ok w
    → SingleLine w
    → SingleLine f × ((v : String) → field_text lib false f (get f r) ≡ ok v → SingleLine v)
line r f w hf e hw = (hf, λ v e'. rw (ok-inj (sym e' ∙ e)) hw)

abbrev with_hash : String → Record
with_hash h = put "record_integrity_hash" (text h) row

single_lines : (h : String) → HasSingleLines lib false audit_event_fields (with_hash h)
unfolding has_char get field_text timestamp_text context_text canonical_json str_cell
single_lines h = (
  line (with_hash h) "event_id" "e1" refl refl refl,
  (
    line (with_hash h) "timestamp" "None" refl refl refl,
    (
      line (with_hash h) "service" "None" refl refl refl,
      (
        line (with_hash h) "event_type" "None" refl refl refl,
        (
          line (with_hash h) "user_id" "None" refl refl refl,
          (
            line (with_hash h) "organization_id" "None" refl refl refl,
            (
              line (with_hash h) "tenant_scope" "None" refl refl refl,
              (
                line (with_hash h) "action" "None" refl refl refl,
                (
                  line (with_hash h) "resource" "None" refl refl refl,
                  (
                    line (with_hash h) "decision" "None" refl refl refl,
                    (
                      line (with_hash h) "reason" "None" refl refl refl,
                      (
                        line (with_hash h) "trace_id" "None" refl refl refl,
                        (
                          line (with_hash h) "context" "{}" refl refl refl,
                          (line (with_hash h) "integrity_status" "None" refl refl refl, tt),
                        ),
                      ),
                    ),
                  ),
                ),
              ),
            ),
          ),
        ),
      ),
    ),
  ),
)

verify_audit_event_hash-detects_example :
    Agree lib false audit_event_fields stored_row stored_row
    × (◌≡◌ {A = String} "k1" "k1")
    × (◌≡◌ {A = String} "s" "s")
unfolding has_char
verify_audit_event_hash-detects_example =
    verify_audit_event_hash-detects lib plain_crypto-IsCollisionFree stored_row stored_row "s" "s"
      "k1" "k1" mac computed_stored stored (single_lines mac) (single_lines mac) refl refl
      (verify_audit_event_hash-computed lib plain_crypto-IsHex stored_row "s" (some "k1") mac
        computed_stored stored)

integrity_key-ne-signing_key_example : integrity_key lib "s" ≢ signing_key plain_crypto "s"
integrity_key-ne-signing_key_example =
    integrity_key-ne-signing_key lib plain_crypto-IsCollisionFree "s" "s"

compute_audit_event_hash-null_None_example :
    compute_audit_event_hash lib (put "reason" null row) "s" none
    ≡ compute_audit_event_hash lib (put "reason" (text "None") row) "s" none
compute_audit_event_hash-null_None_example =
    compute_audit_event_hash-null_None lib row "reason" "s" none
      (λ e. let f = (eq_iff "reason" "context").1 e in absurd (cc))

abbrev pub payload : Payload
payload = record { event = launched; integrity_status = some "valid" }

abbrev no_row : AuditEventRecord
no_row = record {
  event_id = "e1";
  timestamp = naive 3;
  service = "lims";
  event_type = "tool_execution";
  user_id = some "u1";
  organization_id = some "org-a";
  tenant_scope = "organization";
  action = "run";
  resource = none;
  decision = some "allow";
  reason = none;
  trace_id = none;
  context = obj end;
  integrity_status = "valid";
  record_integrity_hash = none;
  integrity_key_id = none;
}

abbrev pub built : AuditEventRecord
built = elim (build_row lib cfg payload) [ ok r ↦ r | err e ↦ no_row ]

pub builds : build_row lib cfg payload ≡ ok built
unfolding build_row require_record_integrity_key compare_digest unhashed_row to_naive_utc
    compute_audit_event_hash hash_fields canonical_message canonical_parts get event_record
    field_text timestamp_text context_text canonical_json is_key_id check_independent is_ascii
    make_event
builds = refl

pub built_time : built.timestamp ≡ naive 3
unfolding build_row require_record_integrity_key compare_digest unhashed_row to_naive_utc
    compute_audit_event_hash hash_fields canonical_message canonical_parts get event_record
    field_text timestamp_text context_text canonical_json is_key_id check_independent is_ascii
    make_event
built_time = refl

build_row-verifies_example :
    (key : String) × (key_id : String) × (require_record_integrity_key cfg ≡ ok (key, key_id))
    × (built.integrity_key_id ≡ some key_id)
    × (verify_audit_event_hash lib (stored_record built) key (some key_id) ≡ ok true)
    × (verify_audit_event_hash lib
          (stored_record (record built { timestamp = naive (round_half_up 3) }))
          key
          (some key_id)
        ≡ ok true)
build_row-verifies_example =
    build_row-verifies lib cfg plain_crypto-IsHex payload built 3 builds built_time (omega arith)
