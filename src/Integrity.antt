-- ===== src/Integrity.antt =====
-- scripts/verify_audit_integrity.py: the keyring, and the statistics of the stored rows.
pub mod Main
pub mod Counts
pub mod Clean
pub mod Passed
pub mod Keyring
pub mod Written
use Prim.Native.String.{len}
use omnibioai_security_audit.Prelude.{
  ℕ, ◌+◌, String, ◌==◌, ◌<>◌, truthy, Bool, true, false, not, ◌&&◌, ◌||◌, List, [], ◌∷◌, ◌++◌,
  Option, none, some, Dict, lookup, insert, ltb, if◌then◌else◌,
}
use omnibioai_security_audit.Python.{Exn, Result, ok, err, ◌>>=◌, ◌>>◌}
use omnibioai_security_audit.Config.{is_key_id}
use omnibioai_security_audit.Crypto.{compare_digest}
use omnibioai_security_audit.Library.{Library}
use omnibioai_security_audit.RecordIntegrity.{
  verify_audit_event_hash, verify_quarantine_record_hash, audit_event_hash_matches_legacy_utc_form,
}
use omnibioai_security_audit.RecordIntegrity.Cells.{Cell, Record, get, put, null, text, opt_text}
use omnibioai_security_audit.StatusFile.{setting}
use omnibioai_security_audit.Storage.Rows.{AuditEventRecord, QuarantinedAuditEvent}
use omnibioai_security_audit.Sink.{event_record}
use omnibioai_security_audit.Quarantine.{quarantine_record}

-- `sys.exit(1)`
abbrev pub exit_1 : Exn
exit_1 = record { kind = "SystemExit"; message = "1" }

abbrev pub legacy_id : String
legacy_id = "__legacy__"

-- The last test of the keys: the two are independent.
unfoldable pub check_pair : Option String → String → Dict String → Result (Dict String)
check_pair none current keys = ok keys
check_pair (some legacy) current keys = do
  same ← compare_digest legacy current
  if same then err exit_1 else ok keys

unfoldable pub legacy_keys : Option String → Dict String
legacy_keys none = []
legacy_keys (some legacy) = (legacy_id, legacy) ∷ []

unfoldable pub current_keys : Option String → String → Option String → Result (Dict String)
unfolding check_pair legacy_keys
current_keys legacy current none = err exit_1
current_keys legacy current (some key_id) =
    if key_id == legacy_id
    then err exit_1
    else if ltb (len current) 32 || not (is_key_id key_id)
    then err exit_1
    else check_pair legacy current (insert key_id current (legacy_keys legacy))

unfoldable pub resolve_keys : Option String → Option String → Option String → Result (Dict String)
unfolding current_keys
resolve_keys none none key_id = err exit_1
resolve_keys (some legacy) none key_id = ok (legacy_keys (some legacy))
resolve_keys legacy (some current) key_id = current_keys legacy current key_id

unfoldable pub resolve_keyring : Dict String → Result (Dict String)
unfolding resolve_keys
resolve_keyring environ =
    resolve_keys (setting "AUDIT_LEGACY_RECORD_VERIFY_KEY" environ)
      (setting "AUDIT_RECORD_INTEGRITY_KEY" environ)
      (setting "AUDIT_RECORD_INTEGRITY_KEY_ID" environ)

-- The columns that are read of a row of each table.
unfoldable pub event_columns : AuditEventRecord → Record
event_columns row =
    put "integrity_key_id" (opt_text row.integrity_key_id)
      (put "record_integrity_hash" (opt_text row.record_integrity_hash) (event_record row))

unfoldable pub quarantine_columns : QuarantinedAuditEvent → Record
quarantine_columns row =
    put "integrity_key_id" (opt_text row.integrity_key_id)
      (put "record_integrity_hash" (opt_text row.record_integrity_hash) (quarantine_record row))

-- What the two loops differ in.
pub record Kind : Type 0 where
  pub id_column : String
  pub required : List String
  pub verify : Record → String → Option String → Result Bool
  pub matches_legacy : Record → String → Result Bool

unfoldable pub audit_events : Library → Kind
audit_events lib = record {
  id_column = "event_id";
  required = "event_id" ∷ "timestamp" ∷ "service" ∷ "event_type" ∷ "action" ∷ [];
  verify = verify_audit_event_hash lib;
  matches_legacy = audit_event_hash_matches_legacy_utc_form lib;
}

unfoldable pub quarantined_audit_events : Library → Kind
quarantined_audit_events lib = record {
  id_column = "stream_message_id";
  required = "stream_message_id" ∷ "failure_category" ∷ "delivery_attempts" ∷ [];
  verify = verify_quarantine_record_hash lib;
  matches_legacy = λ r secret. ok false;
}

pub record Stats : Type 0 where
  pub checked : ℕ
  pub valid : ℕ
  pub valid_legacy_tz : ℕ
  pub invalid : List String
  pub unverifiable : List String
  pub no_baseline : ℕ
  pub structural : List String

abbrev pub no_stats : Stats
no_stats = record {
  checked = 0;
  valid = 0;
  valid_legacy_tz = 0;
  invalid = [];
  unverifiable = [];
  no_baseline = 0;
  structural = [];
}

-- `value is None or value == ""`
unfoldable pub is_blank : Cell → Bool
is_blank null = true
is_blank (text s) = s == ""
is_blank _ = false

-- An identifier is a text; it is the primary key.
abbrev pub shown : Cell → String
shown (text s) = s
shown _ = "None"

unfoldable pub missing_fields : String → Record → List String → List String
unfolding is_blank
missing_fields id r [] = []
missing_fields id r (column ∷ columns) =
    let rest = missing_fields id r columns in
    if is_blank (get column r)
    then (id <> (": missing required field '" <> (column <> "'"))) ∷ rest
    else rest

unfoldable pub is_in : String → List String → Bool
is_in s [] = false
is_in s (t ∷ ts) = t == s || is_in s ts

unfoldable pub duplicates : String → String → List String → List String
unfolding is_in
duplicates column id seen =
    if is_in id seen then ("duplicate " <> (column <> (": " <> id))) ∷ [] else []

-- How a row fares; a valid one with whether it matched the older timestamp form.
pub data Verdict : Type 0 where
  no_baseline unverifiable invalid : Verdict
  valid : Bool → Verdict

abbrev pub key_id_of : Record → Option String
key_id_of r = elim (get "integrity_key_id" r) [ text s ↦ some s | _ ↦ none ]

-- The secret of `_selected_key`: a row that names no key is checked with the legacy one.
unfoldable pub selected_secret : Dict String → Option String → Option String
selected_secret keys none = lookup legacy_id keys
selected_secret keys (some key_id) = lookup key_id keys

module _ (kind : Kind) where
  unfoldable pub judge_verified : Record → String → Option String → Bool → Result Verdict
  judge_verified r secret key_id false = ok invalid
  judge_verified r secret (some key_id) true = ok (valid false)
  judge_verified r secret none true = do legacy ← kind.matches_legacy r secret; ok (valid legacy)

  unfoldable pub judge_with : Record → Option String → Option String → Result Verdict
  unfolding judge_verified
  judge_with r key_id none = ok unverifiable
  judge_with r key_id (some secret) = kind.verify r secret key_id >>= judge_verified r secret key_id

  unfoldable pub judge : Dict String → Record → Result Verdict
  unfolding judge_with
  judge keys r =
      if is_blank (get "record_integrity_hash" r)
      then ok no_baseline
      else judge_with r (key_id_of r) (selected_secret keys (key_id_of r))

  -- One row more, with its structural problems.
  unfoldable pub note_row : List String → Record → Stats → Stats
  note_row seen r stats =
      let id = shown (get kind.id_column r) in
      record stats {
        checked = stats.checked + 1;
        structural =
            (stats.structural ++ duplicates kind.id_column id seen)
            ++ missing_fields id r kind.required;
      }

  unfoldable pub note_verdict : String → Verdict → Stats → Stats
  note_verdict id no_baseline stats = record stats { no_baseline = stats.no_baseline + 1 }
  note_verdict id unverifiable stats = record stats { unverifiable = stats.unverifiable ++ id ∷ [] }
  note_verdict id invalid stats = record stats { invalid = stats.invalid ++ id ∷ [] }
  note_verdict id (valid legacy) stats = record stats {
    valid = stats.valid + 1;
    valid_legacy_tz = if legacy then stats.valid_legacy_tz + 1 else stats.valid_legacy_tz;
  }

  -- The loop of verify_audit_events and of verify_quarantine_records; an exception ends it.
  unfoldable pub verify_rows : Dict String → List String → Stats → List Record → Result Stats
  unfolding note_row note_verdict
  verify_rows keys seen stats [] = ok stats
  verify_rows keys seen stats (r ∷ rs) =
      let id = shown (get kind.id_column r) in
      judge keys r >>= λ verdict.
      verify_rows keys (id ∷ seen) (note_verdict id verdict (note_row seen r stats)) rs
