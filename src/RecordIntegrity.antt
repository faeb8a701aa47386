-- ===== src/RecordIntegrity.antt =====
-- audit/record_integrity.py: the keyed hash of a stored row.
pub mod Accept
pub mod Cells
pub mod Detect
pub mod Message
pub mod Rounding
pub mod Tamper
use omnibioai_security_audit.Prelude.{
  ℕ, String, ◌==◌, ◌<>◌, truthy, Bool, true, false, not, List, Option, none, some, is_some,
  if◌then◌else◌,
}
use omnibioai_security_audit.Python.{Exn, Result, ok, err, ◌>>=◌}
use omnibioai_security_audit.Crypto.{compare_digest}
use omnibioai_security_audit.Library.{Library}
use Cells.{Cell, Record, get, null, text, int, time, json}
use Message.{canonical_message, audit_event_fields, quarantine_record_fields}

abbrev pub domain_label : String
domain_label = "omnibioai-audit-record-integrity"

-- `except Exception: return False`
abbrev pub caught : Result Bool → Bool
caught (ok b) = b
caught (err e) = false

-- The stored hash, if it is a text that is not empty.
unfoldable pub stored_hash : Record → Option String
stored_hash r = elim (get "record_integrity_hash" r) [
  | text s ↦ if truthy s then some s else none
  | _ ↦ none
]

-- A stored hash against the computed one: a record that cannot be hashed fails verification, and
-- an unequal hash is left to the older form.
unfoldable pub compare_stored : String → Result String → Result Bool → Result Bool
compare_stored stored (err e) legacy = ok false
compare_stored stored (ok expected) legacy = do
  same ← compare_digest stored expected
  if same then ok true else legacy

module _ (lib : Library) where
  unfoldable pub integrity_key : String → List ℕ
  integrity_key secret = lib.crypto.sha256 (domain_label <> (":" <> secret))

  unfoldable pub hash_fields : List String → Bool → Option String → Record → String → Result String
  hash_fields fields legacy key_id r secret = do
    message ← canonical_message lib fields legacy key_id r
    ok (lib.crypto.hexdigest (integrity_key secret) message)

  unfoldable pub compute_audit_event_hash : Record → String → Option String → Result String
  compute_audit_event_hash r secret key_id = hash_fields audit_event_fields false key_id r secret

  unfoldable pub compute_quarantine_record_hash : Record → String → Option String → Result String
  compute_quarantine_record_hash r secret key_id =
      hash_fields quarantine_record_fields false key_id r secret

  unfoldable pub audit_event_hash_matches_legacy_utc_form : Record → String → Result Bool
  audit_event_hash_matches_legacy_utc_form r secret = elim (stored_hash r) [
    | none ↦ ok false
    | some stored ↦ elim (hash_fields audit_event_fields true none r secret) [
      | err e ↦ ok false
      | ok mac ↦ compare_digest stored mac
    ]
  ]

  -- The older timestamp form is tried only where the row names no key.
  abbrev match_legacy : Record → String → Option String → Result Bool
  match_legacy r secret none = audit_event_hash_matches_legacy_utc_form r secret
  match_legacy r secret (some key_id) = ok false

  unfoldable pub verify_audit_event_hash : Record → String → Option String → Result Bool
  unfolding compare_stored
  verify_audit_event_hash r secret key_id = elim (stored_hash r) [
    | none ↦ ok false
    | some stored ↦
        compare_stored stored (compute_audit_event_hash r secret key_id)
          (match_legacy r secret key_id)
  ]

  unfoldable pub verify_quarantine_record_hash : Record → String → Option String → Result Bool
  verify_quarantine_record_hash r secret key_id = elim (stored_hash r) [
    | none ↦ ok false
    | some stored ↦ elim (compute_quarantine_record_hash r secret key_id) [
      | err e ↦ ok false
      | ok expected ↦ compare_digest stored expected
    ]
  ]
