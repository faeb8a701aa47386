-- ===== src/Signing.antt =====
-- audit/signing.py: the producer-side signature of one audit event.
pub mod Sound
use omnibioai_security_audit.Prelude.{
  ℕ, ◌≡◌, String, ◌==◌, ◌<>◌, partition, truthy, Bool, true, false, not, ◌||◌, List, Option, none,
  some, if◌then◌else◌,
}
use omnibioai_security_audit.Python.{Exn, Result, ok, err, ◌>>=◌}
use omnibioai_security_audit.Crypto.{Crypto, compare_digest}

abbrev pub domain_label : String
domain_label = "omnibioai-audit-events"

abbrev pub supported_version : String
supported_version = "v1"

abbrev pub value_error : String → Exn
value_error m = record { kind = "ValueError"; message = m }

-- f"{version}\n{service}\n{data}"
unfoldable pub signing_message : String → String → String → String
signing_message version service text = version <> ("\n" <> (service <> ("\n" <> text)))

-- `except Exception: return False`
abbrev pub caught : Result Bool → Bool
caught (ok b) = b
caught (err e) = false

module _ (c : Crypto) where
  unfoldable pub signing_key : String → List ℕ
  signing_key secret = c.sha256 (domain_label <> (":" <> secret))

  -- The MAC of one pair of a service and a text, under a version.
  unfoldable pub event_mac : String → String → String → String → String
  event_mac version service text secret =
      c.hexdigest (signing_key secret) (signing_message version service text)

  unfoldable pub sign_audit_event : String → Option String → String → Result String
  sign_audit_event service none secret =
      if truthy service
      then err (value_error "data must not be None")
      else err (value_error "service must be a non-empty string")
  sign_audit_event service (some text) secret =
      if truthy service
      then ok (supported_version <> (":" <> event_mac supported_version service text secret))
      else err (value_error "service must be a non-empty string")

  -- The body of the `try`; the tests on `isinstance` hold by the types.
  unfoldable pub verify_signature : String → String → String → String → Result Bool
  verify_signature service text signature secret =
      let (version, found, mac_hex) = partition b':' signature in
      if not found || not (version == supported_version)
      then ok false
      else compare_digest mac_hex (event_mac version service text secret)

  unfoldable pub verify_audit_event : String → Option String → Option String → String → Bool
  verify_audit_event service text none secret = false
  verify_audit_event service none (some signature) secret = false
  verify_audit_event service (some text) (some signature) secret =
      if not (truthy signature)
      then false
      else if not (truthy service)
      then false
      else caught (verify_signature service text signature secret)
