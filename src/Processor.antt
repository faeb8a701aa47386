-- ===== src/Processor.antt =====
-- consumers/processor.py: parsing and classifying a stream entry.
use omnibioai_security_audit.Prelude.{
  String, ◌≡◌, ◌⊎◌, inl, inr, Bool-cases, true, not, Option, none, some, truthy, if◌then◌else◌,
}
use omnibioai_security_audit.Python.{Exn, Result, ok, err, ◌>>=◌}
use omnibioai_security_audit.Python.Time.{DateTime}
use omnibioai_security_audit.Python.Json.{Json, obj}
use omnibioai_security_audit.Crypto.{Crypto, IsHex}
use omnibioai_security_audit.Library.{Library}
use omnibioai_security_audit.Event.{AuditEvent, make_event, validate_tenant_scope}
use omnibioai_security_audit.Signing.{sign_audit_event, verify_audit_event}
use omnibioai_security_audit.Signing.Sound.{verify_audit_event_iff}

abbrev pub type_error : String → Exn
type_error m = record { kind = "TypeError"; message = m }

-- `AuditEvent(**payload)` of a decoded value, with what the default factories would draw.
unfoldable pub event_of : Library → String → DateTime → Json → Result AuditEvent
event_of lib uuid now (obj fields) = do
  raw ← lib.coerce fields
  validate_tenant_scope (make_event uuid now raw)
event_of lib uuid now _ = err (type_error "argument after ** must be a mapping")

-- `raw` is `fields.get("data")`, and None is no JSON text.
unfoldable pub parse_audit_event : Library → String → DateTime → Option String → Result AuditEvent
unfolding event_of
parse_audit_event lib uuid now none =
    err (type_error "the JSON object must be str, bytes or bytearray")
parse_audit_event lib uuid now (some raw) = do
  payload ← lib.loads raw
  event_of lib uuid now payload

unfoldable pub classify_event_integrity :
    Crypto → String → Option String → Option String → String → String
classify_event_integrity c service none text secret = "unsigned"
classify_event_integrity c service (some signature) text secret =
    if not (truthy signature)
    then "unsigned"
    else if verify_audit_event c service text (some signature) secret
    then "valid"
    else "invalid"

-- If the digest is hexadecimal, an entry with a text and a signature that is not empty is
-- classified as valid when the signer, given the event's service and that text, makes that
-- signature, and as invalid when it does not.
pub classify_event_integrity_iff :
    (c : Crypto)
    → IsHex c
    → (service text signature secret : String) → truthy signature ≡ true
    → let status = classify_event_integrity c service (some signature) (some text) secret in
      let made = sign_audit_event c service (some text) secret ≡ ok signature in
      ((status ≡ "valid") × made) ⊎ ((status ≡ "invalid") × (¬ made))
unfolding classify_event_integrity
classify_event_integrity_iff c hex service text signature secret given =
    elim (Bool-cases (verify_audit_event c service (some text) (some signature) secret)) [
      | inl e ↦
          inl (rw (given, e), (verify_audit_event_iff c hex service text signature secret).0 e)
      | inr e ↦ inr (
        rw (given, e),
        λ made. let e' = (verify_audit_event_iff c hex service text signature secret).1 made in cc,
      )
    ]
