-- ===== src/Tests/Policy.antt =====
-- Keys, timestamps, scopes and alerts: the theorems at concrete values.
use omnibioai_security_audit.Prelude.{
  ◌+◌, ◌≡◌, ◌≢◌, ◌≤◌, ◌↔◌, ◌⊎◌, refl, arith, String, true, false, [], ◌∷◌, none, some, lookup, ℕ,
  ◌<◌, ◌<>◌, ◌==◌, ends_with, if◌then◌else◌,
}
use Prim.Native.String.{len}
use omnibioai_security_audit.Python.{ok}
use omnibioai_security_audit.Python.Time.{naive, east, west}
use omnibioai_security_audit.Crypto.{compare_digest, is_ascii}
use omnibioai_security_audit.Alerts.{
  is_recovery, alert_key, SecurityAlert, no_alerts, emit_security_alert,
}
use omnibioai_security_audit.Alerts.Window.{IsSentAs, emit_effect, repeat_held_back}
use omnibioai_security_audit.Config.{check_independent, require_record_integrity_key, is_key_id}
use omnibioai_security_audit.Config.Policy.{require_record_integrity_key-ok}
use omnibioai_security_audit.Event.{AuditEvent, make_event, validate_tenant_scope}
use omnibioai_security_audit.Event.Raw.{TenantScope, organization, unknown}
use omnibioai_security_audit.Event.Scope.{
  resolve, IsScoped, validate_tenant_scope-resolve, validate_tenant_scope-IsScoped,
}
use omnibioai_security_audit.RecordIntegrity.Message.{canonical_time}
use omnibioai_security_audit.RecordIntegrity.Rounding.{
  round_half_up, canonical_time-rounded, canonical_time-offset,
}
use omnibioai_security_audit.Tests.Services.{cfg, launch}

abbrev launched : AuditEvent
launched = make_event "e0" (naive 0) launch

configured : require_record_integrity_key cfg ≡ ok ("0123456789abcdef0123456789abcdef", "k1")
unfolding require_record_integrity_key compare_digest is_key_id check_independent is_ascii
configured = refl

require_record_integrity_key-ok_example :
    (cfg.record_integrity_key ≡ some "0123456789abcdef0123456789abcdef")
    × (cfg.record_integrity_key_id ≡ some "k1")
    × (32 ≤ len "0123456789abcdef0123456789abcdef")
    × (is_key_id "k1" ≡ true)
    × ((cfg.event_signing_secret ≡ "")
        ⊎ ("0123456789abcdef0123456789abcdef" ≢ cfg.event_signing_secret))
require_record_integrity_key-ok_example =
    require_record_integrity_key-ok cfg "0123456789abcdef0123456789abcdef" "k1" configured

canonical_time-rounded_example :
    canonical_time false (naive (round_half_up 1500000)) ≡ canonical_time false (naive 1500000)
canonical_time-rounded_example = canonical_time-rounded 1500000 (omega arith)

canonical_time-offset_example :
    (canonical_time false (record { wall = 5000000 + 3600000000; tzinfo = some (east 3600000000) })
      ≡ canonical_time false (naive 5000000))
    × (canonical_time false (record { wall = 5000000; tzinfo = some (west 3600000000) })
        ≡ canonical_time false (naive (5000000 + 3600000000)))
canonical_time-offset_example = canonical_time-offset 5000000 3600000000 (omega arith)

-- An event that names an organization and declares no scope.
abbrev unscoped : AuditEvent
unscoped = record launched { tenant_scope = unknown }

validate_tenant_scope-resolve_example : (validate_tenant_scope unscoped ≡ ok launched) ↔ (
    (s : TenantScope) × (resolve unscoped.organization_id unscoped.tenant_scope ≡ some s)
    × (launched ≡ record unscoped { tenant_scope = s }))
validate_tenant_scope-resolve_example = validate_tenant_scope-resolve unscoped launched

validate_tenant_scope-IsScoped_example : IsScoped launched
unfolding make_event
validate_tenant_scope-IsScoped_example =
    validate_tenant_scope-IsScoped unscoped launched
      (validate_tenant_scope-resolve_example.1 (organization, refl, refl))

abbrev stalled : SecurityAlert
stalled = record {
  condition = "stalled";
  severity = "severe";
  component = "worker";
  message = "";
  metadata = [];
  timestamp = "";
}

emit_effect_example :
    let r = emit_security_alert 300 5 stalled no_alerts in
    ((last : ℕ) × (false ≡ false)
      × (lookup "worker:stalled" [] ≡ some last)
      × (5 < last + 300)
      × (r ≡ (none, no_alerts)))
    ⊎ (((false ≡ true) ⊎ ((last : ℕ) → lookup "worker:stalled" [] ≡ some last → last + 300 ≤ 5))
        × (shown : String) × IsSentAs "severe" shown
        × (r.0 ≡ some (record stalled { severity = shown }))
        × (r.1.sent ≡ record stalled { severity = shown } ∷ [])
        × ((other : String)
            → lookup other r.1.last_sent
              ≡ (if "worker:stalled" == other then some 5 else lookup other [])))
unfolding ends_with ◌<>◌
emit_effect_example = emit_effect 300 5 stalled no_alerts

repeat_held_back_example :
    (emit_security_alert 300 100 stalled (emit_security_alert 300 5 stalled no_alerts).1).0 ≡ none
unfolding is_recovery alert_key emit_security_alert lookup
repeat_held_back_example =
    repeat_held_back 300 5 100 stalled stalled no_alerts refl refl refl (omega arith) refl
