-- ===== src/Event/Scope.antt =====
-- The tenant scope of an event that passed the validator.
use omnibioai_security_audit.Prelude.{◌≡◌, ◌↔◌, none, some, arith, String, Option, is_some, true}
use omnibioai_security_audit.Python.{ok}
use omnibioai_security_audit.Event.Raw.{TenantScope, organization, global}
use omnibioai_security_audit.Event.{AuditEvent, validate_tenant_scope}

-- An event is attributed to an organization exactly when it names one.
pub record IsScoped (e : AuditEvent) : Type 0 where
  pub named : e.tenant_scope ≡ organization → is_some e.organization_id ≡ true
  pub scoped : is_some e.organization_id ≡ true → e.tenant_scope ≡ organization

-- The scopes that the validator gives to an event, or its refusal.
abbrev pub resolve : Option String → TenantScope → Option TenantScope
resolve none organization = none
resolve none s = some s
resolve (some o) global = none
resolve (some o) s = some organization

-- The validator accepts an event exactly when its organization and its declared scope agree: one
-- that names an organization and declares none becomes an organization's, one with neither stays
-- unknown, and nothing but the scope changes.
pub validate_tenant_scope-resolve :
    (e : AuditEvent) (e' : AuditEvent)
    → (validate_tenant_scope e ≡ ok e') ↔ (
        (s : TenantScope) × (resolve e.organization_id e.tenant_scope ≡ some s)
        × (e' ≡ record e { tenant_scope = s }))
unfolding validate_tenant_scope
validate_tenant_scope-resolve e e' =
    (λ h. (e'.tenant_scope, ground arith, ground arith), λ h. ground arith)

-- An event that the validator returns is scoped to an organization exactly when it names one.
pub validate_tenant_scope-IsScoped :
    (e e' : AuditEvent) → validate_tenant_scope e ≡ ok e' → IsScoped e'
unfolding validate_tenant_scope
validate_tenant_scope-IsScoped e e' h = ground arith
