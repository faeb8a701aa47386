-- ===== src/Event.antt =====
-- audit/models.py: the event that producers send.
pub mod Raw
pub mod Scope
use omnibioai_security_audit.Prelude.{
  String, Bool, true, false, not, ◌&&◌, Option, none, some, is_some, if◌then◌else◌,
}
use omnibioai_security_audit.Python.{Exn, Result, ok, err}
use omnibioai_security_audit.Python.Time.{DateTime}
use omnibioai_security_audit.Python.Json.{Json}
use Raw.{RawEvent, TenantScope, organization, global, unknown}

pub record AuditEvent : Type 0 where
  pub event_id : String
  pub timestamp : DateTime
  pub service : String
  pub event_type : String
  pub user_id : Option String
  pub organization_id : Option String
  pub tenant_scope : TenantScope
  pub action : String
  pub resource : Option String
  pub decision : Option String
  pub reason : Option String
  pub trace_id : Option String
  pub context : Json

abbrev pub is_organization : TenantScope → Bool
is_organization organization = true
is_organization _ = false

abbrev pub is_unknown : TenantScope → Bool
is_unknown unknown = true
is_unknown _ = false

abbrev pub validation_error : String → Exn
validation_error m = record { kind = "ValidationError"; message = m }

-- The two checks of the validator, on the scope that its first step leaves.
unfoldable pub check_scope : AuditEvent → Result AuditEvent
check_scope e =
    if is_organization e.tenant_scope && not (is_some e.organization_id)
    then err (validation_error "organization tenant scope requires organization_id")
    else if not (is_organization e.tenant_scope) && is_some e.organization_id
    then err (validation_error "organization_id requires organization tenant scope")
    else ok e

unfoldable pub validate_tenant_scope : AuditEvent → Result AuditEvent
unfolding check_scope
validate_tenant_scope e =
    if is_some e.organization_id && is_unknown e.tenant_scope
    then check_scope (record e { tenant_scope = organization })
    else check_scope e

-- The default factories supply what the payload leaves out.
abbrev pub or_default {ℓ} : {A : Type ℓ} → Option A → A → A
or_default none d = d
or_default (some a) d = a

unfoldable pub make_event : String → DateTime → RawEvent → AuditEvent
make_event uuid now r = record {
  event_id = or_default r.event_id uuid;
  timestamp = or_default r.timestamp now;
  service = r.service;
  event_type = r.event_type;
  user_id = r.user_id;
  organization_id = r.organization_id;
  tenant_scope = r.tenant_scope;
  action = r.action;
  resource = r.resource;
  decision = r.decision;
  reason = r.reason;
  trace_id = r.trace_id;
  context = r.context;
}
