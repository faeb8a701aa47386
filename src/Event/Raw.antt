-- ===== src/Event/Raw.antt =====
-- audit/models.py: the declared fields of an event before its validator runs. `event_id` and
-- `timestamp` are absent where the payload leaves them to their default factories.
use omnibioai_security_audit.Prelude.{String, Option}
use omnibioai_security_audit.Python.Time.{DateTime}
use omnibioai_security_audit.Python.Json.{Json}

pub data TenantScope : Type 0 where
  organization global unknown : TenantScope

-- The literal that the field holds.
abbrev pub scope_name : TenantScope → String
scope_name organization = "organization"
scope_name global = "global"
scope_name unknown = "unknown"

pub record RawEvent : Type 0 where
  pub event_id : Option String
  pub timestamp : Option DateTime
  pub service : String
  pub event_type : String
  pub user_id : Option String
  pub organization_id : Option String
  pub tenant_scope : TenantScope
  pub action : String
  pub resource : Option String
  pub decision : Option String
  pub reason : Option String
  pub trace_id : Option String
  pub context : Json
