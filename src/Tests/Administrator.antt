-- ===== src/Tests/Administrator.antt =====
-- A platform administrator's token, from its header to the items of all organizations.
use omnibioai_security_audit.Prelude.{String, [], ◌∷◌}
use omnibioai_security_audit.Python.{Exn, ok}
use omnibioai_security_audit.Python.Json.{Fields, field, end, str, arr, cons, nil}
use omnibioai_security_audit.Python.Time.{DateTime, naive}
use omnibioai_security_audit.Storage.Rows.{AuditEventRecord}
use omnibioai_security_audit.Query.Admin.{AuditEventOut, AuditEventListResponse, admin_response}
use omnibioai_security_audit.Query.Answer.{project_safe_metadata}
use omnibioai_security_audit.Query.Evidence.{available_query_evidence}
use omnibioai_security_audit.Token.{Jwt}
use omnibioai_security_audit.Tests.Bearer.{jwt}
use omnibioai_security_audit.Tests.Reading.{owned_by}

abbrev admin_claims : Fields
admin_claims = field "sub" (str "u2") (field "roles" (arr (cons (str "platform_admin") nil)) end)

abbrev admin_jwt : Jwt String
admin_jwt = record jwt { decode = λ token key algorithm. ok admin_claims }

abbrev created_at : AuditEventRecord → DateTime
created_at row = row.timestamp

abbrev invalid : AuditEventRecord → Exn
invalid row = record { kind = "ValidationError"; message = row.event_id }

abbrev item_of : AuditEventRecord → AuditEventOut
item_of row = record {
  event_id = row.event_id;
  timestamp = row.timestamp;
  service = row.service;
  event_type = row.event_type;
  user_id = row.user_id;
  organization_id = row.organization_id;
  tenant_scope = row.tenant_scope;
  action = row.action;
  resource = row.resource;
  decision = row.decision;
  reason = row.reason;
  trace_id = row.trace_id;
  context = project_safe_metadata row;
  created_at = row.timestamp;
  integrity_status = row.integrity_status;
}

abbrev shown : AuditEventListResponse
shown =
    admin_response created_at invalid 1 20 2 (available_query_evidence (naive 5))
      (item_of (owned_by "org-a") ∷ item_of (owned_by "org-b") ∷ [])
