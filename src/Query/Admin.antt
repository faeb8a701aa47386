-- ===== src/Query/Admin.antt =====
-- api/routes_audit_events.py: the route that platform administrators use.
use omnibioai_security_audit.Prelude.{ℕ, String, List, [], ◌∷◌, Option, none, if◌then◌else◌}
use omnibioai_security_audit.Python.{Exn, Result, ok, err, ◌>>=◌}
use omnibioai_security_audit.Python.Exec.{Exec, pure, lift, attempt}
use omnibioai_security_audit.Python.Time.{DateTime}
use omnibioai_security_audit.Python.Json.{Json, obj, Fields}
use omnibioai_security_audit.Library.{Library}
use omnibioai_security_audit.Storage.Rows.{AuditEventRecord}
use omnibioai_security_audit.Query.{Filters, Select, list_audit_events}
use omnibioai_security_audit.Query.Route.{total_pages}
use omnibioai_security_audit.Query.Evidence.{
  SourceAvailability, FreshnessStatus, RetentionStatus, SourceEvidence, available_query_evidence,
  unavailable_query_evidence,
}
use omnibioai_security_audit.Query.Answer.{
  UnavailableContent, unavailable_content, project_safe_metadata,
}

pub record AuditEventOut : Type 0 where
  pub event_id : String
  pub timestamp : DateTime
  pub service : String
  pub event_type : String
  pub user_id : Option String
  pub organization_id : Option String
  pub tenant_scope : String
  pub action : String
  pub resource : Option String
  pub decision : Option String
  pub reason : Option String
  pub trace_id : Option String
  pub context : Fields
  pub created_at : DateTime
  pub integrity_status : String

-- Of freshness and retention, the route passes on the status only.
pub record AuditEventListResponse : Type 0 where
  pub items : List AuditEventOut
  pub total : ℕ
  pub page : ℕ
  pub page_size : ℕ
  pub total_pages : ℕ
  pub source : String
  pub source_availability : SourceAvailability
  pub generated_at : DateTime
  pub source_checked_at : DateTime
  pub freshness : FreshnessStatus
  pub retention : RetentionStatus
  pub warnings : List String

pub data AdminAnswer : Type 0 where
  found : AuditEventListResponse → AdminAnswer
  no_source : UnavailableContent → AdminAnswer

-- The column that the server fills, and the exception of pydantic for a context that is no object.
module _ (created_at : AuditEventRecord → DateTime)
    (validation_error : AuditEventRecord → Exn) where
  unfoldable pub model_validate : AuditEventRecord → Json → Result AuditEventOut
  model_validate row (obj context) = ok (record {
    event_id = row.event_id;
    timestamp = row.timestamp;
    service = row.service;
    event_type = row.event_type;
    user_id = row.user_id;
    organization_id = row.organization_id;
    tenant_scope = row.tenant_scope;
    action = row.action;
    resource = row.resource;
    decision = row.decision;
    reason = row.reason;
    trace_id = row.trace_id;
    context = context;
    created_at = created_at row;
    integrity_status = row.integrity_status;
  })
  model_validate row _ = err (validation_error row)

  -- Each row becomes an item, whose context is then replaced.
  unfoldable pub admin_items : List AuditEventRecord → Result (List AuditEventOut)
  unfolding model_validate
  admin_items [] = ok []
  admin_items (row ∷ rows) = do
    item ← model_validate row row.context
    items ← admin_items rows
    ok (record item { context = project_safe_metadata row } ∷ items)

  unfoldable pub admin_response :
      ℕ → ℕ → ℕ → SourceEvidence → List AuditEventOut → AuditEventListResponse
  admin_response page page_size total evidence items = record {
    items = items;
    total = total;
    page = page;
    page_size = page_size;
    total_pages = total_pages total page_size;
    source = "security_audit";
    source_availability = evidence.availability;
    generated_at = evidence.generated_at;
    source_checked_at = evidence.source_checked_at;
    freshness = evidence.freshness.status;
    retention = evidence.retention.status;
    warnings = evidence.warnings;
  }

  module _ {D : Type 0} (lib : Library) (select : Select D) (now : DateTime) where
    unfoldable pub admin_listed : ℕ → ℕ → List AuditEventRecord × ℕ → Exec D AdminAnswer
    unfolding admin_items admin_response available_query_evidence
    admin_listed page page_size (rows, total) =
        attempt (lift (admin_items rows))
          (λ items.
            pure (found (admin_response page page_size total (available_query_evidence now) items)))
          (λ e. lift (err e))

    unfoldable pub admin_failed : Exn → Exec D AdminAnswer
    unfolding unavailable_query_evidence unavailable_content
    admin_failed e =
        if select.is_sqlalchemy_error e
        then pure (no_source (unavailable_content lib (unavailable_query_evidence now)))
        else lift (err e)

    unfoldable pub admin_answer : ℕ → ℕ → Filters → Exec D AdminAnswer
    unfolding admin_listed admin_failed
    admin_answer page page_size f =
        attempt (list_audit_events select page page_size none f) (admin_listed page page_size)
          admin_failed
