-- ===== src/Query/Answer.antt =====
-- api/routes_audit_safe.py and schemas/audit.py: the body that the safe route answers with.
use omnibioai_security_audit.Prelude.{
  ℕ, String, ◌==◌, Bool, false, ◌||◌, List, [], ◌∷◌, Option, none, some, if◌then◌else◌,
}
use omnibioai_security_audit.Python.Exec.{Exec, pure, ◌>>=◌}
use omnibioai_security_audit.Python.Time.{DateTime}
use omnibioai_security_audit.Python.Json.{Json, obj, Fields, end, field, get}
use omnibioai_security_audit.Library.{Library}
use omnibioai_security_audit.Storage.Rows.{AuditEventRecord}
use omnibioai_security_audit.Query.{Filters, Select}
use omnibioai_security_audit.Query.Access.{AuditAccess}
use omnibioai_security_audit.Query.Route.{Response, listed, unavailable, safe_route}
use omnibioai_security_audit.Query.Evidence.{
  SourceAvailability, FreshnessEvidence, RetentionEvidence, SourceEvidence,
  available_query_evidence, unavailable_query_evidence, availability_value,
}

-- `x in {...}`
unfoldable pub is_one_of : String → List String → Bool
is_one_of x [] = false
is_one_of x (k ∷ ks) = x == k || is_one_of x ks

abbrev pub safe_metadata_keys : List String
safe_metadata_keys =
    "trace_id" ∷ "request_id" ∷ "workflow_id" ∷ "run_id" ∷ "resource_type" ∷ "resource_id"
    ∷ "backend" ∷ []

-- `row.context if isinstance(row.context, dict) else {}`
unfoldable pub context_of : Json → Fields
context_of (obj fields) = fields
context_of _ = end

-- `{key: context[key] for key in keys if key in context}`, in the order of the keys.
unfoldable pub pick : List String → Fields → Fields
pick [] context = end
pick (key ∷ keys) context =
    let rest = pick keys context in
    elim (get key context) [ none ↦ rest | some value ↦ field key value rest ]

unfoldable pub project_safe_metadata : AuditEventRecord → Fields
unfolding context_of pick
project_safe_metadata row = pick safe_metadata_keys (context_of row.context)

pub record SafeAuditEventOut : Type 0 where
  pub event_id : String
  pub timestamp : DateTime
  pub organization_id : Option String
  pub tenant_scope : String
  pub actor : Option String
  pub event_type : String
  pub action : String
  pub decision : Option String
  pub integrity : String
  pub metadata : Fields

abbrev pub integrity_values : List String
integrity_values = "valid" ∷ "invalid" ∷ "unsigned" ∷ "unknown" ∷ []

unfoldable pub safe_integrity : String → String
unfolding is_one_of
safe_integrity status = if is_one_of status integrity_values then status else "unknown"

unfoldable pub safe_item : AuditEventRecord → SafeAuditEventOut
unfolding safe_integrity project_safe_metadata
safe_item row = record {
  event_id = row.event_id;
  timestamp = row.timestamp;
  organization_id = row.organization_id;
  tenant_scope = if row.tenant_scope == "" then "unknown" else row.tenant_scope;
  actor = row.user_id;
  event_type = row.event_type;
  action = row.action;
  decision = row.decision;
  integrity = safe_integrity row.integrity_status;
  metadata = project_safe_metadata row;
}

pub record SafeAuditEventListResponse : Type 0 where
  pub source : String
  pub items : List SafeAuditEventOut
  pub total : ℕ
  pub page : ℕ
  pub page_size : ℕ
  pub total_pages : ℕ
  pub source_availability : SourceAvailability
  pub generated_at : DateTime
  pub source_checked_at : DateTime
  pub freshness : FreshnessEvidence
  pub retention : RetentionEvidence
  pub warnings : List String

-- The content of the answer 503.
pub record UnavailableContent : Type 0 where
  pub error : String
  pub source : String
  pub source_availability : String
  pub generated_at : String
  pub source_checked_at : String
  pub warnings : List String

pub data Answer : Type 0 where
  success : SafeAuditEventListResponse → Answer
  service_unavailable : UnavailableContent → Answer

unfoldable pub safe_items : List AuditEventRecord → List SafeAuditEventOut
safe_items [] = []
safe_items (row ∷ rows) = safe_item row ∷ safe_items rows

unfoldable pub list_response :
    ℕ → ℕ → List AuditEventRecord → ℕ → ℕ → SourceEvidence → SafeAuditEventListResponse
unfolding safe_items
list_response page page_size rows total pages evidence = record {
  source = "security_audit";
  items = safe_items rows;
  total = total;
  page = page;
  page_size = page_size;
  total_pages = pages;
  source_availability = evidence.availability;
  generated_at = evidence.generated_at;
  source_checked_at = evidence.source_checked_at;
  freshness = evidence.freshness;
  retention = evidence.retention;
  warnings = evidence.warnings;
}

module _ (lib : Library) where
  unfoldable pub unavailable_content : SourceEvidence → UnavailableContent
  unfolding availability_value
  unavailable_content evidence = record {
    error = "AUDIT_SOURCE_UNAVAILABLE";
    source = "security_audit";
    source_availability = availability_value evidence.availability;
    generated_at = lib.isoformat evidence.generated_at;
    source_checked_at = lib.isoformat evidence.source_checked_at;
    warnings = evidence.warnings;
  }

  unfoldable pub answer_of : ℕ → ℕ → DateTime → Response → Answer
  unfolding list_response unavailable_content available_query_evidence unavailable_query_evidence
  answer_of page page_size now (listed rows total pages) =
      success (list_response page page_size rows total pages (available_query_evidence now))
  answer_of page page_size now unavailable =
      service_unavailable (unavailable_content (unavailable_query_evidence now))

  -- The whole handler; `now` is the clock's reading after the query.
  unfoldable pub safe_answer :
      {D : Type 0}
      → Select D
      → DateTime
      → AuditAccess
      → ℕ
      → ℕ
      → Option String
      → Filters
      → Exec D Answer
  unfolding answer_of
  safe_answer select now access page page_size org f =
      safe_route select access page page_size org f >>= λ response.
      pure (answer_of page page_size now response)
