-- ===== src/Tests/Bearer.antt =====
-- One bearer token, from its header to the rows of its organization.
use omnibioai_security_audit.Prelude.{
  ◌≡◌, ◌⊎◌, ◌↔◌, refl, String, partition, true, false, [], ◌∷◌, none, some, All,
}
use omnibioai_security_audit.Python.{Exn, ok, err}
use omnibioai_security_audit.Python.Json.{Fields, field, end, str, arr, cons, nil, get}
use omnibioai_security_audit.Query.Access.{AuditAccess, access_of, has_item, scope_of}
use omnibioai_security_audit.Python.Time.{naive}
use omnibioai_security_audit.Query.Evidence.{
  FreshnessStatus, RetentionStatus, available, evidence, available_query_evidence,
}
use omnibioai_security_audit.Query.Answer.{
  SafeAuditEventListResponse, success, safe_items, project_safe_metadata, context_of, pick,
  safe_answer, answer_of, list_response,
}
use omnibioai_security_audit.Query.Projected.{IsShown}
use omnibioai_security_audit.Query.Route.{
  safe_route, effective_org, is_within, list_events, answer, total_pages,
}
use omnibioai_security_audit.Query.{
  list_safe_audit_events, page_of, safe_conditions, scope_conditions, from_time, to_time,
}
use omnibioai_security_audit.Token.{Jwt, is_truthy, token_invalid, verify_token}
use omnibioai_security_audit.Token.Verified.{IsVerified}
use omnibioai_security_audit.Token.Accepted.{verify_token_iff, verify_token-error}
use omnibioai_security_audit.Token.Header.{
  starts_with_lower, token_of, require_audit_read_access, bearer_payload,
}
use omnibioai_security_audit.Token.Isolated.{authorized_route, authorized_route-IsShown}
use omnibioai_security_audit.Tests.Reading.{
  Same, table, table-IsSelective, owned_by, rows, no_filters, keep, meets, same_text,
}
use omnibioai_security_audit.Tests.Services.{lib}

abbrev claims : Fields
claims =
    field "sub" (str "u1")
      (field "org_role" (arr (cons (str "org_admin") nil)) (field "org_id" (str "org-a") end))

abbrev expired : Exn
expired = record { kind = "ExpiredSignatureError"; message = "Signature has expired" }

-- Every token is verified with the same claims.
abbrev pub jwt : Jwt String
jwt = record {
  get_unverified_header = λ token. ok (field "alg" (str "HS256") end);
  decode = λ token key algorithm. ok claims;
  signing_key = λ kid. err expired;
  secret = "secret";
  issuer = "omnibioai-auth";
  audience = "omnibioai-platform";
  is_invalid_token_error = λ e. true;
  is_expired = λ e. true;
  is_client_error = λ e. false;
  repr = λ v. "";
  exists = λ key. ok false;
  is_zero = λ n. false;
}

-- Every token has expired.
abbrev late : Jwt String
late = record jwt { decode = λ token key algorithm. err expired }

verify_token_iff_example :
    (verify_token lib jwt (some "t") ≡ ok claims) ↔ IsVerified lib jwt "t" claims
verify_token_iff_example = verify_token_iff lib jwt "t" claims refl

refused : verify_token lib late (some "t") ≡ err (token_invalid "expired")
unfolding verify_token get
refused = refl

verify_token-error_example : (token_invalid "expired").kind ≡ "TokenInvalid"
verify_token-error_example =
    verify_token-error lib late (some "t") (token_invalid "expired")
      (record { header = λ token. tt; decodes = λ token key algorithm. refl }) refused

abbrev shown : SafeAuditEventListResponse
shown = record {
  source = "security_audit";
  items = safe_items (owned_by "org-a" ∷ []);
  total = 1;
  page = 1;
  page_size = 20;
  total_pages = 1;
  source_availability = available;
  generated_at = naive 5;
  source_checked_at = naive 5;
  freshness = record {
    status = FreshnessStatus.unknown;
    last_persisted_event_at = none;
    ingestion_lag = none;
  };
  retention = record {
    status = RetentionStatus.unknown;
    retention_days = none;
    oldest_available_event_at = none;
  };
  warnings = "freshness_unknown" ∷ "retention_unknown" ∷ "ingestion_lag_unknown" ∷ [];
}

projected : project_safe_metadata (owned_by "org-a") ≡ field "trace_id" (str "t-1") end
unfolding project_safe_metadata pick get context_of
projected = refl

served :
    (authorized_route lib jwt table (naive 5) (some "Bearer t") 1 20 none no_filters rows).0
    ≡ ok (success shown)
unfolding authorized_route safe_answer answer_of list_response available_query_evidence evidence
    safe_route effective_org is_within list_events list_safe_audit_events page_of answer keep
    total_pages meets safe_conditions scope_conditions same_text from_time to_time
    require_audit_read_access bearer_payload verify_token partition get is_truthy access_of has_item
    scope_of
served = refl

authorized_route-IsShown_example :
    (header : String) × (some "Bearer t" ≡ some header)
    × (starts_with_lower header "bearer " ≡ true)
    × (payload : Fields) × IsVerified lib jwt (token_of header) payload
    × (access : AuditAccess) × (access_of lib jwt.is_zero payload ≡ ok access)
    × ((access.platform_wide ≡ true)
        ⊎ ((own : String) × (access.organization_id ≡ some own)
            × All (IsShown Same own) (safe_items (owned_by "org-a" ∷ []))))
authorized_route-IsShown_example =
    authorized_route-IsShown lib jwt table Same table-IsSelective (naive 5) (some "Bearer t") 1 20
      none no_filters rows shown served
