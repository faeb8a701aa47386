-- ===== src/Tests/Reading.antt =====
-- A reader of one organization, on a table in memory.
use omnibioai_security_audit.Prelude.{
  ◌≡◌, refl, ap, eq_iff, String, ◌==◌, Bool, true, false, ◌&&◌, List, [], ◌∷◌, length, Option, none,
  some, All, if◌then◌else◌,
}
use omnibioai_security_audit.Python.{ok, ok-inj}
use omnibioai_security_audit.Python.Time.{naive}
use omnibioai_security_audit.Python.Json.{get, Fields, field, end, str, arr, cons, nil, obj}
use omnibioai_security_audit.Storage.Rows.{AuditEventRecord}
use omnibioai_security_audit.Query.{
  Condition, equals, at_least, at_most, Filters, Select, list_safe_audit_events, page_of,
  safe_conditions, scope_conditions, from_time, to_time,
}
use omnibioai_security_audit.Query.Access.{AuditAccess, access_of, has_item, scope_of}
use omnibioai_security_audit.Query.Isolated.{IsSelective, IsOwn, column_of, safe_route-IsOwn}
use omnibioai_security_audit.Query.Route.{
  listed, safe_route, effective_org, is_within, list_events, answer, total_pages,
}
use omnibioai_security_audit.Tests.Services.{lib}

abbrev pub Same : Option String → Option String → Type 0
Same a b = a ≡ b

unfoldable pub same_text : Option String → Option String → Bool
same_text none none = true
same_text none (some b) = false
same_text (some a) none = false
same_text (some a) (some b) = a == b

same_text-eq : (a b : Option String) → same_text a b ≡ true → a ≡ b
unfolding same_text
same_text-eq none none h = refl
same_text-eq none (some b) h = absurd (cc)
same_text-eq (some a) none h = absurd (cc)
same_text-eq (some a) (some b) h = ap some ((eq_iff a b).0 h)

-- The times of the table are not looked at.
unfoldable pub meets : AuditEventRecord → List Condition → Bool
meets row [] = true
meets row (equals k v ∷ cs) = same_text (column_of k row) v && meets row cs
meets row (at_least t ∷ cs) = meets row cs
meets row (at_most t ∷ cs) = meets row cs

unfoldable pub keep : List Condition → List AuditEventRecord → List AuditEventRecord
keep cs [] = []
keep cs (row ∷ rows) = let rest = keep cs rows in if meets row cs then row ∷ rest else rest

abbrev Meets : AuditEventRecord → List Condition → Type 0
Meets row cs = All (λ c. elim c [ equals k v ↦ Same (column_of k row) v | _ ↦ Unit ]) cs

both : (a b : Bool) → (a && b) ≡ true → (a ≡ true) × (b ≡ true)
both true b h = (refl, h)
both false b h = absurd (cc)

meets-Meets : (row : AuditEventRecord) (cs : List Condition) → meets row cs ≡ true → Meets row cs
unfolding meets
meets-Meets row [] h = tt
meets-Meets row (equals k v ∷ cs) h =
    let (a, b) = both (same_text (column_of k row) v) (meets row cs) h in
    (same_text-eq _ _ a, meets-Meets row cs b)
meets-Meets row (at_least t ∷ cs) h = (tt, meets-Meets row cs h)
meets-Meets row (at_most t ∷ cs) h = (tt, meets-Meets row cs h)

if-Meets :
    (cs : List Condition) (row : AuditEventRecord) (rest : List AuditEventRecord) (b : Bool)
    → (b ≡ true → Meets row cs)
    → All (λ r. Meets r cs) rest
    → All (λ r. Meets r cs) (if b then row ∷ rest else rest)
if-Meets cs row rest true h all = (h refl, all)
if-Meets cs row rest false h all = all

keep-Meets :
    (cs : List Condition) (rows : List AuditEventRecord) → All (λ r. Meets r cs) (keep cs rows)
unfolding keep
keep-Meets cs [] = tt
keep-Meets cs (row ∷ rows) =
    if-Meets cs row (keep cs rows) (meets row cs) (meets-Meets row cs) (keep-Meets cs rows)

-- One page holds everything.
abbrev pub table : Select (List AuditEventRecord)
table = record {
  is_sqlalchemy_error = λ e. true;
  count = λ cs d. (ok (length (keep cs d)), d);
  fetch = λ cs offset limit d. (ok (keep cs d), d);
}

pub table-IsSelective : IsSelective table Same
table-IsSelective = record { meets = λ cs offset limit d rows h. rw (← ok-inj h) (keep-Meets cs d) }

abbrev pub owned_by : String → AuditEventRecord
owned_by org = record {
  event_id = org;
  timestamp = naive 3;
  service = "lims";
  event_type = "tool_execution";
  user_id = none;
  organization_id = some org;
  tenant_scope = "organization";
  action = "run";
  resource = none;
  decision = none;
  reason = none;
  trace_id = none;
  context = obj (field "diagnosis" (str "d") (field "trace_id" (str "t-1") end));
  integrity_status = "valid";
  record_integrity_hash = none;
  integrity_key_id = none;
}

abbrev pub rows : List AuditEventRecord
rows = owned_by "org-a" ∷ owned_by "org-b" ∷ []

abbrev payload : Fields
payload = field "org_role" (arr (cons (str "org_admin") nil)) (field "org_id" (str "org-a") end)

abbrev reader : AuditAccess
reader = record { platform_wide = false; organization_id = some "org-a" }

abbrev pub no_filters : Filters
no_filters = record {
  user_id = none;
  service = none;
  event_type = none;
  decision = none;
  integrity_status = none;
  from_timestamp = none;
  to_timestamp = none;
}

admitted : access_of lib (λ n. false) payload ≡ ok reader
unfolding access_of get has_item scope_of
admitted = refl

answered :
    (safe_route table reader 1 20 none no_filters rows).0 ≡ ok (listed (owned_by "org-a" ∷ []) 1 1)
unfolding safe_route effective_org is_within list_events list_safe_audit_events page_of answer keep
    total_pages meets safe_conditions scope_conditions same_text from_time to_time
answered = refl

safe_route-IsOwn_example :
    (own : String) × (reader.organization_id ≡ some own)
    × All (IsOwn Same own) (owned_by "org-a" ∷ [])
safe_route-IsOwn_example =
    safe_route-IsOwn table Same table-IsSelective lib (λ n. false) payload reader 1 20 none
      no_filters rows (owned_by "org-a" ∷ []) 1 1 admitted refl answered
