-- ===== src/Query/Route.antt =====
-- api/routes_audit_safe.py: the route that an organization's readers use.
use omnibioai_security_audit.Prelude.{
  ℕ, ◌+◌, ◌-◌, ◌/◌, String, ◌==◌, ◌==ℕ◌, ltb, Bool, true, false, List, Option, none, some,
  if◌then◌else◌,
}
use omnibioai_security_audit.Python.{Exn, Result, ok, err}
use omnibioai_security_audit.Python.Exec.{Exec, pure, lift, attempt, ◌>>=◌}
use omnibioai_security_audit.Python.Time.{DateTime, Offset, east, west}
use omnibioai_security_audit.Storage.Rows.{AuditEventRecord}
use omnibioai_security_audit.Query.{Filters, Select, list_safe_audit_events}
use omnibioai_security_audit.Query.Access.{AuditAccess, http_error}

abbrev pub mixed : Exn
mixed = record {
  kind = "TypeError";
  message = "can't compare offset-naive and offset-aware datetimes";
}

-- What is added to a clock value on either side to compare two instants.
abbrev ahead : Offset → ℕ
ahead (east m) = m
ahead (west m) = 0

abbrev behind : Offset → ℕ
behind (east m) = 0
behind (west m) = m

-- `a > b`
unfoldable pub is_after : DateTime → DateTime → Result Bool
is_after a b = elim a.tzinfo [
  | none ↦ elim b.tzinfo [ none ↦ ok (ltb b.wall a.wall) | some o ↦ err mixed ]
  | some o ↦ elim b.tzinfo [
    | none ↦ err mixed
    | some q ↦ ok (ltb (b.wall + behind q + ahead o) (a.wall + behind o + ahead q))
  ]
]

unfoldable pub is_reversed : Option DateTime → Option DateTime → Result Bool
unfolding is_after
is_reversed none to = ok false
is_reversed (some from) none = ok false
is_reversed (some from) (some to) = is_after from to

-- `organization_id in (None, access.organization_id)`
unfoldable pub is_within : Option String → Option String → Bool
is_within none own = true
is_within (some org) none = false
is_within (some org) (some own) = org == own

-- The organization that is queried, on every branch before the query.
unfoldable pub effective_org : AuditAccess → Option String → Result Bool → Result (Option String)
effective_org access org (err e) = err e
effective_org access org (ok true) =
    err (http_error "422" "from_timestamp must not be after to_timestamp")
effective_org access org (ok false) =
    if access.platform_wide
    then ok org
    else if is_within org access.organization_id
    then ok access.organization_id
    else err (http_error "403" "organization_id is outside verified scope")

-- The rows of a page with the counts, or the answer 503.
pub data Response : Type 0 where
  listed : List AuditEventRecord → ℕ → ℕ → Response
  unavailable : Response

unfoldable pub total_pages : ℕ → ℕ → ℕ
total_pages total page_size = if total ==ℕ 0 then 0 else (total + page_size - 1) / page_size

module _ {D : Type 0} (select : Select D) where
  unfoldable pub answer : ℕ → List AuditEventRecord × ℕ → Exec D Response
  answer page_size (rows, total) = pure (listed rows total (total_pages total page_size))

  unfoldable pub query_failed : Exn → Exec D Response
  query_failed e = if select.is_sqlalchemy_error e then pure unavailable else lift (err e)

  unfoldable pub list_events : AuditAccess → ℕ → ℕ → Filters → Option String → Exec D Response
  list_events access page page_size f org =
      attempt (list_safe_audit_events select page page_size org access.platform_wide f)
        (answer page_size) query_failed

  unfoldable pub safe_route : AuditAccess → ℕ → ℕ → Option String → Filters → Exec D Response
  unfolding is_reversed
  safe_route access page page_size org f =
      lift (effective_org access org (is_reversed f.from_timestamp f.to_timestamp))
      >>= list_events access page page_size f
