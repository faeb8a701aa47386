-- ===== src/Query/Isolated.antt =====
-- No reader of one organization is given an event of another.
use omnibioai_security_audit.Prelude.{
  ℕ, ◌≡◌, inl, inr, ◌∙◌, ap, arith, String, Bool, true, false, List, [], ◌∷◌, Option, some, All,
}
use omnibioai_security_audit.Python.{Result, ok, err, ok-inj}
use omnibioai_security_audit.Python.Json.{Fields}
use omnibioai_security_audit.Python.Exec.{lift}
use omnibioai_security_audit.Python.Exec.Keeps.{attempt-eq-ok, bind-eq-ok, if-branch}
use omnibioai_security_audit.Library.{Library}
use omnibioai_security_audit.Storage.Rows.{AuditEventRecord}
use omnibioai_security_audit.Query.{
  Column, Condition, equals, user_id, organization_id, tenant_scope, service, event_type, decision,
  integrity_status, Filters, Select, safe_conditions, scope_conditions, page_of,
  list_safe_audit_events,
}
use omnibioai_security_audit.Query.Access.{AuditAccess, access_of, access_of-organization}
use omnibioai_security_audit.Query.Route.{
  listed, effective_org, is_reversed, answer, query_failed, list_events, safe_route,
}

-- The value of a row in a column.
abbrev pub column_of : Column → AuditEventRecord → Option String
column_of user_id row = row.user_id
column_of organization_id row = row.organization_id
column_of tenant_scope row = some row.tenant_scope
column_of service row = some row.service
column_of event_type row = some row.event_type
column_of decision row = row.decision
column_of integrity_status row = some row.integrity_status

-- A row that is fetched meets every equality of its query, in the collation `Same` of the columns.
pub record IsSelective {D : Type 0} (select : Select D)
    (Same : Option String → Option String → Type 0) : Type 0 where
  pub meets :
      (cs : List Condition) (offset limit : ℕ) (d : D) (rows : List AuditEventRecord)
      → (select.fetch cs offset limit d).0 ≡ ok rows
      → All (λ row. All (λ c. elim c [ equals k v ↦ Same (column_of k row) v | _ ↦ Unit ]) cs) rows

-- The row belongs to the organization, and is scoped to an organization.
abbrev pub IsOwn : (Option String → Option String → Type 0) → String → AuditEventRecord → Type 0
IsOwn Same org row =
    Same row.organization_id (some org) × Same (some row.tenant_scope) (some "organization")

module _ {D : Type 0} (select : Select D) (Same : Option String → Option String → Type 0)
    (selective : IsSelective select Same) where
  -- The two conditions of the scope come first.
  rows-IsOwn :
      (org : String) (cs : List Condition) (rows : List AuditEventRecord)
      → All
          (λ row.
            All
              (λ c. elim c [ equals k v ↦ Same (column_of k row) v | _ ↦ Unit ])
              (equals organization_id (some org) ∷ equals tenant_scope (some "organization") ∷ cs))
          rows
      → All (IsOwn Same org) rows
  rows-IsOwn org cs [] all = tt
  rows-IsOwn org cs (row ∷ rows) all = ((all.0.0, all.0.1.0), rows-IsOwn org cs rows all.1)

  list_safe_audit_events-IsOwn :
      (page page_size : ℕ) (org : String) (f : Filters) (d : D) (rows : List AuditEventRecord)
      (total : ℕ)
      → (list_safe_audit_events select page page_size (some org) false f d).0 ≡ ok (rows, total)
      → All (IsOwn Same org) rows
  unfolding list_safe_audit_events page_of safe_conditions scope_conditions
  list_safe_audit_events-IsOwn page page_size org f d rows total h =
      let (n, counted, rest) = bind-eq-ok (select.count _) _ d h in
      let (found, fetched, same) = bind-eq-ok (select.fetch _ _ _) _ _ rest in
      rw (← ap (λ x. x.0) (ok-inj same))
        (rows-IsOwn org _ found (selective.meets _ _ _ _ found fetched))

  effective_org-own :
      (access : AuditAccess) (org : Option String) (r : Result Bool) (effective : Option String)
      → access.platform_wide ≡ false
      → effective_org access org r ≡ ok effective
      → effective ≡ access.organization_id
  unfolding effective_org
  effective_org-own access org (err e) effective own h = absurd (cc)
  effective_org-own access org (ok true) effective own h = absurd (cc)
  effective_org-own access org (ok false) effective own h = ground arith

  list_events-IsOwn :
      (access : AuditAccess) (page page_size : ℕ) (f : Filters) (org : String) (d : D)
      (rows : List AuditEventRecord) (total pages : ℕ)
      → access.platform_wide ≡ false
      → (list_events select access page page_size f (some org) d).0 ≡ ok (listed rows total pages)
      → All (IsOwn Same org) rows
  unfolding list_events answer query_failed
  list_events-IsOwn access page page_size f org d rows total pages own h =
      elim (attempt-eq-ok
        (list_safe_audit_events select page page_size (some org) access.platform_wide f) _ _ d h) [
          | inl ((found, n), fetched, same) ↦
              let e : found ≡ rows = cc (ok-inj same) in
              rw (← e)
                (list_safe_audit_events-IsOwn page page_size org f d found n (rw own at fetched))
          | inr (x, failed, same) ↦ elim (if-branch (select.is_sqlalchemy_error x) _ _ _ same) [
            | inl (t, e) ↦ let bad = ok-inj e in absurd (cc)
            | inr (t, e) ↦ absurd (cc)
          ]
        ]

  -- If the database returns only rows that meet the equalities of a query in its columns'
  -- collation: a reader whose verified token gives access, but not to the whole platform, is named
  -- an organization by it, and every event that the route lists, whatever was asked for, has that
  -- organization and is scoped to an organization.
  pub safe_route-IsOwn :
      (lib : Library) (is_zero : String → Bool) (payload : Fields) (access : AuditAccess)
      (page page_size : ℕ) (org : Option String) (f : Filters) (d : D)
      (rows : List AuditEventRecord) (total pages : ℕ)
      → access_of lib is_zero payload ≡ ok access
      → access.platform_wide ≡ false
      → (safe_route select access page page_size org f d).0 ≡ ok (listed rows total pages)
      → (own : String) × (access.organization_id ≡ some own) × All (IsOwn Same own) rows
  unfolding safe_route
  safe_route-IsOwn lib is_zero payload access page page_size org f d rows total pages allowed own
        h =
      elim (access_of-organization lib is_zero payload access allowed) [
        | inl all ↦ absurd (cc)
        | inr (mine, e) ↦
            let (effective, checked, answered) =
              bind-eq-ok
                (lift (effective_org access org (is_reversed f.from_timestamp f.to_timestamp))) _ d
                h in
            let same = effective_org-own access org _ effective own checked ∙ e in
            (
              mine,
              e,
              list_events-IsOwn access page page_size f mine d rows total pages own
                  (rw same at answered),
            )
      ]
