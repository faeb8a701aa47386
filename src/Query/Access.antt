-- ===== src/Query/Access.antt =====
-- api/deps_audit.py: what a verified token lets its bearer read.
use omnibioai_security_audit.Prelude.{
  ◌≡◌, ◌⊎◌, inl, inr, sym, ap, arith, String, ◌==◌, contains, truthy, Bool, true, false, ◌||◌,
  Option, none, some, if◌then◌else◌,
}
use omnibioai_security_audit.Python.{Exn, Result, ok, err, ok-inj}
use omnibioai_security_audit.Python.Json.{
  Json, Fields, Items, nil, cons, end, field, null, str, num, arr, obj, bool, get,
}
use omnibioai_security_audit.Library.{Library}

pub record AuditAccess : Type 0 where
  pub platform_wide : Bool
  pub organization_id : Option String

abbrev pub http_error : String → String → Exn
http_error code detail = record { kind = code; message = detail }

abbrev pub type_error : Exn
type_error = record { kind = "TypeError"; message = "argument is not iterable" }

unfoldable pub has_item : String → Items → Bool
has_item s nil = false
has_item s (cons (str t) rest) = t == s || has_item s rest
has_item s (cons _ rest) = has_item s rest

unfoldable pub has_key : String → Fields → Bool
has_key s end = false
has_key s (field k v rest) = k == s || has_key s rest

module _ (lib : Library) (is_zero : String → Bool) where
  -- `s in (value or [])`; `is_zero` reads a number's literal.
  unfoldable pub listed_in : String → Option Json → Result Bool
  unfolding contains
  listed_in s none = ok false
  listed_in s (some null) = ok false
  listed_in s (some (bool false)) = ok false
  listed_in s (some (bool true)) = err type_error
  listed_in s (some (num n)) = if is_zero n then ok false else err type_error
  listed_in s (some (str t)) = ok (contains t s)
  listed_in s (some (arr items)) = ok (has_item s items)
  listed_in s (some (obj fields)) = ok (has_key s fields)

  abbrev pub scoped : String → AuditAccess
  scoped org = record { platform_wide = false; organization_id = some org }

  abbrev pub no_scope : Result AuditAccess
  no_scope = err (http_error "403" "Verified organization scope required")

  unfoldable pub scope_of : Option Json → Result AuditAccess
  scope_of none = no_scope
  scope_of (some null) = no_scope
  scope_of (some (obj fields)) = no_scope
  scope_of (some (arr items)) = no_scope
  scope_of (some (str s)) = if truthy s then ok (scoped s) else no_scope
  scope_of (some (num n)) = ok (scoped (lib.str_json (num n)))
  scope_of (some (bool b)) = ok (scoped (lib.str_json (bool b)))

  unfoldable pub organization_access : Result Bool → Option Json → Result AuditAccess
  organization_access (err e) org_id = err e
  organization_access (ok false) org_id = err (http_error "403" "Audit read permission required")
  organization_access (ok true) org_id = scope_of org_id

  unfoldable pub access_of : Fields → Result AuditAccess
  unfolding organization_access listed_in
  access_of payload = elim (listed_in "manage_all_orgs" (get "permissions" payload)) [
    | err e ↦ err e
    | ok true ↦ ok (record { platform_wide = true; organization_id = none })
    | ok false ↦
        organization_access (listed_in "org_admin" (get "org_role" payload)) (get "org_id" payload)
  ]

  scope_of-organization :
      (v : Option Json) (access : AuditAccess)
      → scope_of v ≡ ok access
      → (org : String) × (access.organization_id ≡ some org)
  unfolding scope_of
  scope_of-organization none access h = absurd (cc)
  scope_of-organization (some null) access h = absurd (cc)
  scope_of-organization (some (obj fields)) access h = absurd (cc)
  scope_of-organization (some (arr items)) access h = absurd (cc)
  scope_of-organization (some (num n)) access h =
      (lib.str_json (num n), sym (ap (λ a. a.organization_id) (ok-inj h)))
  scope_of-organization (some (bool b)) access h =
      (lib.str_json (bool b), sym (ap (λ a. a.organization_id) (ok-inj h)))
  scope_of-organization (some (str s)) access h = (s, ground arith)

  organization_access-organization :
      (r : Result Bool) (v : Option Json) (access : AuditAccess)
      → organization_access r v ≡ ok access
      → (org : String) × (access.organization_id ≡ some org)
  unfolding organization_access
  organization_access-organization (err e) v access h = absurd (cc)
  organization_access-organization (ok false) v access h = absurd (cc)
  organization_access-organization (ok true) v access h = scope_of-organization v access h

  access-cases :
      (r : Result Bool) (org_role org_id : Option Json) (access : AuditAccess)
      → (elim r as (λ x. Result AuditAccess) [
        | err e ↦ err e
        | ok true ↦ ok (record { platform_wide = true; organization_id = none })
        | ok false ↦ organization_access (listed_in "org_admin" org_role) org_id
      ])
        ≡ ok access
      → (access.platform_wide ≡ true) ⊎ ((org : String) × (access.organization_id ≡ some org))
  access-cases (err e) org_role org_id access h = absurd (cc)
  access-cases (ok true) org_role org_id access h = inl (sym (ap (λ a. a.platform_wide) (ok-inj h)))
  access-cases (ok false) org_role org_id access h =
      inr (organization_access-organization (listed_in "org_admin" org_role) org_id access h)

  -- Whoever may read, but not every organization, may read one that is named.
  pub access_of-organization :
      (payload : Fields) (access : AuditAccess)
      → access_of payload ≡ ok access
      → (access.platform_wide ≡ true) ⊎ ((org : String) × (access.organization_id ≡ some org))
  unfolding access_of
  access_of-organization payload access h =
      access-cases (listed_in "manage_all_orgs" (get "permissions" payload))
        (get "org_role" payload) (get "org_id" payload) access h
