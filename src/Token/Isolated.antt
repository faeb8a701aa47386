-- ===== src/Token/Isolated.antt =====
-- A request from its Authorization header to the items that it is answered with.
use omnibioai_security_audit.Prelude.{
  ℕ, ◌≡◌, ◌⊎◌, inl, inr, refl, arith, String, truthy, true, ◌&&◌, Option, none, some, All,
  Bool-cases,
}
use omnibioai_security_audit.Python.{Result, ok, err, >>=-eq-ok}
use omnibioai_security_audit.Python.Time.{DateTime}
use omnibioai_security_audit.Python.Json.{Fields}
use omnibioai_security_audit.Python.Exec.{Exec, lift, ◌>>=◌}
use omnibioai_security_audit.Python.Exec.Keeps.{bind-eq-ok}
use omnibioai_security_audit.Library.{Library}
use omnibioai_security_audit.Query.{Filters, Select}
use omnibioai_security_audit.Query.Access.{AuditAccess, access_of}
use omnibioai_security_audit.Query.Isolated.{IsSelective}
use omnibioai_security_audit.Query.Answer.{SafeAuditEventListResponse, Answer, success, safe_answer}
use omnibioai_security_audit.Query.Projected.{IsShown, safe_answer-IsShown}
use omnibioai_security_audit.Token.{Jwt, verify_token}
use omnibioai_security_audit.Token.Header.{
  starts_with_lower, token_of, as_unauthorized, bearer_payload, require_audit_read_access,
}
use omnibioai_security_audit.Token.Verified.{IsVerified, verify_token-IsVerified}

module _ {K D : Type 0} (lib : Library) (jwt : Jwt K) (select : Select D) where
  -- The route with `Depends(require_audit_read_access)`.
  unfoldable pub authorized_route :
      DateTime → Option String → ℕ → ℕ → Option String → Filters → Exec D Answer
  authorized_route now authorization page page_size org f =
      lift (require_audit_read_access lib jwt authorization) >>= λ access.
      safe_answer lib select now access page page_size org f

  as_unauthorized-ok :
      (r : Result Fields) (payload : Fields) → as_unauthorized r ≡ ok payload → r ≡ ok payload
  unfolding as_unauthorized
  as_unauthorized-ok (ok found) payload h = h
  as_unauthorized-ok (err e) payload h = absurd (ground arith)

  -- A header that gives a payload is a bearer header whose token is verified.
  pub bearer_payload-IsVerified :
      (authorization : Option String) (payload : Fields)
      → bearer_payload lib jwt authorization ≡ ok payload
      → (header : String) × (authorization ≡ some header)
        × (starts_with_lower header "bearer " ≡ true)
        × IsVerified lib jwt (token_of header) payload
  unfolding bearer_payload
  bearer_payload-IsVerified none payload h = absurd (cc)
  bearer_payload-IsVerified (some header) payload h =
      elim (Bool-cases (truthy header && starts_with_lower header "bearer ")) [
        | inr other ↦ absurd (let bad = rw other at h in cc)
        | inl bearer ↦
            let accepted =
              as_unauthorized-ok (verify_token lib jwt (some (token_of header))) payload
                (rw bearer at h) in
            let (token, same, verified) =
              verify_token-IsVerified lib jwt (some (token_of header)) payload accepted in
            let e : token ≡ token_of header = cc in (header, refl, ground arith, rw e at verified)
      ]

  -- If the database returns only rows that meet the equalities of a query in its columns' collation:
  -- a request that is answered with events has a bearer header with a verified token, and the
  -- token's payload gives access to the whole platform, or it names an organization, and every item
  -- of the answer has that organization, one of the four integrity values, and no metadata under a
  -- key but the seven that are allowed.
  pub authorized_route-IsShown :
      (Same : Option String → Option String → Type 0)
      → IsSelective select Same
      → (now : DateTime) (authorization : Option String) (page page_size : ℕ) (org : Option String)
        (f : Filters) (d : D) (out : SafeAuditEventListResponse)
      → (authorized_route now authorization page page_size org f d).0 ≡ ok (success out)
      → (header : String) × (authorization ≡ some header)
        × (starts_with_lower header "bearer " ≡ true)
        × (payload : Fields) × IsVerified lib jwt (token_of header) payload
        × (access : AuditAccess) × (access_of lib jwt.is_zero payload ≡ ok access)
        × ((access.platform_wide ≡ true)
            ⊎ ((own : String) × (access.organization_id ≡ some own)
                × All (IsShown Same own) out.items))
  unfolding authorized_route require_audit_read_access
  authorized_route-IsShown Same selective now authorization page page_size org f d out h =
      let (access, allowed, answered) =
        bind-eq-ok (lift {S = D} (require_audit_read_access lib jwt authorization)) _ d h in
      let (payload, given, decided) = >>=-eq-ok (bearer_payload lib jwt authorization) _ allowed in
      let (header, there, bearer, verified) =
        bearer_payload-IsVerified authorization payload given in
      (
        header,
        there,
        bearer,
        payload,
        verified,
        access,
        decided,
        elim (Bool-cases access.platform_wide) [
          | inl wide ↦ inl wide
          | inr narrow ↦ inr (
              safe_answer-IsShown select Same selective lib jwt.is_zero payload access now page
                page_size org f d out decided narrow answered)
        ],
      )
