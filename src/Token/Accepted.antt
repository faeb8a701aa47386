-- ===== src/Token/Accepted.antt =====
-- The converse of the acceptance of a token, and the errors of a refusal.
use omnibioai_security_audit.Prelude.{
  ◌≡◌, ◌↔◌, inl, inr, refl, arith, String, ◌==◌, truthy, Bool, true, false, Option, none, some,
  Bool-cases, if◌then◌else◌,
}
use omnibioai_security_audit.Python.{Exn, Result, ok, err, ◌>>=◌}
use omnibioai_security_audit.Python.Json.{Json, Fields, str, num, bool, arr, obj, null, get}
use omnibioai_security_audit.Library.{Library}
use omnibioai_security_audit.Token.{
  Jwt, differs, names_audience, is_truthy, validate_platform_claims, decode_error, decoded,
  decode_with_key, decode_rs256, decode_by, decode_header, decode, blacklist_key, unless_revoked,
  check_revocation, check_payload, verify_token,
}
use omnibioai_security_audit.Token.Verified.{
  IsSigned, IsNotRevoked, IsVerified, verify_token-IsVerified,
}

-- The exceptions that a call may raise.
abbrev pub Raises {ℓ} : (Exn → Type 0) → {A : Type ℓ} → Result A → Type 0
Raises P (ok a) = Unit
Raises P (err e) = P e

module _ (P : Exn → Type 0) {A : Type 0} where
  Raises-if :
      (test : Bool) (a b : Result A) → Raises P a → Raises P b → Raises P (if test then a else b)
  Raises-if true a b ha hb = ha
  Raises-if false a b ha hb = hb

  Raises-bind :
      {B : Type 0} (first : Result A) (next : A → Result B)
      → Raises P first
      → ((a : A) → Raises P (next a))
      → Raises P (first >>= next)
  Raises-bind (ok a) next hf hn = hn a
  Raises-bind (err e) next hf hn = hf

  Raises-err : (r : Result A) (e : Exn) → Raises P r → r ≡ err e → P e
  Raises-err r e h same = rw same at h

module _ {K : Type 0} (lib : Library) (jwt : Jwt K) where
  check_revocation-passes :
      (jti : Option Json) → IsNotRevoked lib jwt jti → check_revocation lib jwt jti ≡ ok tt
  unfolding check_revocation unless_revoked
  check_revocation-passes none h = refl
  check_revocation-passes (some jti) (inl missing) = rw missing refl
  check_revocation-passes (some jti) (inr clear) =
      elim (Bool-cases (is_truthy lib jwt (some jti))) [
        | inl there ↦ rw (there, clear) refl
        | inr missing ↦ rw missing refl
      ]

  decode-IsSigned :
      (token : String) (payload : Fields)
      → IsSigned lib jwt token payload
      → decode lib jwt token ≡ decoded lib jwt (ok payload)
  unfolding decode decode_header decode_by decode_rs256 decode_with_key
  decode-IsSigned token payload (header, read, inl (named, verified)) =
      rw (read, decode_header, named, verified) refl
  decode-IsSigned token payload
        (header, read, inr (named, kid, given, there, key, found, verified)) =
      rw (read, decode_header, named, given) (rw (there, found, verified) refl)

  IsVerified-verify_token :
      (token : String) (payload : Fields)
      → truthy token ≡ true
      → IsVerified lib jwt token payload
      → verify_token lib jwt (some token) ≡ ok payload
  unfolding verify_token check_payload decoded validate_platform_claims
  IsVerified-verify_token token payload there v =
      rw (there, decode-IsSigned token payload v.signed)
        (rw (v.issuer, v.audience)
          (rw (v.access, v.subject, check_revocation-passes (get "jti" payload) v.not_revoked)
            refl))

  -- A token that is not empty is accepted with a payload exactly if PyJWT verified it so, under the
  -- key for one of the two algorithms, and the claims and the revocation state are as they must be.
  pub verify_token_iff :
      (token : String) (payload : Fields)
      → truthy token ≡ true
      → (verify_token lib jwt (some token) ≡ ok payload) ↔ IsVerified lib jwt token payload
  verify_token_iff token payload there = (
    λ h.
        let (t, same, verified) = verify_token-IsVerified lib jwt (some token) payload h in
        let e : t ≡ token = cc in rw e at verified,
    IsVerified-verify_token token payload there,
  )

  abbrev IsInvalid : Exn → Type 0
  IsInvalid e = e.kind ≡ "TokenInvalid"

  -- PyJWT refuses a token only with an error of the class InvalidTokenError.
  pub record RefusesTokens : Type 0 where
    pub header :
        (token : String)
        → Raises (λ e. jwt.is_invalid_token_error e ≡ true) (jwt.get_unverified_header token)
    pub decodes :
        (token : String) (key : K) (algorithm : String)
        → Raises (λ e. jwt.is_invalid_token_error e ≡ true) (jwt.decode token key algorithm)

  validate-IsInvalid :
      (payload : Fields) → Raises IsInvalid (validate_platform_claims lib jwt payload)
  unfolding validate_platform_claims
  validate-IsInvalid payload =
      Raises-if IsInvalid (differs (get "iss" payload) jwt.issuer) _ _ refl
        (Raises-if IsInvalid (names_audience (get "aud" payload) jwt.audience) _ _ tt refl)

  decoded-IsInvalid :
      (r : Result Fields)
      → Raises (λ e. jwt.is_invalid_token_error e ≡ true) r
      → Raises IsInvalid (decoded lib jwt r)
  unfolding decoded decode_error
  decoded-IsInvalid (ok payload) h = validate-IsInvalid payload
  decoded-IsInvalid (err e) h = ground arith

  decode_with_key-IsInvalid :
      (refuses : RefusesTokens) (token : String) (r : Result K)
      → Raises IsInvalid (decode_with_key lib jwt token r)
  unfolding decode_with_key
  decode_with_key-IsInvalid refuses token (ok key) =
      decoded-IsInvalid _ (refuses.decodes token key "RS256")
  decode_with_key-IsInvalid refuses token (err e) =
      Raises-if IsInvalid (jwt.is_client_error e) _ _ refl refl

  decode_rs256-IsInvalid :
      (refuses : RefusesTokens) (token : String) (kid : Option Json)
      → Raises IsInvalid (decode_rs256 lib jwt token kid)
  unfolding decode_rs256
  decode_rs256-IsInvalid refuses token none = refl
  decode_rs256-IsInvalid refuses token (some kid) =
      Raises-if IsInvalid (is_truthy lib jwt (some kid)) _ _
        (decode_with_key-IsInvalid refuses token (jwt.signing_key kid)) refl

  decode_by-IsInvalid :
      (refuses : RefusesTokens) (token : String) (alg kid : Option Json)
      → Raises IsInvalid (decode_by lib jwt token alg kid)
  unfolding decode_by
  decode_by-IsInvalid refuses token none kid = refl
  decode_by-IsInvalid refuses token (some null) kid = refl
  decode_by-IsInvalid refuses token (some (bool b)) kid = refl
  decode_by-IsInvalid refuses token (some (num n)) kid = refl
  decode_by-IsInvalid refuses token (some (arr items)) kid = refl
  decode_by-IsInvalid refuses token (some (obj fields)) kid = refl
  decode_by-IsInvalid refuses token (some (str alg)) kid =
      Raises-if IsInvalid (alg == "RS256") _ _ (decode_rs256-IsInvalid refuses token kid) (
        Raises-if IsInvalid (alg == "HS256") _ _
          (decoded-IsInvalid _ (refuses.decodes token jwt.secret "HS256")) refl)

  decode_header-IsInvalid :
      (refuses : RefusesTokens) (token : String) (r : Result Fields)
      → Raises (λ e. jwt.is_invalid_token_error e ≡ true) r
      → Raises IsInvalid (decode_header lib jwt token r)
  unfolding decode_header
  decode_header-IsInvalid refuses token (err e) h = rw h refl
  decode_header-IsInvalid refuses token (ok header) h =
      decode_by-IsInvalid refuses token (get "alg" header) (get "kid" header)

  unless_revoked-IsInvalid : (r : Result Bool) → Raises IsInvalid (unless_revoked lib jwt r)
  unfolding unless_revoked
  unless_revoked-IsInvalid (err e) = refl
  unless_revoked-IsInvalid (ok true) = refl
  unless_revoked-IsInvalid (ok false) = tt

  check_revocation-IsInvalid : (jti : Option Json) → Raises IsInvalid (check_revocation lib jwt jti)
  unfolding check_revocation
  check_revocation-IsInvalid none = tt
  check_revocation-IsInvalid (some jti) =
      Raises-if IsInvalid (is_truthy lib jwt (some jti)) _ _
        (unless_revoked-IsInvalid (jwt.exists (blacklist_key lib jwt jti))) tt

  check_payload-IsInvalid : (payload : Fields) → Raises IsInvalid (check_payload lib jwt payload)
  unfolding check_payload
  check_payload-IsInvalid payload =
      Raises-if IsInvalid (differs (get "type" payload) "access") _ _ refl (
        Raises-if IsInvalid (is_truthy lib jwt (get "sub" payload)) _ _
          (Raises-bind IsInvalid (check_revocation lib jwt (get "jti" payload)) _
            (check_revocation-IsInvalid (get "jti" payload)) (λ u. tt))
          refl)

  -- If PyJWT refuses tokens only with InvalidTokenError, then every refusal of a token, a failure of
  -- the key server or of Redis included, is a TokenInvalid.
  pub verify_token-error :
      (token : Option String) (e : Exn)
      → RefusesTokens
      → verify_token lib jwt token ≡ err e
      → e.kind ≡ "TokenInvalid"
  unfolding verify_token decode
  verify_token-error none e refuses h = ground arith
  verify_token-error (some token) e refuses h =
      Raises-err IsInvalid _ e
        (Raises-if IsInvalid (truthy token) _ _
          (Raises-bind IsInvalid (decode lib jwt token) (check_payload lib jwt)
            (decode_header-IsInvalid refuses token _ (refuses.header token))
            check_payload-IsInvalid)
          refl)
        h
