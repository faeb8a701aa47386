-- ===== src/Token/Verified.antt =====
-- Which tokens are accepted, exactly.
use omnibioai_security_audit.Prelude.{
  ◌≡◌, ◌⊎◌, inl, inr, refl, ap, ◌∙◌, arith, String, ◌==◌, truthy, Bool, true, false, Option, none,
  some, eq_iff, Bool-cases,
}
use omnibioai_security_audit.Python.{Result, ok, err, ok-inj, >>=-eq-ok}
use omnibioai_security_audit.Python.Json.{Json, Fields, str, num, bool, arr, obj, null, get}
use omnibioai_security_audit.Library.{Library}
use omnibioai_security_audit.Token.{
  Jwt, differs, names_audience, is_truthy, decoded, decode_with_key, decode_rs256, decode_by,
  decode_header, decode, blacklist_key, unless_revoked, check_revocation, check_payload,
  verify_token,
}

module _ {K : Type 0} (lib : Library) (jwt : Jwt K) where
  -- The header names one of two algorithms, and PyJWT verified the token under the key for it.
  abbrev pub IsSigned : String → Fields → Type 0
  IsSigned token payload =
      (header : Fields) × (jwt.get_unverified_header token ≡ ok header)
      × (((get "alg" header ≡ some (str "HS256"))
            × (jwt.decode token jwt.secret "HS256" ≡ ok payload))
          ⊎ ((get "alg" header ≡ some (str "RS256"))
              × (kid : Json) × (get "kid" header ≡ some kid)
              × (is_truthy lib jwt (some kid) ≡ true)
              × (key : K) × (jwt.signing_key kid ≡ ok key)
              × (jwt.decode token key "RS256" ≡ ok payload)))

  -- The token has no identifier, or Redis says that the identifier is not in the blacklist.
  abbrev pub IsNotRevoked : Option Json → Type 0
  IsNotRevoked none = Unit
  IsNotRevoked (some jti) =
      (is_truthy lib jwt (some jti) ≡ false) ⊎ (jwt.exists (blacklist_key lib jwt jti) ≡ ok false)

  pub record IsVerified (token : String) (payload : Fields) : Type 0 where
    pub signed : IsSigned token payload
    pub issuer : differs (get "iss" payload) jwt.issuer ≡ false
    pub audience : names_audience (get "aud" payload) jwt.audience ≡ true
    pub access : differs (get "type" payload) "access" ≡ false
    pub subject : is_truthy lib jwt (get "sub" payload) ≡ true
    pub not_revoked : IsNotRevoked (get "jti" payload)

  decoded-ok :
      (r : Result Fields) (payload : Fields)
      → decoded lib jwt r ≡ ok payload
      → (r ≡ ok payload)
        × (differs (get "iss" payload) jwt.issuer ≡ false)
        × (names_audience (get "aud" payload) jwt.audience ≡ true)
  unfolding decoded
  decoded-ok (err e) payload h = absurd (cc)
  decoded-ok (ok found) payload h = elim (Bool-cases (differs (get "iss" found) jwt.issuer)) [
    | inl other ↦ absurd (let bad = rw other at h in cc)
    | inr same ↦ elim (Bool-cases (names_audience (get "aud" found) jwt.audience)) [
      | inl named ↦ let e = ok-inj (rw (same, named) at h) in rw (← e) (refl, same, named)
      | inr missing ↦ absurd (let bad = rw (same, missing) at h in cc)
    ]
  ]

  decode_with_key-ok :
      (token : String) (r : Result K) (payload : Fields)
      → decode_with_key lib jwt token r ≡ ok payload
      → (key : K) × (r ≡ ok key) × (decoded lib jwt (jwt.decode token key "RS256") ≡ ok payload)
  unfolding decode_with_key
  decode_with_key-ok token (ok key) payload h = (key, refl, h)
  decode_with_key-ok token (err e) payload h = absurd (ground arith)

  decode_rs256-ok :
      (token : String) (kid : Option Json) (payload : Fields)
      → decode_rs256 lib jwt token kid ≡ ok payload
      → (k : Json) × (kid ≡ some k)
        × (is_truthy lib jwt (some k) ≡ true)
        × (key : K) × (jwt.signing_key k ≡ ok key)
        × (decoded lib jwt (jwt.decode token key "RS256") ≡ ok payload)
  unfolding decode_rs256
  decode_rs256-ok token none payload h = absurd (cc)
  decode_rs256-ok token (some k) payload h = elim (Bool-cases (is_truthy lib jwt (some k))) [
    | inl there ↦
        let (key, found, ran) =
          decode_with_key-ok token (jwt.signing_key k) payload (rw there at h) in
        (k, refl, there, key, found, ran)
    | inr missing ↦ absurd (let bad = rw missing at h in cc)
  ]

  -- What `_decode` returns was signed, and has the platform's issuer and audience.
  abbrev IsDecoded : String → Fields → Type 0
  IsDecoded token payload =
      IsSigned token payload
      × (differs (get "iss" payload) jwt.issuer ≡ false)
      × (names_audience (get "aud" payload) jwt.audience ≡ true)

  decode_by-ok :
      (token : String) (header : Fields) (alg : Option Json) (payload : Fields)
      → jwt.get_unverified_header token ≡ ok header
      → get "alg" header ≡ alg
      → decode_by lib jwt token alg (get "kid" header) ≡ ok payload
      → IsDecoded token payload
  unfolding decode_by
  decode_by-ok token header none payload read named h = absurd (cc)
  decode_by-ok token header (some null) payload read named h = absurd (cc)
  decode_by-ok token header (some (bool b)) payload read named h = absurd (cc)
  decode_by-ok token header (some (num n)) payload read named h = absurd (cc)
  decode_by-ok token header (some (arr items)) payload read named h = absurd (cc)
  decode_by-ok token header (some (obj fields)) payload read named h = absurd (cc)
  decode_by-ok token header (some (str alg)) payload read named h =
      elim (Bool-cases (alg == "RS256")) [
        | inl rs ↦
            let (kid, given, there, key, found, ran) =
              decode_rs256-ok token (get "kid" header) payload (rw rs at h) in
            let (verified, issuer, audience) = decoded-ok _ payload ran in
            let e : alg ≡ "RS256" = (eq_iff alg "RS256").0 rs in
            (
              (header, read, inr (rw (← e) named, kid, given, there, key, found, verified)),
              issuer,
              audience,
            )
        | inr not_rs ↦ elim (Bool-cases (alg == "HS256")) [
          | inl hs ↦
              let (verified, issuer, audience) = decoded-ok _ payload (rw (not_rs, hs) at h) in
              let e : alg ≡ "HS256" = (eq_iff alg "HS256").0 hs in
              ((header, read, inl (rw (← e) named, verified)), issuer, audience)
          | inr not_hs ↦ absurd (let bad = rw (not_rs, not_hs) at h in cc)
        ]
      ]

  decode_header-ok :
      (token : String) (r : Result Fields) (payload : Fields)
      → jwt.get_unverified_header token ≡ r
      → decode_header lib jwt token r ≡ ok payload
      → IsDecoded token payload
  unfolding decode_header
  decode_header-ok token (err e) payload read h = absurd (ground arith)
  decode_header-ok token (ok header) payload read h =
      decode_by-ok token header (get "alg" header) payload read refl h

  unless_revoked-ok : (r : Result Bool) → unless_revoked lib jwt r ≡ ok tt → r ≡ ok false
  unfolding unless_revoked
  unless_revoked-ok (err e) h = absurd (cc)
  unless_revoked-ok (ok true) h = absurd (cc)
  unless_revoked-ok (ok false) h = refl

  check_revocation-ok :
      (jti : Option Json) → check_revocation lib jwt jti ≡ ok tt → IsNotRevoked jti
  unfolding check_revocation
  check_revocation-ok none h = tt
  check_revocation-ok (some jti) h = elim (Bool-cases (is_truthy lib jwt (some jti))) [
    | inr missing ↦ inl missing
    | inl there ↦ inr (unless_revoked-ok (jwt.exists (blacklist_key lib jwt jti)) (rw there at h))
  ]

  check_payload-ok :
      (found payload : Fields)
      → check_payload lib jwt found ≡ ok payload
      → (found ≡ payload)
        × (differs (get "type" payload) "access" ≡ false)
        × (is_truthy lib jwt (get "sub" payload) ≡ true)
        × IsNotRevoked (get "jti" payload)
  unfolding check_payload
  check_payload-ok found payload h = elim (Bool-cases (differs (get "type" found) "access")) [
    | inl wrong ↦ absurd (let bad = rw wrong at h in cc)
    | inr right ↦ elim (Bool-cases (is_truthy lib jwt (get "sub" found))) [
      | inr missing ↦ absurd (let bad = rw (right, missing) at h in cc)
      | inl there ↦
          let (u, passed, same) =
            >>=-eq-ok (check_revocation lib jwt (get "jti" found)) _ (rw (right, there) at h) in
          let e = ok-inj same in
          rw (← e) (refl, right, there, check_revocation-ok (get "jti" found) passed)
    ]
  ]

  -- If a token is accepted, its header names HS256 or RS256 and PyJWT verified it under the shared
  -- secret or under the published key that the header's kid names; a present issuer is the
  -- platform's, a present audience includes the platform's, a present type is access, the subject is
  -- there, and Redis answered that a present identifier is not revoked.
  pub verify_token-IsVerified :
      (token : Option String) (payload : Fields)
      → verify_token lib jwt token ≡ ok payload
      → (t : String) × (token ≡ some t) × IsVerified t payload
  unfolding verify_token check_payload decode
  verify_token-IsVerified none payload h = absurd (cc)
  verify_token-IsVerified (some token) payload h = elim (Bool-cases (truthy token)) [
    | inr empty ↦ absurd (let bad = rw empty at h in cc)
    | inl there ↦
        let (found, read, checked) = >>=-eq-ok (decode lib jwt token) _ (rw there at h) in
        let (same, type_ok, subject, not_revoked) = check_payload-ok found payload checked in
        let (signed, issuer, audience) =
          decode_header-ok token (jwt.get_unverified_header token) payload refl
            (read ∙ ap ok same) in
        (
          token,
          refl,
          record {
            signed = signed;
            issuer = issuer;
            audience = audience;
            access = type_ok;
            subject = subject;
            not_revoked = not_revoked;
          },
        )
  ]
