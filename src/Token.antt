-- ===== src/Token.antt =====
-- audit/jwt_verify.py: what makes a bearer token valid. PyJWT, its key client and Redis are
-- parameters.
pub mod Verified
pub mod Accepted
pub mod Header
pub mod Isolated
pub mod Administered
use omnibioai_security_audit.Prelude.{
  String, ◌==◌, ◌<>◌, truthy, Bool, true, false, not, ◌&&◌, Option, none, some, if◌then◌else◌,
}
use omnibioai_security_audit.Python.{Exn, Result, ok, err, ◌>>=◌, ◌>>◌}
use omnibioai_security_audit.Python.Json.{
  Json, Items, Fields, null, bool, num, str, arr, obj, nil, cons, end, field, get,
}
use omnibioai_security_audit.Library.{Library}
use omnibioai_security_audit.Query.Access.{has_item}

-- `K` is the type of keys.
pub record Jwt (K : Type 0) : Type 0 where
  -- `jwt.get_unverified_header(token)`
  pub get_unverified_header : String → Result Fields
  -- `jwt.decode(token, key, algorithms=[algorithm], options={"verify_aud": False})`
  pub decode : String → K → String → Result Fields
  -- `_get_jwks_client().get_signing_key(kid).key`
  pub signing_key : Json → Result K
  -- JWT_SECRET, as a key
  pub secret : K
  pub issuer : String
  pub audience : String
  -- `isinstance(e, jwt.InvalidTokenError)`, and the subclass ExpiredSignatureError
  pub is_invalid_token_error : Exn → Bool
  pub is_expired : Exn → Bool
  -- `isinstance(e, PyJWKClientError)`
  pub is_client_error : Exn → Bool
  -- `repr(v)`
  pub repr : Option Json → String
  -- `_blacklist.exists(key)`
  pub exists : String → Result Bool
  -- Whether the literal of a number is zero.
  pub is_zero : String → Bool

abbrev pub token_invalid : String → Exn
token_invalid message = record { kind = "TokenInvalid"; message = message }

-- `value == s`
unfoldable pub equals : Json → String → Bool
equals (str t) s = t == s
equals _ s = false

-- `value is not None and value != s`
unfoldable pub differs : Option Json → String → Bool
unfolding equals
differs none s = false
differs (some null) s = false
differs (some v) s = not (equals v s)

-- The audience is missing, or it names `s`, alone or in a list.
unfoldable pub names_audience : Option Json → String → Bool
unfolding equals
names_audience none s = true
names_audience (some null) s = true
names_audience (some (arr items)) s = has_item s items
names_audience (some v) s = equals v s

module _ {K : Type 0} (lib : Library) (jwt : Jwt K) where
  -- `bool(payload.get(k))`
  unfoldable pub is_truthy : Option Json → Bool
  is_truthy none = false
  is_truthy (some null) = false
  is_truthy (some (bool b)) = b
  is_truthy (some (num n)) = not (jwt.is_zero n)
  is_truthy (some (str s)) = truthy s
  is_truthy (some (arr nil)) = false
  is_truthy (some (arr (cons v vs))) = true
  is_truthy (some (obj end)) = false
  is_truthy (some (obj (field k v fs))) = true

  unfoldable pub validate_platform_claims : Fields → Result Fields
  unfolding differs names_audience
  validate_platform_claims payload =
      if differs (get "iss" payload) jwt.issuer
      then err (token_invalid "invalid issuer")
      else if names_audience (get "aud" payload) jwt.audience
      then ok payload
      else err (token_invalid "invalid audience")

  -- The two `except` clauses; any other exception passes.
  unfoldable pub decode_error : Exn → Exn
  decode_error e =
      if jwt.is_expired e
      then token_invalid "expired"
      else if jwt.is_invalid_token_error e
      then token_invalid ("invalid token: " <> e.message)
      else e

  unfoldable pub decoded : Result Fields → Result Fields
  unfolding validate_platform_claims decode_error
  decoded (ok payload) = validate_platform_claims payload
  decoded (err e) = err (decode_error e)

  unfoldable pub decode_with_key : String → Result K → Result Fields
  decode_with_key token (err e) =
      if jwt.is_client_error e
      then err (token_invalid ("unable to resolve signing key: " <> e.message))
      else err (token_invalid ("jwks fetch failed: " <> e.message))
  decode_with_key token (ok key) = decoded (jwt.decode token key "RS256")

  unfoldable pub decode_rs256 : String → Option Json → Result Fields
  unfolding decode_with_key
  decode_rs256 token none = err (token_invalid "RS256 token missing kid header")
  decode_rs256 token (some kid) =
      if is_truthy (some kid)
      then decode_with_key token (jwt.signing_key kid)
      else err (token_invalid "RS256 token missing kid header")

  unfoldable pub decode_by : String → Option Json → Option Json → Result Fields
  unfolding decoded decode_rs256
  decode_by token (some (str alg)) kid =
      if alg == "RS256"
      then decode_rs256 token kid
      else if alg == "HS256"
      then decoded (jwt.decode token jwt.secret "HS256")
      else err (token_invalid ("unsupported alg: " <> jwt.repr (some (str alg))))
  decode_by token alg kid = err (token_invalid ("unsupported alg: " <> jwt.repr alg))

  unfoldable pub decode_header : String → Result Fields → Result Fields
  unfolding decode_by
  decode_header token (err e) =
      if jwt.is_invalid_token_error e
      then err (token_invalid ("invalid token: " <> e.message))
      else err e
  decode_header token (ok header) = decode_by token (get "alg" header) (get "kid" header)

  -- `_decode`
  unfoldable pub decode : String → Result Fields
  unfolding decode_header
  decode token = decode_header token (jwt.get_unverified_header token)

  -- The key of the token's identifier in the blacklist.
  unfoldable pub blacklist_key : Json → String
  blacklist_key jti = "blacklist:jti:" <> lib.str_json jti

  unfoldable pub unless_revoked : Result Bool → Result (Unit {0})
  unless_revoked (err e) = err (token_invalid "revocation state unavailable")
  unless_revoked (ok true) = err (token_invalid "revoked")
  unless_revoked (ok false) = ok tt

  unfoldable pub check_revocation : Option Json → Result (Unit {0})
  unfolding unless_revoked
  check_revocation none = ok tt
  check_revocation (some jti) =
      if is_truthy (some jti) then unless_revoked (jwt.exists (blacklist_key jti)) else ok tt

  unfoldable pub check_payload : Fields → Result Fields
  unfolding check_revocation differs
  check_payload payload =
      if differs (get "type" payload) "access"
      then err (token_invalid ("wrong token type: " <> jwt.repr (get "type" payload)))
      else if is_truthy (get "sub" payload)
      then check_revocation (get "jti" payload) >> ok payload
      else err (token_invalid "missing required claim: sub")

  unfoldable pub verify_token : Option String → Result Fields
  unfolding decode check_payload
  verify_token none = err (token_invalid "missing token")
  verify_token (some token) =
      if truthy token then decode token >>= check_payload else err (token_invalid "missing token")
