-- ===== src/Token/Header.antt =====
-- api/deps.py and api/deps_audit.py: the token of an Authorization header, and what its bearer may.
use Prim.Native.Char.{code}
use Prim.Native.String.{[] as nil, ◌∷◌ as cons}
use omnibioai_security_audit.Prelude.{
  ℕ, ◌+◌, String, ◌==◌, ◌==ℕ◌, leb, partition, truthy, Bool, true, false, not, ◌&&◌, ◌||◌, Option,
  none, some, if◌then◌else◌,
}
use omnibioai_security_audit.Python.{Exn, Result, ok, err, ◌>>=◌}
use omnibioai_security_audit.Python.Json.{Fields, get}
use omnibioai_security_audit.Library.{Library}
use omnibioai_security_audit.Query.Access.{AuditAccess, http_error, listed_in, access_of}
use omnibioai_security_audit.Token.{Jwt, verify_token}

-- `str.lower` on the ASCII letters; no other character becomes a letter of "bearer ".
unfoldable pub lower : ℕ → ℕ
lower c = if leb b'A' c && leb c b'Z' then c + 32 else c

-- `s.lower().startswith(t)`, for a text `t` of lower-case ASCII characters
unfoldable pub starts_with_lower : String → String → Bool
unfolding lower
starts_with_lower s nil = true
starts_with_lower nil (cons d t) = false
starts_with_lower (cons c s) (cons d t) = lower (code c) ==ℕ code d && starts_with_lower s t

-- `str.isspace` of one character
unfoldable pub is_space : ℕ → Bool
is_space c =
    (leb 9 c && leb c 13)
    || (leb 28 c && leb c 32)
    || c ==ℕ 133
    || c ==ℕ 160
    || c ==ℕ 5760
    || (leb 8192 c && leb c 8202)
    || c ==ℕ 8232
    || c ==ℕ 8233
    || c ==ℕ 8239
    || c ==ℕ 8287
    || c ==ℕ 12288

unfoldable pub strip_left : String → String
unfolding is_space
strip_left nil = nil
strip_left (cons c s) = let rest = strip_left s in if is_space (code c) then rest else cons c s

unfoldable pub strip_right : String → String
unfolding is_space
strip_right nil = nil
strip_right (cons c s) =
    let rest = strip_right s in if is_space (code c) && not (truthy rest) then nil else cons c rest

-- `authorization.split(" ", 1)[1].strip()`
unfoldable pub token_of : String → String
unfolding strip_left strip_right
token_of authorization = strip_right (strip_left (partition b' ' authorization).2)

abbrev pub missing_header : Exn
missing_header = http_error "401" "Missing or malformed Authorization header"

-- `except TokenInvalid as e`
unfoldable pub as_unauthorized : Result Fields → Result Fields
as_unauthorized (ok payload) = ok payload
as_unauthorized (err e) =
    if e.kind == "TokenInvalid" then err (http_error "401" e.message) else err e

module _ {K : Type 0} (lib : Library) (jwt : Jwt K) where
  unfoldable pub bearer_payload : Option String → Result Fields
  unfolding starts_with_lower token_of as_unauthorized
  bearer_payload none = err missing_header
  bearer_payload (some authorization) =
      if truthy authorization && starts_with_lower authorization "bearer "
      then as_unauthorized (verify_token lib jwt (some (token_of authorization)))
      else err missing_header

  unfoldable pub require_audit_read_access : Option String → Result AuditAccess
  require_audit_read_access authorization =
      bearer_payload authorization >>= access_of lib jwt.is_zero

  unfoldable pub check_admin : Fields → Result Fields
  check_admin payload = do
    admin ← listed_in lib jwt.is_zero "platform_admin" (get "roles" payload)
    if admin then ok payload else err (http_error "403" "Platform admin role required")

  unfoldable pub require_platform_admin : Option String → Result Fields
  unfolding check_admin
  require_platform_admin authorization = bearer_payload authorization >>= check_admin
