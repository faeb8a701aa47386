-- ===== src/Crypto.antt =====
-- The standard library's SHA-256 and HMAC-SHA256, which the program calls and does not implement.
use Prim.Native.Char.{code}
use Prim.Native.String.{[], ◌∷◌}
use omnibioai_security_audit.Prelude.{
  ℕ, ◌≡◌, String, ◌==◌, truthy, Bool, true, ◌&&◌, List, ltb, if◌then◌else◌,
}
use omnibioai_security_audit.Python.{Result, ok, err}

pub record Crypto : Type 0 where
  -- `hashlib.sha256(s.encode()).digest()`
  pub sha256 : String → List ℕ
  -- `hmac.new(key, message.encode(), hashlib.sha256).hexdigest()`
  pub hexdigest : List ℕ → String → String

-- `s.isascii()`
unfoldable pub is_ascii : String → Bool
is_ascii [] = true
is_ascii (c ∷ s) = ltb (code c) 128 && is_ascii s

-- A hexadecimal digest is ASCII, and is not empty.
pub record IsHex (c : Crypto) : Type 0 where
  pub is_ascii-hexdigest :
      (key : List ℕ) (message : String) → is_ascii (c.hexdigest key message) ≡ true
  pub truthy-hexdigest : (key : List ℕ) (message : String) → truthy (c.hexdigest key message) ≡ true

-- Collision resistance. Keys of HMAC are only compared when both are SHA-256 digests, which have one
-- length: of other keys HMAC pads the short ones and hashes the long ones.
pub record IsCollisionFree (c : Crypto) : Type 0 where
  pub sha256_inj : (s t : String) → c.sha256 s ≡ c.sha256 t → s ≡ t
  pub hexdigest_inj :
      (a b s t : String)
      → c.hexdigest (c.sha256 a) s ≡ c.hexdigest (c.sha256 b) t
      → (c.sha256 a ≡ c.sha256 b) × (s ≡ t)

-- `hmac.compare_digest(a, b)` on two texts: it raises unless both are ASCII.
unfoldable pub compare_digest : String → String → Result Bool
compare_digest a b =
    if is_ascii a && is_ascii b
    then ok (a == b)
    else err (record {
      kind = "TypeError";
      message = "comparing strings with non-ASCII characters is not supported";
    })
