-- ===== src/Config.antt =====
-- audit/config.py: the settings that the other modules read, and the key for stored rows.
pub mod Policy
use Prim.Native.Char.{code}
use Prim.Native.String.{[], ◌∷◌, len, count}
use omnibioai_security_audit.Prelude.{
  ℕ, String, ◌==ℕ◌, leb, ltb, truthy, Bool, true, not, ◌&&◌, ◌||◌, Option, none, some,
  if◌then◌else◌,
}
use omnibioai_security_audit.Python.{Exn, Result, ok, err, ◌>>=◌, ◌>>◌}
use omnibioai_security_audit.Crypto.{compare_digest}

-- Times are in milliseconds.
pub record AuditConfig : Type 0 where
  pub consumer_group : String
  pub consumer_name : String
  pub pel_min_idle_ms : ℕ
  pub pel_max_deliveries : ℕ
  pub pel_sweep_batch : ℕ
  pub worker_auto_recreate_stream_on_nogroup : Bool
  pub worker_nogroup_retry_backoff : ℕ
  pub event_signing_secret : String
  pub record_integrity_key : Option String
  pub record_integrity_key_id : Option String

-- [A-Za-z0-9._-]
unfoldable pub is_key_id_char : ℕ → Bool
is_key_id_char c =
    (leb b'A' c && leb c b'Z')
    || (leb b'a' c && leb c b'z')
    || (leb b'0' c && leb c b'9')
    || c ==ℕ b'.'
    || c ==ℕ b'_'
    || c ==ℕ b'-'

unfoldable pub all_key_id_chars : String → Bool
unfolding is_key_id_char
all_key_id_chars [] = true
all_key_id_chars (c ∷ s) = is_key_id_char (code c) && all_key_id_chars s

-- re.fullmatch(r"[A-Za-z0-9._-]{1,64}", s)
unfoldable pub is_key_id : String → Bool
unfolding all_key_id_chars
is_key_id s = all_key_id_chars s && leb 1 (count s) && leb (count s) 64

abbrev pub runtime_error : String → Exn
runtime_error m = record { kind = "RuntimeError"; message = m }

abbrev pub missing_key : Exn
missing_key = runtime_error "a 256-bit audit record integrity key and key ID are required"

abbrev pub bad_key_id : Exn
bad_key_id = runtime_error "audit record integrity key ID has invalid format"

abbrev pub dependent_key : Exn
dependent_key =
    runtime_error "audit record integrity key must be independent from event/JWT signing material"

-- The third test: the key is refused if it is the secret that signs events.
unfoldable pub check_independent : String → String → Result (Unit {0})
check_independent key secret =
    if truthy secret
    then (do same ← compare_digest key secret; if same then err dependent_key else ok tt)
    else ok tt

unfoldable pub check_key : String → String → String → Result (String × String)
check_key key key_id secret =
    if not (truthy key) || not (truthy key_id) || ltb (len key) 32
    then err missing_key
    else if not (is_key_id key_id)
    then err bad_key_id
    else do check_independent key secret; ok (key, key_id)

unfoldable pub require_record_integrity_key : AuditConfig → Result (String × String)
unfolding check_key
require_record_integrity_key cfg = elim cfg.record_integrity_key [
  | none ↦ err missing_key
  | some key ↦ elim cfg.record_integrity_key_id [
    | none ↦ err missing_key
    | some key_id ↦ check_key key key_id cfg.event_signing_secret
  ]
]
