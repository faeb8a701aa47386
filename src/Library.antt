-- ===== src/Library.antt =====
-- What the program uses of Python's library and of pydantic, as parameters of the model.
use omnibioai_security_audit.Prelude.{ℕ, String}
use omnibioai_security_audit.Python.{Result}
use omnibioai_security_audit.Python.Time.{DateTime}
use omnibioai_security_audit.Python.Json.{Json, Fields}
use omnibioai_security_audit.Crypto.{Crypto}
use omnibioai_security_audit.Event.Raw.{RawEvent}

pub record Library : Type 0 where
  -- hashlib and hmac
  pub crypto : Crypto
  -- `json.loads(s)`
  pub loads : String → Result Json
  -- `json.dumps(v, sort_keys=True, default=str, separators=(",", ":"))`
  pub dumps : Json → Result String
  -- `d.isoformat()`
  pub isoformat : DateTime → String
  -- `str(n)`, `str(d)`, `str(v)`
  pub str_int : ℕ → String
  pub str_time : DateTime → String
  pub str_json : Json → String
  -- The fields of `AuditEvent(**payload)`, converted and checked by pydantic against their types.
  pub coerce : Fields → Result RawEvent
