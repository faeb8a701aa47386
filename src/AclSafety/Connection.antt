-- ===== src/AclSafety/Connection.antt =====
-- A redis-py client with `single_connection_client=True`, and the log of what is done with it.
use omnibioai_security_audit.Prelude.{ℕ, String, ◌==◌, Bool, false, List, ◌∷◌}
use omnibioai_security_audit.Python.{Exn, Result, ok, err}
use omnibioai_security_audit.Python.Exec.{Exec}
use omnibioai_security_audit.AclSafety.Command.{Argument}

-- A reply: a text, `True` or `False`, None, or another value with its `repr`.
pub data Reply : Type 0 where
  text : String → Reply
  truth : Bool → Reply
  null : Reply
  other : String → Reply

unfoldable pub is_text : String → Reply → Bool
is_text s (text t) = t == s
is_text s (truth b) = false
is_text s null = false
is_text s (other t) = false

-- The client, over the states `S` of the servers it talks to.
pub record Client (S : Type 0) : Type 0 where
  pub connect : String → ℕ → Exec S (Unit {0})
  pub execute_command : List Argument → Exec S Reply
  pub close : Exec S (Unit {0})
  -- The exceptions under redis.RedisError, and under redis.AuthenticationError.
  pub is_redis_error : Exn → Bool
  pub is_authentication_error : Exn → Bool

-- What was done with a connection, the latest first.
pub data Op : Type 0 where
  opened refused closed : Op
  sent : List Argument → Op

pub record Wire (S : Type 0) : Type 0 where
  pub server : S
  pub log : List Op

unfoldable pub opening : Result (Unit {0}) → Op
opening (ok u) = opened
opening (err e) = refused

module _ {S : Type 0} (client : Client S) where
  unfoldable pub open_client : String → ℕ → Exec (Wire S) (Unit {0})
  open_client host port w =
      let (r, s) = client.connect host port w.server in
      (r, record { server = s; log = opening r ∷ w.log })

  unfoldable pub execute : List Argument → Exec (Wire S) Reply
  execute args w =
      let (r, s) = client.execute_command args w.server in
      (r, record { server = s; log = sent args ∷ w.log })

  unfoldable pub close_client : Exec (Wire S) (Unit {0})
  close_client w =
      let (r, s) = client.close w.server in (r, record { server = s; log = closed ∷ w.log })
