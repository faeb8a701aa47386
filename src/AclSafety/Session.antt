-- ===== src/AclSafety/Session.antt =====
-- scripts/redis_acl_safety.py: a connection that is authenticated, and the session on it.
use omnibioai_security_audit.Prelude.{
  ℕ, String, ◌==◌, ◌<>◌, Bool, true, false, ◌==ℕ◌, List, [], ◌∷◌, if◌then◌else◌,
}
use omnibioai_security_audit.Python.{Exn, err}
use omnibioai_security_audit.Python.Exec.{Exec, pure, lift, attempt, ◌>>◌}
use omnibioai_security_audit.AclSafety.Command.{Strings, Argument, str, is_safety_error}
use omnibioai_security_audit.AclSafety.Connection.{
  Client, Reply, text, truth, null, other, is_text, Wire, open_client, execute, close_client,
}
use omnibioai_security_audit.AclSafety.Environment.{
  RedisEnvironment, production, CommandGate, production_validator, authorize, unclassified,
  production_port,
}

abbrev pub auth_failed : String → Exn
auth_failed message = record { kind = "AuthenticationFailedError"; message = message }

abbrev pub mismatch : String → Exn
mismatch message = record { kind = "IdentityMismatchError"; message = message }

-- `AuthenticatedSession`, whose client is the connection of the wire.
pub record Session : Type 0 where
  pub environment : RedisEnvironment
  pub gate : CommandGate
  pub closed : Bool

-- `ok is True or ok == "OK"`
unfoldable pub accepted : Reply → Bool
accepted (text t) = t == "OK"
accepted (truth b) = b
accepted null = false
accepted (other t) = false

-- `{actual!r}`
unfoldable pub shown_reply : Strings → Reply → String
shown_reply strings (text t) = strings.repr t
shown_reply strings (truth true) = "True"
shown_reply strings (truth false) = "False"
shown_reply strings null = "None"
shown_reply strings (other t) = t

abbrev pub whoami : List Argument
whoami = str "ACL" ∷ str "WHOAMI" ∷ []

module _ {S : Type 0} (strings : Strings) (client : Client S) where
  unfoldable pub auth_error : String → Exn → Exn
  unfolding ◌<>◌
  auth_error expected e =
      if client.is_authentication_error e
      then auth_failed ("AUTH failed for expected identity " <> strings.repr expected)
      else if client.is_redis_error e
      then auth_failed
          ("AUTH did not succeed for expected identity " <> strings.repr expected <> ": " <> e.kind)
      else e

  unfoldable pub whoami_error : String → Exn → Exn
  unfolding ◌<>◌
  whoami_error expected e =
      if client.is_redis_error e
      then mismatch
          ("could not confirm identity for expected " <> strings.repr expected <> ": " <> e.kind)
      else e

  -- `raise` of a RedisSafetyError, and what every other exception is turned into.
  unfoldable pub as_safety_error : String → Exn → Exn
  unfolding ◌<>◌
  as_safety_error expected e =
      if is_safety_error e
      then e
      else auth_failed
          ("unexpected error establishing identity for " <> strings.repr expected <> ": " <> e.kind)

  unfoldable pub check_identity : String → Reply → Exec (Wire S) (Unit {0})
  unfolding ◌<>◌
  check_identity expected actual =
      if is_text expected actual
      then pure tt
      else lift (
          err (
            mismatch (
              "expected identity "
              <> strings.repr expected
              <> ", ACL WHOAMI reported "
              <> shown_reply strings actual)))

  -- Between a reply to AUTH and the session.
  unfoldable pub confirm : CommandGate → String → Exec (Wire S) (Unit {0})
  confirm gate expected = do
    lift (authorize strings gate whoami)
    attempt (execute client whoami) (check_identity expected)
        (λ e. lift (err (whoami_error expected e)))

  unfoldable pub after_auth : CommandGate → String → Reply → Exec (Wire S) (Unit {0})
  unfolding ◌<>◌
  after_auth gate expected reply =
      if accepted reply
      then confirm gate expected
      else lift (
          err (
            auth_failed (
              "AUTH returned an unexpected result for expected identity "
              <> strings.repr expected)))

  unfoldable pub login : CommandGate → String → String → String → Exec (Wire S) (Unit {0})
  login gate username password expected =
      attempt (execute client (str "AUTH" ∷ str username ∷ str password ∷ []))
        (after_auth gate expected) (λ e. lift (err (auth_error expected e)))

  unfoldable pub close_and_raise : String → Exn → Exec (Wire S) Session
  close_and_raise expected e = close_client client >> lift (err (as_safety_error expected e))

  unfoldable pub authenticate :
      String → ℕ → String → String → String → CommandGate → RedisEnvironment → Exec (Wire S) Session
  authenticate host port username password expected gate environment =
      attempt (open_client client host port)
        (λ _.
          attempt (login gate username password expected)
            (λ _. pure (record { environment = environment; gate = gate; closed = false }))
            (close_and_raise expected))
        (λ e. lift (err (as_safety_error expected (auth_error expected e))))

  -- `shown` is the port in decimal.
  unfoldable pub authenticate_production :
      (ℕ → String) → String → ℕ → String → String → String → Exec (Wire S) Session
  unfolding ◌<>◌
  authenticate_production shown host port username password expected =
      if port ==ℕ production_port
      then authenticate host port username password expected production_validator production
      else lift (
          err (
            unclassified (
              "authenticate_production requires port 6380; got "
              <> shown port
              <> ". Use authenticate() directly with an explicit gate for any other target.")))

  -- `session.run(*args)`
  unfoldable pub run_command : Session → List Argument → Exec (Wire S) Reply
  run_command session args =
      if session.closed
      then lift (
          err (record {
            kind = "RedisSafetyError";
            message = "cannot run a command on a closed session";
          }))
      else (do lift (authorize strings session.gate args); execute client args)

  -- `session.close()`
  unfoldable pub close_session : Session → Exec (Wire S) Session
  close_session session =
      if session.closed
      then pure session
      else attempt (close_client client) (λ _. pure (record session { closed = true }))
          (λ e. pure (record session { closed = true }))
