-- ===== src/AclSafety/Environment.antt =====
-- scripts/redis_acl_safety.py: which environment a target is, and the gates that depend on it.
use omnibioai_security_audit.Prelude.{
  ℕ, String, ◌==◌, ◌<>◌, truthy, not, ◌||◌, ◌==ℕ◌, List, [], ◌∷◌, Option, none, some, if◌then◌else◌,
}
use omnibioai_security_audit.Python.{Exn, Result, ok, err}
use omnibioai_security_audit.Python.Exec.{Exec, pure, lift, attempt, ◌>>=◌, ◌>>◌}
use omnibioai_security_audit.AclSafety.Command.{
  Strings, Argument, str, Command, is_in, join, prohibited, dangerous_commands,
  production_allowed_commands, normalize_command,
}
use omnibioai_security_audit.AclSafety.Connection.{
  Client, Reply, is_text, Wire, open_client, execute, close_client,
}

abbrev pub production_port : ℕ
production_port = 6380

pub data RedisEnvironment : Type 0 where
  disposable production unknown : RedisEnvironment

pub record DisposableAttestation : Type 0 where
  pub host : String
  pub port : ℕ
  pub nonce_key : String
  pub nonce_value : String

abbrev pub unclassified : String → Exn
unclassified message = record { kind = "EnvironmentClassificationError"; message = message }

-- The constructor with its `__post_init__`; `shown` is the port in decimal.
unfoldable pub make_attestation :
    (ℕ → String) → String → ℕ → String → String → Result DisposableAttestation
unfolding ◌<>◌
make_attestation shown host port nonce_key nonce_value =
    if port ==ℕ production_port
    then err (
        unclassified (
          "port "
          <> shown port
          <> " is this architecture's shared, production-adjacent Redis port -- refusing to attest any endpoint on it as disposable, regardless of other evidence"))
    else if not (truthy host)
    then err (unclassified "attestation requires a non-empty host")
    else if not (truthy nonce_key) || not (truthy nonce_value)
    then err (
        unclassified
          "attestation requires a non-empty nonce_key/nonce_value pair -- an empty nonce proves nothing")
    else ok (record { host = host; port = port; nonce_key = nonce_key; nonce_value = nonce_value })

-- Which of the three concrete gates a session has.
pub data CommandGate : Type 0 where
  production_validator disposable_validator negative_test_gate : CommandGate

abbrev pub dangerous : String → Exn
dangerous message = record { kind = "DangerousCommandError"; message = message }

module _ (strings : Strings) where
  unfoldable pub permit : CommandGate → Command → Result (Unit {0})
  unfolding ◌<>◌
  permit production_validator cmd =
      if is_in cmd dangerous_commands
      then err (
          dangerous (
            "command "
            <> strings.repr (join cmd)
            <> " is unconditionally prohibited in production validation"))
      else if not (is_in cmd production_allowed_commands)
      then err (
          prohibited (
            "command "
            <> strings.repr (join cmd)
            <> " is not on the production validation allowlist ['ACL WHOAMI', 'INFO', 'PING']"))
      else ok tt
  permit disposable_validator cmd =
      if is_in cmd dangerous_commands
      then err (
          dangerous (
            "command "
            <> strings.repr (join cmd)
            <> " is on the hard denylist; use DisposableNegativeTestGate if a test specifically needs to prove Redis's own ACL denies this command to a restricted identity"))
      else ok tt
  permit negative_test_gate cmd = ok tt

  unfoldable pub permit_normalized : CommandGate → Result Command → Result (Unit {0})
  permit_normalized gate (err e) = err e
  permit_normalized gate (ok cmd) = permit gate cmd

  -- `gate.authorize(args)`
  unfoldable pub authorize : CommandGate → List Argument → Result (Unit {0})
  authorize gate args = permit_normalized gate (normalize_command strings args)

module _ {S : Type 0} (client : Client S) where
  -- `finally: probe.close()` with every exception of it dropped.
  unfoldable pub close_quietly : Exec (Wire S) (Unit {0})
  close_quietly = attempt (close_client client) pure (λ e. pure tt)

  unfoldable pub probe_failed : Exn → Exn
  unfolding ◌<>◌
  probe_failed e =
      if client.is_redis_error e
      then unclassified (
          "could not independently verify disposable attestation: probe connection/command failed ("
          <> e.kind <> ")")
      else e

  -- `GET nonce_key` on a connection of its own.
  unfoldable pub probe : String → ℕ → String → Exec (Wire S) Reply
  probe host port nonce_key =
      attempt (open_client client host port)
        (λ _.
          attempt (execute client (str "GET" ∷ str nonce_key ∷ []))
            (λ got. close_quietly >> pure got) (λ e. close_quietly >> lift (err (probe_failed e))))
        (λ e. lift (err (probe_failed e)))

  unfoldable pub compare_nonce : String → Reply → Exec (Wire S) RedisEnvironment
  compare_nonce nonce_value got =
      if is_text nonce_value got
      then pure disposable
      else lift (
          err (
            unclassified
              "disposable attestation nonce did not match the value actually stored on the live instance -- refusing to classify as DISPOSABLE"))

  -- The branches of a target that is not on the production port.
  unfoldable pub classify_attested :
      String → ℕ → Option DisposableAttestation → Exec (Wire S) RedisEnvironment
  classify_attested host port none = pure unknown
  classify_attested host port (some attestation) =
      if not (attestation.host == host) || not (attestation.port ==ℕ port)
      then lift (
          err (
            unclassified
              "attestation host/port do not match the target host/port -- refusing to trust an attestation for a different endpoint than the one being classified"))
      else (probe host port attestation.nonce_key >>= compare_nonce attestation.nonce_value)

  unfoldable pub classify_environment :
      String → ℕ → Option DisposableAttestation → Exec (Wire S) RedisEnvironment
  classify_environment host port attestation =
      if port ==ℕ production_port then pure production else classify_attested host port attestation

  unfoldable pub require_disposable :
      String → CommandGate → RedisEnvironment → Exec (Wire S) CommandGate
  require_disposable message gate disposable = pure gate
  require_disposable message gate production = lift (err (unclassified message))
  require_disposable message gate unknown = lift (err (unclassified message))

  -- `DisposableValidator(...)`
  unfoldable pub make_disposable_validator :
      String → ℕ → Option DisposableAttestation → Exec (Wire S) CommandGate
  make_disposable_validator host port attestation =
      classify_environment host port attestation
      >>= require_disposable
          "DisposableValidator requires a live-verified DISPOSABLE environment; construction refused"
          disposable_validator

  -- `DisposableNegativeTestGate(...)`
  unfoldable pub make_negative_test_gate :
      String → ℕ → Option DisposableAttestation → Exec (Wire S) CommandGate
  make_negative_test_gate host port attestation =
      classify_environment host port attestation
      >>= require_disposable
          "DisposableNegativeTestGate requires a live-verified DISPOSABLE environment; construction refused"
          negative_test_gate
