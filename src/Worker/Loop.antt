-- ===== src/Worker/Loop.antt =====
-- worker/main.py: the sweep of abandoned messages, and the consumer loop.
use omnibioai_security_audit.Prelude.{
  ℕ, zero, suc, String, ◌==◌, Bool, false, not, truthy, ◌||◌, List, [], ◌∷◌, Option, none, some,
  if◌then◌else◌,
}
use omnibioai_security_audit.Python.{Exn}
use omnibioai_security_audit.Python.Exec.{Exec, pure, attempt, ◌>>=◌, ◌>>◌}
use omnibioai_security_audit.Stream.{Entry, PoisonEntry, claim_stale, read_group, ensure_group}
use omnibioai_security_audit.Stream
use omnibioai_security_audit.Worker.World.{Env, World, on_stream, sleep}
use omnibioai_security_audit.Worker.Nogroup.{is_nogroup_error, handle_nogroup}
use omnibioai_security_audit.Worker.Message.{handle_message, quarantine_and_ack}

module _ {R D : Type 0} (env : Env R D) where
  unfoldable pub quarantine_all : List PoisonEntry → Exec (World R D) (Unit {0})
  quarantine_all [] = pure tt
  quarantine_all ((message_id, fields, attempts) ∷ rest) =
      quarantine_and_ack env message_id fields attempts >>= λ _. quarantine_all rest

  unfoldable pub handle_all : List Stream.Message → Exec (World R D) (Unit {0})
  handle_all [] = pure tt
  handle_all ((message_id, fields) ∷ rest) =
      handle_message env message_id fields >>= λ _. handle_all rest

  unfoldable pub swept : List Stream.Message × List PoisonEntry → Exec (World R D) (Unit {0})
  swept (claimed, poison_entries) = do quarantine_all poison_entries; handle_all claimed

  unfoldable pub sweep_failed : Exn → Exec (World R D) (Unit {0})
  sweep_failed e =
      if is_nogroup_error e then handle_nogroup env e "pending-entry sweep" else pure tt

  unfoldable pub sweep_pending : Exec (World R D) (Unit {0})
  sweep_pending =
      attempt (on_stream (claim_stale env.redis env.cfg env.cfg.consumer_name)) swept sweep_failed

  unfoldable pub back_off : Exn → Exec (World R D) (List (String × List Stream.Message))
  back_off e = do
    handle_nogroup env e "read_group"
    sleep env.cfg.worker_nogroup_retry_backoff
    pure []

  -- `except RedisTimeoutError` stands before `except Exception`.
  unfoldable pub read_failed : Exn → Exec (World R D) (List (String × List Stream.Message))
  read_failed e =
      if e.kind == "TimeoutError"
      then pure []
      else if is_nogroup_error e
      then back_off e
      else pure []

  unfoldable pub handle_response : List (String × List Stream.Message) → Exec (World R D) (Unit {0})
  handle_response [] = pure tt
  handle_response ((stream_name, messages) ∷ rest) = do handle_all messages; handle_response rest

  unfoldable pub read_messages : Exec (World R D) (List (String × List Stream.Message))
  read_messages =
      attempt (on_stream (read_group env.redis env.cfg env.cfg.consumer_name)) pure read_failed

  unfoldable pub iteration : Exec (World R D) (Unit {0})
  iteration = do sweep_pending; response ← read_messages; handle_response response

  -- `max_iterations` rounds; production leaves it None, and is any number of rounds.
  unfoldable pub iterations : ℕ → Exec (World R D) (Unit {0})
  iterations zero = pure tt
  iterations (suc n) = do iteration; iterations n

  unfoldable pub run : ℕ → Exec (World R D) (Unit {0})
  run max_iterations = do on_stream (ensure_group env.redis env.cfg); iterations max_iterations

-- Whether the entry point may start on this JWT_SECRET.
unfoldable pub require_real_signing_secret : Option String → Bool
require_real_signing_secret none = false
require_real_signing_secret (some secret) = not (not (truthy secret) || secret == "change-me")
