-- ===== src/Worker/Message.antt =====
-- worker/main.py: one message, and one poison entry.
use omnibioai_security_audit.Prelude.{ℕ, String, Bool, true, false, lookup}
use omnibioai_security_audit.Python.{Result, ok, err}
use omnibioai_security_audit.Python.Exec.{Exec, pure, attempt, ◌>>=◌, ◌>>◌}
use omnibioai_security_audit.Event.{AuditEvent}
use omnibioai_security_audit.Processor.{parse_audit_event, classify_event_integrity}
use omnibioai_security_audit.Prelude.{some}
use omnibioai_security_audit.Quarantine
use omnibioai_security_audit.Quarantine.{quarantine_alert}
use omnibioai_security_audit.Sink
use omnibioai_security_audit.Sink.{Payload}
use omnibioai_security_audit.Stream.{Entry, ack}
use omnibioai_security_audit.Worker.World.{Env, World, on_stream, on_tables, draw, raise_alert}

module _ {R D : Type 0} (env : Env R D) where
  abbrev pub ack_message : String → Exec (World R D) (Unit {0})
  ack_message message_id = on_stream (ack env.redis env.cfg message_id)

  -- The event of an entry, with the n-th draw of the default factories.
  abbrev pub parse_entry : ℕ → Entry → Result AuditEvent
  parse_entry n fields =
      parse_audit_event env.lib (env.runtime.uuid4 n) (env.runtime.utcnow n) (lookup "data" fields)

  -- The payload that is persisted, whatever its classification.
  unfoldable pub classified : Entry → AuditEvent → Payload
  classified fields event = record {
    event = event;
    integrity_status = some (
        classify_event_integrity env.lib.crypto event.service (lookup "sig" fields)
          (lookup "data" fields) env.cfg.event_signing_secret);
  }

  -- The message is acknowledged outside the `try`, so a failure of Redis is raised.
  unfoldable pub acknowledge : String → Exec (World R D) Bool
  acknowledge message_id = do ack_message message_id; pure true

  -- A failed write leaves the message pending; a write that succeeded is acknowledged.
  unfoldable pub persist_and_ack : String → Payload → Exec (World R D) Bool
  persist_and_ack message_id payload =
      attempt (on_tables (Sink.write env.lib env.cfg env.db payload)) (λ _. acknowledge message_id)
        (λ e. pure false)

  unfoldable pub handle_parsed : String → Entry → Result AuditEvent → Exec (World R D) Bool
  handle_parsed message_id fields (err e) = pure false
  handle_parsed message_id fields (ok event) = persist_and_ack message_id (classified fields event)

  unfoldable pub handle_message : String → Entry → Exec (World R D) Bool
  handle_message message_id fields = do
    n ← draw
    handle_parsed message_id fields (parse_entry n fields)

  -- `QuarantineSink.write`: the alert goes out after the write has ended well.
  unfoldable pub quarantine : String → Entry → ℕ → Exec (World R D) (Unit {0})
  quarantine message_id fields delivery_attempts = do
    row ← on_tables (Quarantine.write env.lib env.cfg env.db message_id fields delivery_attempts)
    raise_alert env (quarantine_alert row)

  unfoldable pub quarantine_and_ack : String → Entry → ℕ → Exec (World R D) Bool
  quarantine_and_ack message_id fields delivery_attempts =
      attempt (quarantine message_id fields delivery_attempts) (λ _. acknowledge message_id)
        (λ e. pure false)
