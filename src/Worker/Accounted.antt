-- ===== src/Worker/Accounted.antt =====
-- No entry of the stream gets lost: the group owes it still, or it is durable evidence.
pub mod Reader
pub mod Tables
pub mod Messages
pub mod Run
use omnibioai_security_audit.Prelude.{
  ℕ, zero, suc, ◌≡◌, ◌≢◌, ◌⊎◌, inl, inr, refl, sym, ◌∙◌, ap, String, ◌==◌, Bool, true, false, List,
  [], ◌∷◌, Option, none, some, All, arith, eq_iff, Bool-cases, Option-cases,
}
use omnibioai_security_audit.Python.{Exn, Result, ok, err}
use omnibioai_security_audit.Python.Exec.{Exec, attempt, pure, ◌>>=◌}
use omnibioai_security_audit.Python.Exec.Keeps.{
  Keeps, Keeps-pure, Keeps-lift, Keeps-gets, Keeps-if, Keeps-attempt, Keeps-attempt_value,
}
use omnibioai_security_audit.Event.{AuditEvent}
use omnibioai_security_audit.Quarantine
use omnibioai_security_audit.Sink
use omnibioai_security_audit.Storage.{
  Database, IsAppendOnly, Commit, committed, integrity_error, failed,
}
use omnibioai_security_audit.Stream
use omnibioai_security_audit.Stream.{
  Redis, Entry, PoisonEntry, ensure_group, read_group, ack, fetch_poison, claim, claim_entries,
  claim_stale,
}
use omnibioai_security_audit.Worker.World.{Env, World, on_stream, on_tables, draw, raise_alert}
use omnibioai_security_audit.Worker.Message.{parse_entry, ack_message}

-- A message carries the immutable fields of its entry.
abbrev pub IsDelivered : (String → Option Entry) → Stream.Message → Type 0
IsDelivered content (i, fields) = content i ≡ some fields

-- What the worker relies on of Redis: an entry that the group owes stays owed, whatever command is
-- sent and however it ends, until that entry itself is acknowledged; and the messages that are
-- delivered carry the fields that were appended. (No entry is trimmed before it is acknowledged.)
pub record IsReliable {R : Type 0} (redis : Redis R) (content : String → Option Entry)
    : Type 0 where
  pub create_owes :
      (i : String) (s : R) → redis.owes i s ≡ true → redis.owes i (redis.xgroup_create s).1 ≡ true
  pub read_owes :
      (c i : String) (s : R) → redis.owes i s ≡ true → redis.owes i (redis.xreadgroup c s).1 ≡ true
  pub pending_owes :
      (n t : ℕ) (i : String) (s : R)
      → redis.owes i s ≡ true
      → redis.owes i (redis.xpending_range n t s).1 ≡ true
  pub range_owes :
      (j i : String) (s : R) → redis.owes i s ≡ true → redis.owes i (redis.xrange j s).1 ≡ true
  pub claim_owes :
      (c : String) (t : ℕ) (ids : List String) (i : String) (s : R)
      → redis.owes i s ≡ true
      → redis.owes i (redis.xclaim c t ids s).1 ≡ true
  pub ack_owes :
      (j i : String) (s : R)
      → i ≢ j
      → redis.owes i s ≡ true
      → redis.owes i (redis.xack j s).1 ≡ true
  pub read_delivers :
      (c : String) (s : R) (l : List (String × List Stream.Message))
      → (redis.xreadgroup c s).0 ≡ ok l
      → All (λ x. All (IsDelivered content) x.1) l
  pub claim_delivers :
      (c : String) (t : ℕ) (ids : List String) (s : R) (l : List Stream.Message)
      → (redis.xclaim c t ids s).0 ≡ ok l
      → All (IsDelivered content) l

module _ {R D : Type 0} (env : Env R D) (content : String → Option Entry) where
  -- The durable evidence of an entry: the row of the event that its fields parse to, or its
  -- quarantine record.
  pub data IsStored (i : String) (d : D) : Type 0 where
    persisted :
        (fields : Entry) (n : ℕ) (event : AuditEvent)
        → content i ≡ some fields
        → parse_entry env n fields ≡ ok event
        → env.db.event_at event.event_id d ≢ none
        → IsStored i d
    quarantined : env.db.quarantined_at i d ≢ none → IsStored i d

  abbrev pub IsAccounted : String → World R D → Type 0
  IsAccounted i w = (env.redis.owes i w.stream ≡ true) ⊎ IsStored i w.tables
