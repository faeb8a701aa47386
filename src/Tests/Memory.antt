-- ===== src/Tests/Memory.antt =====
-- A Redis with one entry and a database, in memory, that keep the promises of their interfaces.
use omnibioai_security_audit.Prelude.{
  ℕ, zero, suc, ◌≡◌, ◌≢◌, refl, arith, eq_iff, String, ◌==◌, Bool, true, false, not, ◌||◌, List, [],
  ◌∷◌, Option, none, some, lookup, insert, lookup-insert, All, Dict, if◌then◌else◌,
}
use omnibioai_security_audit.Python.{ok, ok-inj}
use omnibioai_security_audit.Storage.{Database, IsAppendOnly, Commit, committed, integrity_error}
use omnibioai_security_audit.Storage.Rows.{AuditEventRecord, QuarantinedAuditEvent}
use omnibioai_security_audit.Stream
use omnibioai_security_audit.Stream.{Redis, Entry, PendingEntry}
use omnibioai_security_audit.Worker.Accounted.{IsReliable, IsDelivered}

-- The stream with the entry 1-0: how often it was delivered, and what was acknowledged.
pub record Server : Type 0 where
  pub deliveries : ℕ
  pub acked : List String

unfoldable pub is_acked : String → List String → Bool
is_acked i [] = false
is_acked i (j ∷ js) = i == j || is_acked i js

abbrev pub entry : Entry
entry = ("data", "{}") ∷ []

abbrev pub content : String → Option Entry
content i = if i == "1-0" then some entry else none

abbrev pub the_message : Stream.Message
the_message = ("1-0", entry)

abbrev pub deliver : Bool → List Stream.Message
deliver true = the_message ∷ []
deliver false = []

abbrev new : ℕ → Bool
new zero = true
new (suc n) = false

abbrev pub server : Redis Server
server = record {
  xgroup_create = λ s. (ok tt, s);
  xreadgroup = λ c s. (
    ok (("omnibioai:audit", deliver (new s.deliveries)) ∷ []),
    record s { deliveries = suc s.deliveries },
  );
  xack = λ j s. (ok tt, record s { acked = j ∷ s.acked });
  xpending_range = λ n t s. (
    ok (
        if is_acked "1-0" s.acked
        then []
        else record { message_id = "1-0"; times_delivered = s.deliveries } ∷ []),
    s,
  );
  xrange = λ j s. (ok (deliver (j == "1-0")), s);
  xclaim =
      λ c t ids s. (ok (deliver (is_acked "1-0" ids)), record s { deliveries = suc s.deliveries });
  owes = λ i s. not (is_acked i s.acked);
}

deliver-IsDelivered : (b : Bool) → All (IsDelivered content) (deliver b)
deliver-IsDelivered true = (refl, tt)
deliver-IsDelivered false = tt

is_acked-other :
    (j i : String) (js : List String)
    → not (is_acked i js) ≡ true
    → i ≢ j
    → not (is_acked i (j ∷ js)) ≡ true
unfolding is_acked
is_acked-other j i js h other = ground (arith, eq_iff i j)

pub server-IsReliable : IsReliable server content
server-IsReliable = record {
  create_owes = λ i s h. h;
  read_owes = λ c i s h. h;
  pending_owes = λ n t i s h. h;
  range_owes = λ j i s h. h;
  claim_owes = λ c t ids i s h. h;
  ack_owes = λ j i s other owed. is_acked-other j i s.acked owed other;
  read_delivers = λ c s l h. rw (← ok-inj h) (deliver-IsDelivered (new s.deliveries), tt);
  claim_delivers = λ c t ids s l h. rw (← ok-inj h) (deliver-IsDelivered (is_acked "1-0" ids));
}

pub record Tables : Type 0 where
  pub events : Dict AuditEventRecord
  pub quarantined : Dict QuarantinedAuditEvent

module _ {V : Type 0} where
  -- An insert under a primary key.
  unfoldable pub add : Option V → String → V → Dict V → Commit × Dict V
  add none k v d = (committed, insert k v d)
  add (some old) k v d = (integrity_error, d)

  add-committed :
      (o : Option V) (k : String) (v : V) (d : Dict V)
      → (add o k v d).0 ≡ committed
      → lookup k (add o k v d).1 ≡ some v
  unfolding add
  add-committed none k v d h = ground (arith, lookup-insert k k v d, eq_iff k k)
  add-committed (some old) k v d h = absurd (cc)

  add-taken :
      (k : String) (v : V) (d : Dict V) (o : Option V)
      → lookup k d ≡ o
      → (add o k v d).0 ≡ integrity_error
      → lookup k (add o k v d).1 ≢ none
  unfolding add
  add-taken k v d none e h = absurd (cc)
  add-taken k v d (some old) e h = λ z. cc

  add-kept :
      (k : String) (v : V) (d : Dict V) (o : Option V) (j : String) (old : V)
      → lookup k d ≡ o
      → lookup j d ≡ some old
      → lookup j (add o k v d).1 ≡ some old
  unfolding add
  add-kept k v d none j old e h = ground (arith, lookup-insert k j v d, eq_iff k j)
  add-kept k v d (some x) j old e h = h

abbrev pub memory : Database Tables
memory = record {
  add_event = λ r d.
      let (c, es) = add (lookup r.event_id d.events) r.event_id r d.events in
      (c, record d { events = es });
  add_quarantined = λ q d.
      let (c, qs) =
        add (lookup q.stream_message_id d.quarantined) q.stream_message_id q d.quarantined in
      (c, record d { quarantined = qs });
  event_at = λ k d. lookup k d.events;
  quarantined_at = λ k d. lookup k d.quarantined;
}

pub memory-IsAppendOnly : IsAppendOnly memory
memory-IsAppendOnly = record {
  committed_event = λ r d h. add-committed (lookup r.event_id d.events) r.event_id r d.events h;
  taken_event = λ r d h. add-taken r.event_id r d.events _ refl h;
  kept_event = λ r d k old h. add-kept r.event_id r d.events _ k old refl h;
  kept_quarantined = λ r d k old h. h;
  committed_quarantined = λ q d h.
      add-committed (lookup q.stream_message_id d.quarantined) q.stream_message_id q d.quarantined
        h;
  taken_quarantined = λ q d h. add-taken q.stream_message_id q d.quarantined _ refl h;
  kept_event_q = λ q d k old h. h;
  kept_quarantined_q = λ q d k old h. add-kept q.stream_message_id q d.quarantined _ k old refl h;
}
