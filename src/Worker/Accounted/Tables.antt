-- ===== src/Worker/Accounted/Tables.antt =====
-- The sinks take no durable evidence away, and what they report as written is there.
use omnibioai_security_audit.Prelude.{
  ℕ, ◌≡◌, ◌≢◌, refl, sym, ◌∙◌, ap, String, Bool, Option, none, some, arith,
}
use omnibioai_security_audit.Python.{Result, ok, err, >>=-eq-ok, ok-inj}
use omnibioai_security_audit.Config.{AuditConfig, require_record_integrity_key}
use omnibioai_security_audit.Library.{Library}
use omnibioai_security_audit.Quarantine
use omnibioai_security_audit.RecordIntegrity.{
  compute_audit_event_hash, compute_quarantine_record_hash,
}
use omnibioai_security_audit.Sink
use omnibioai_security_audit.Storage.{Database, IsAppendOnly}
use omnibioai_security_audit.Storage.Rows.{AuditEventRecord, QuarantinedAuditEvent}
use omnibioai_security_audit.Stream.{Entry}
use omnibioai_security_audit.RecordIntegrity.Message.{to_naive_utc}

some-ne_none {ℓ} : {A : Type ℓ} {a : A} {o : Option A} → o ≡ some a → o ≢ none
some-ne_none e h = cc

module _ (lib : Library) (cfg : AuditConfig) {D : Type 0} (db : Database D)
    (durable : IsAppendOnly db) where
  build_row-event_id :
      (p : Sink.Payload) (row : AuditEventRecord)
      → Sink.build_row lib cfg p ≡ ok row
      → row.event_id ≡ p.event.event_id
  unfolding Sink.build_row
  build_row-event_id p row h =
      let (keys, ek, h1) = >>=-eq-ok (require_record_integrity_key cfg) _ h in
      let (bare, eb, h2) = >>=-eq-ok (Sink.unhashed_row lib cfg p) _ h1 in
      let (hash, eh, h3) =
        >>=-eq-ok (compute_audit_event_hash lib (Sink.event_record bare) keys.0 (some keys.1)) _
          h2 in
      let (t, et, h4) = >>=-eq-ok (to_naive_utc p.event.timestamp) _ eb in
      sym (ap (λ r. r.event_id) (ok-inj h3)) ∙ sym (ap (λ r. r.event_id) (ok-inj h4))

  sink_row-stored :
      (r : Result AuditEventRecord) (k : String) (d : D) (b : Bool)
      → ((row : AuditEventRecord) → r ≡ ok row → row.event_id ≡ k)
      → (Sink.write_row lib cfg db r d).0 ≡ ok b
      → db.event_at k (Sink.write_row lib cfg db r d).1 ≢ none
  unfolding Sink.write_row
  sink_row-stored (err e) k d b same h = absurd (cc)
  sink_row-stored (ok row) k d b same h =
      rw (← same row refl)
        (ground (arith, durable.committed_event row d, durable.taken_event row d))

  -- On an append-only database, a write of the sink that ends well, by a commit or on a duplicate
  -- key, leaves a row under the event's identifier.
  pub sink_write-stored :
      (p : Sink.Payload) (d : D) (b : Bool)
      → (Sink.write lib cfg db p d).0 ≡ ok b
      → db.event_at p.event.event_id (Sink.write lib cfg db p d).1 ≢ none
  unfolding Sink.write
  sink_write-stored p d b h =
      sink_row-stored (Sink.build_row lib cfg p) p.event.event_id d b (build_row-event_id p) h

  sink_row-kept :
      (r : Result AuditEventRecord) (d : D) (k : String) (old : AuditEventRecord)
      → db.event_at k d ≡ some old
      → db.event_at k (Sink.write_row lib cfg db r d).1 ≡ some old
  unfolding Sink.write_row
  sink_row-kept (err e) d k old h = h
  sink_row-kept (ok row) d k old h = ground (arith, durable.kept_event row d k old)

  sink_row-kept_q :
      (r : Result AuditEventRecord) (d : D) (k : String) (old : QuarantinedAuditEvent)
      → db.quarantined_at k d ≡ some old
      → db.quarantined_at k (Sink.write_row lib cfg db r d).1 ≡ some old
  unfolding Sink.write_row
  sink_row-kept_q (err e) d k old h = h
  sink_row-kept_q (ok row) d k old h = ground (arith, durable.kept_quarantined row d k old)

  -- No write takes a row away or alters it.
  pub sink_write-kept :
      (p : Sink.Payload) (d : D) (k : String) (old : AuditEventRecord)
      → db.event_at k d ≡ some old
      → db.event_at k (Sink.write lib cfg db p d).1 ≡ some old
  unfolding Sink.write
  sink_write-kept p d k old h = sink_row-kept (Sink.build_row lib cfg p) d k old h

  pub sink_write-kept_q :
      (p : Sink.Payload) (d : D) (k : String) (old : QuarantinedAuditEvent)
      → db.quarantined_at k d ≡ some old
      → db.quarantined_at k (Sink.write lib cfg db p d).1 ≡ some old
  unfolding Sink.write
  sink_write-kept_q p d k old h = sink_row-kept_q (Sink.build_row lib cfg p) d k old h

module _ (lib : Library) (cfg : AuditConfig) {D : Type 0} (db : Database D)
    (durable : IsAppendOnly db) where
  build_row-message_id :
      (i : String) (fields : Entry) (n : ℕ) (row : QuarantinedAuditEvent)
      → Quarantine.build_row lib cfg i fields n ≡ ok row
      → row.stream_message_id ≡ i
  unfolding Quarantine.build_row Quarantine.unhashed_row
  build_row-message_id i fields n row h =
      let (keys, ek, h1) = >>=-eq-ok (require_record_integrity_key cfg) _ h in
      let (hash, eh, h2) =
        >>=-eq-ok
          (compute_quarantine_record_hash lib
            (Quarantine.quarantine_record (Quarantine.unhashed_row lib cfg i fields n)) keys.0
            (some keys.1))
          _ h1 in
      sym (ap (λ r. r.stream_message_id) (ok-inj h2))

  quarantine_row-stored :
      (r : Result QuarantinedAuditEvent) (k : String) (d : D) (q : QuarantinedAuditEvent)
      → ((row : QuarantinedAuditEvent) → r ≡ ok row → row.stream_message_id ≡ k)
      → (Quarantine.write_row lib cfg db r d).0 ≡ ok q
      → db.quarantined_at k (Quarantine.write_row lib cfg db r d).1 ≢ none
  unfolding Quarantine.write_row
  quarantine_row-stored (err e) k d q same h = absurd (cc)
  quarantine_row-stored (ok row) k d q same h =
      rw (← same row refl)
        (ground (arith, durable.committed_quarantined row d, durable.taken_quarantined row d))

  -- On an append-only database, a quarantine write that ends well, by a commit or on a duplicate
  -- key, leaves a record under the message's identifier.
  pub quarantine_write-stored :
      (i : String) (fields : Entry) (n : ℕ) (d : D) (q : QuarantinedAuditEvent)
      → (Quarantine.write lib cfg db i fields n d).0 ≡ ok q
      → db.quarantined_at i (Quarantine.write lib cfg db i fields n d).1 ≢ none
  unfolding Quarantine.write
  quarantine_write-stored i fields n d q h =
      quarantine_row-stored (Quarantine.build_row lib cfg i fields n) i d q
        (build_row-message_id i fields n) h

  quarantine_row-kept :
      (r : Result QuarantinedAuditEvent) (d : D) (k : String) (old : AuditEventRecord)
      → db.event_at k d ≡ some old
      → db.event_at k (Quarantine.write_row lib cfg db r d).1 ≡ some old
  unfolding Quarantine.write_row
  quarantine_row-kept (err e) d k old h = h
  quarantine_row-kept (ok row) d k old h = ground (arith, durable.kept_event_q row d k old)

  quarantine_row-kept_q :
      (r : Result QuarantinedAuditEvent) (d : D) (k : String) (old : QuarantinedAuditEvent)
      → db.quarantined_at k d ≡ some old
      → db.quarantined_at k (Quarantine.write_row lib cfg db r d).1 ≡ some old
  unfolding Quarantine.write_row
  quarantine_row-kept_q (err e) d k old h = h
  quarantine_row-kept_q (ok row) d k old h = ground (arith, durable.kept_quarantined_q row d k old)

  pub quarantine_write-kept :
      (i : String) (fields : Entry) (n : ℕ) (d : D) (k : String) (old : AuditEventRecord)
      → db.event_at k d ≡ some old
      → db.event_at k (Quarantine.write lib cfg db i fields n d).1 ≡ some old
  unfolding Quarantine.write
  quarantine_write-kept i fields n d k old h =
      quarantine_row-kept (Quarantine.build_row lib cfg i fields n) d k old h

  pub quarantine_write-kept_q :
      (i : String) (fields : Entry) (n : ℕ) (d : D) (k : String) (old : QuarantinedAuditEvent)
      → db.quarantined_at k d ≡ some old
      → db.quarantined_at k (Quarantine.write lib cfg db i fields n d).1 ≡ some old
  unfolding Quarantine.write
  quarantine_write-kept_q i fields n d k old h =
      quarantine_row-kept_q (Quarantine.build_row lib cfg i fields n) d k old h
