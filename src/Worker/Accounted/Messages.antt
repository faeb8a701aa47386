-- ===== src/Worker/Accounted/Messages.antt =====
-- Handling one message, or one poison entry, loses no entry.
use omnibioai_security_audit.Prelude.{
  ℕ, ◌≡◌, ◌≢◌, inl, inr, refl, ◌∙◌, ap, String, ◌==◌, false, Option, none, some, eq_iff, Bool-cases,
}
use omnibioai_security_audit.Python.{Result, ok, err}
use omnibioai_security_audit.Python.Exec.{Exec}
use omnibioai_security_audit.Python.Exec.Keeps.{Keeps, Keeps-pure, continue_at, bind-eq-ok}
use omnibioai_security_audit.Event.{AuditEvent}
use omnibioai_security_audit.Quarantine
use omnibioai_security_audit.Sink
use omnibioai_security_audit.Storage.{IsAppendOnly}
use omnibioai_security_audit.Stream.{Entry, ack}
use omnibioai_security_audit.Worker.World.{Env, World, on_tables, draw, raise_alert}
use omnibioai_security_audit.Worker.Message.{
  parse_entry, ack_message, classified, persist_and_ack, handle_message, handle_parsed, acknowledge,
  quarantine, quarantine_and_ack,
}
use omnibioai_security_audit.Worker.Accounted.{
  IsReliable, IsStored, persisted, quarantined, IsAccounted,
}
use omnibioai_security_audit.Worker.Accounted.Tables.{
  sink_write-stored, sink_write-kept, sink_write-kept_q, quarantine_write-stored,
  quarantine_write-kept, quarantine_write-kept_q,
}

kept-ne_none {ℓ} :
    {A : Type ℓ} (o o' : Option A) → ((a : A) → o ≡ some a → o' ≡ some a) → o ≢ none → o' ≢ none
kept-ne_none none o' keep h e = h refl
kept-ne_none (some a) o' keep h e = let k = keep a refl in cc

module _ {R D : Type 0} (env : Env R D) (content : String → Option Entry)
    (reliable : IsReliable env.redis content) (durable : IsAppendOnly env.db) (i : String) where
  abbrev Accounted : World R D → Type 0
  Accounted w = IsAccounted env content i w

  IsStored-sink :
      (p : Sink.Payload) (d : D)
      → IsStored env content i d
      → IsStored env content i (Sink.write env.lib env.cfg env.db p d).1
  IsStored-sink p d (persisted fields n event c parsed there) =
      persisted fields n event c parsed
        (kept-ne_none _ _ (sink_write-kept env.lib env.cfg env.db durable p d event.event_id) there)
  IsStored-sink p d (quarantined there) =
      quarantined (kept-ne_none _ _ (sink_write-kept_q env.lib env.cfg env.db durable p d i) there)

  IsStored-quarantine :
      (j : String) (fields : Entry) (n : ℕ) (d : D)
      → IsStored env content i d
      → IsStored env content i (Quarantine.write env.lib env.cfg env.db j fields n d).1
  IsStored-quarantine j fs m d (persisted fields n event c parsed there) =
      persisted fields n event c parsed (
        kept-ne_none _ _
          (quarantine_write-kept env.lib env.cfg env.db durable j fs m d event.event_id) there)
  IsStored-quarantine j fs m d (quarantined there) =
      quarantined
        (kept-ne_none _ _ (quarantine_write-kept_q env.lib env.cfg env.db durable j fs m d i) there)

  -- An entry is acknowledged at no loss once it is stored.
  ack-Accounted :
      (j : String) (w : World R D)
      → (i ≡ j → IsStored env content i w.tables)
      → Accounted w
      → Accounted (ack_message env j w).1
  unfolding ack
  ack-Accounted j w stored (inr s) = inr s
  ack-Accounted j w stored (inl owed) = elim (Bool-cases (i == j)) [
    | inl e ↦ inr (stored ((eq_iff i j).0 e))
    | inr e ↦ inl (reliable.ack_owes j i w.stream (λ same. let t = (eq_iff i j).1 same in cc) owed)
  ]

  acknowledge-Accounted :
      (j : String) (w : World R D)
      → (i ≡ j → IsStored env content i w.tables)
      → Accounted w
      → Accounted (acknowledge env j w).1
  unfolding acknowledge
  acknowledge-Accounted j w stored acc =
      let acked = ack-Accounted j w stored acc in
      continue_at Accounted _ _ (ack_message env j w).0 (ack_message env j w).1 (λ a e. acked)
        (λ e h. acked)

  on_tables-Accounted :
      {A : Type 0} (m : Exec D A) (w : World R D)
      → (IsStored env content i w.tables → IsStored env content i (m w.tables).1)
      → Accounted w
      → Accounted (on_tables m w).1
  on_tables-Accounted m w keep (inl owed) = inl owed
  on_tables-Accounted m w keep (inr stored) = inr (keep stored)

  persist-Accounted :
      (j : String) (fields : Entry) (n : ℕ) (event : AuditEvent)
      → content j ≡ some fields
      → parse_entry env n fields ≡ ok event
      → Keeps Accounted (persist_and_ack env j (classified env fields event))
  unfolding persist_and_ack
  persist-Accounted j fields n event c parsed = record {
    at = λ w acc.
        let p = classified env fields event in
        let sink = Sink.write env.lib env.cfg env.db p in
        let written = on_tables-Accounted sink w (IsStored-sink p w.tables) acc in
        continue_at Accounted _ _ (on_tables sink w).0 (on_tables sink w).1
          (λ b e.
            acknowledge-Accounted j (on_tables sink w).1
              (λ same. persisted fields n event (ap content same ∙ c) parsed (
                unfold classified in
                sink_write-stored env.lib env.cfg env.db durable p w.tables b e))
              written)
          (λ e h. written);
  }

  handle_parsed-Accounted :
      (j : String) (fields : Entry) (n : ℕ) (r : Result AuditEvent)
      → content j ≡ some fields
      → parse_entry env n fields ≡ r
      → Keeps Accounted (handle_parsed env j fields r)
  unfolding handle_parsed
  handle_parsed-Accounted j fields n (err e) c parsed = Keeps-pure false
  handle_parsed-Accounted j fields n (ok event) c parsed =
      persist-Accounted j fields n event c parsed

  -- A message with the fields of its entry is handled without a loss.
  pub handle_message-Accounted :
      (j : String) (fields : Entry)
      → content j ≡ some fields
      → Keeps Accounted (handle_message env j fields)
  unfolding handle_message
  handle_message-Accounted j fields c = record {
    at = λ w acc.
        (handle_parsed-Accounted j fields w.draws (parse_entry env w.draws fields) c refl).at
          (draw w).1 acc;
  }

  quarantine-Accounted :
      (j : String) (fields : Entry) (n : ℕ) → Keeps Accounted (quarantine env j fields n)
  unfolding quarantine raise_alert
  quarantine-Accounted j fields n = record {
    at = λ w acc.
        let sink = Quarantine.write env.lib env.cfg env.db j fields n in
        let written = on_tables-Accounted sink w (IsStored-quarantine j fields n w.tables) acc in
        continue_at Accounted _ _ (on_tables sink w).0 (on_tables sink w).1 (λ q e. written)
          (λ e h. written);
  }

  quarantine-stored :
      (j : String) (fields : Entry) (n : ℕ) (w : World R D)
      → (quarantine env j fields n w).0 ≡ ok tt
      → env.db.quarantined_at j (quarantine env j fields n w).1.tables ≢ none
  unfolding quarantine raise_alert
  quarantine-stored j fields n w h =
      let sink = Quarantine.write env.lib env.cfg env.db j fields n in
      let (q, returned, rest) = bind-eq-ok (on_tables sink) _ w h in
      continue_at (λ w'. env.db.quarantined_at j w'.tables ≢ none) _ _ (on_tables sink w).0
        (on_tables sink w).1
        (λ q e. quarantine_write-stored env.lib env.cfg env.db durable j fields n w.tables q e)
        (λ e raised. absurd (cc))

  -- A poison entry is quarantined without a loss.
  pub quarantine_and_ack-Accounted :
      (j : String) (fields : Entry) (n : ℕ) → Keeps Accounted (quarantine_and_ack env j fields n)
  unfolding quarantine_and_ack
  quarantine_and_ack-Accounted j fields n = record {
    at = λ w acc.
        let written = (quarantine-Accounted j fields n).at w acc in
        continue_at Accounted _ _ (quarantine env j fields n w).0 (quarantine env j fields n w).1
          (λ u e.
            acknowledge-Accounted j (quarantine env j fields n w).1
              (λ same. quarantined (rw same (quarantine-stored j fields n w e))) written)
          (λ e h. written);
  }
