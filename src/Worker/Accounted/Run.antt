-- ===== src/Worker/Accounted/Run.antt =====
-- Any number of rounds of the consumer loop loses no entry.
use omnibioai_security_audit.Prelude.{
  ℕ, zero, suc, ◌≡◌, inl, inr, ◌∙◌, String, ◌==◌, Bool, true, false, List, [], ◌∷◌, Option, some,
  All, sym, if◌then◌else◌,
}
use omnibioai_security_audit.Python.{Exn, ok, err, ok-inj}
use omnibioai_security_audit.Python.Exec.{Exec, pure, lift}
use omnibioai_security_audit.Python.Exec.Keeps.{
  Keeps, Keeps-pure, Keeps-lift, Keeps-gets, Keeps-if, Keeps-attempt, Keeps-attempt_value,
  attempt-eq-ok, bind-eq-ok,
}
use omnibioai_security_audit.Alerts.{SecurityAlert, in_window}
use omnibioai_security_audit.Storage.{IsAppendOnly}
use omnibioai_security_audit.Stream
use omnibioai_security_audit.Stream.{
  Redis, Entry, PoisonEntry, claim_stale, read_group, ensure_group,
}
use omnibioai_security_audit.Worker.World.{Env, World, on_stream, draw, raise_alert}
use omnibioai_security_audit.Worker.Nogroup.{
  is_nogroup_error, handle_nogroup, try_recreate, recreate, recreate_if_due, previous_attempt,
  missing_alert, recovered_alert,
}
use omnibioai_security_audit.Worker.Loop.{
  quarantine_all, handle_all, sweep_pending, swept, sweep_failed, read_failed, back_off,
  read_messages, handle_response, iteration, iterations, run,
}
use omnibioai_security_audit.Worker.Accounted.{IsReliable, IsDelivered, IsAccounted}
use omnibioai_security_audit.Worker.Accounted.Reader.{
  Owed, ensure_group-Owed, read_group-Owed, claim_stale-Owed, claim_stale-IsDelivered,
}
use omnibioai_security_audit.Worker.Accounted.Messages.{
  handle_message-Accounted, quarantine_and_ack-Accounted,
}

-- What is read delivers its entries; a read that failed delivers nothing.
module _ {R D : Type 0} (env : Env R D) (content : String → Option Entry)
    (reliable : IsReliable env.redis content) where
  back_off-nil :
      (e : Exn) (w : World R D) (l : List (String × List Stream.Message))
      → (back_off env e w).0 ≡ ok l
      → l ≡ []
  unfolding back_off
  back_off-nil e w l h =
      let (u, handled, rest) = bind-eq-ok (handle_nogroup env e "read_group") _ w h in
      sym (ok-inj rest)

  pure-nil :
      (w : World R D) (l : List (String × List Stream.Message))
      → (pure {A = List (String × List Stream.Message)} [] w).0 ≡ ok l
      → l ≡ []
  pure-nil w l h = sym (ok-inj h)

  if-nil :
      (b : Bool) (m n : Exec (World R D) (List (String × List Stream.Message))) (w : World R D)
      (l : List (String × List Stream.Message))
      → ((m w).0 ≡ ok l → l ≡ [])
      → ((n w).0 ≡ ok l → l ≡ [])
      → ((if b then m else n) w).0 ≡ ok l
      → l ≡ []
  if-nil true m n w l hm hn h = hm h
  if-nil false m n w l hm hn h = hn h

  read_failed-nil :
      (e : Exn) (w : World R D) (l : List (String × List Stream.Message))
      → (read_failed env e w).0 ≡ ok l
      → l ≡ []
  unfolding read_failed
  read_failed-nil e w l = if-nil (e.kind == "TimeoutError") (pure []) _ w l (pure-nil w l) (
      if-nil (is_nogroup_error e) (back_off env e) (pure []) w l (back_off-nil e w l)
        (pure-nil w l))

  read_messages-IsDelivered :
      (w : World R D) (l : List (String × List Stream.Message))
      → (read_messages env w).0 ≡ ok l
      → All (λ x. All (IsDelivered content) x.1) l
  unfolding read_messages read_group
  read_messages-IsDelivered w l h =
      elim (attempt-eq-ok (on_stream (read_group env.redis env.cfg env.cfg.consumer_name)) pure
        (read_failed env) w h) [
          | inl (a, e, same) ↦ reliable.read_delivers env.cfg.consumer_name w.stream l (e ∙ same)
          | inr (e, raised, failed) ↦ rw (read_failed-nil e _ l failed) tt
        ]

module _ {R D : Type 0} (env : Env R D) (content : String → Option Entry)
    (reliable : IsReliable env.redis content) (durable : IsAppendOnly env.db) (i : String) where
  abbrev Safe {κ} : {A : Type κ} → Exec (World R D) A → Type κ
  Safe m = Keeps (IsAccounted env content i) m

  IsAccounted-on_stream :
      {A : Type 0} (m : Exec R A)
      → Keeps (Owed env.redis env.cfg content reliable i) m
      → (w : World R D) → IsAccounted env content i w
      → IsAccounted env content i (on_stream m w).1
  IsAccounted-on_stream m k w (inl owed) = inl (k.at w.stream owed)
  IsAccounted-on_stream m k w (inr stored) = inr stored

  on_stream-Safe :
      {A : Type 0} (m : Exec R A)
      → Keeps (Owed env.redis env.cfg content reliable i) m
      → Safe (on_stream m)
  on_stream-Safe m k = record { at = λ w acc. IsAccounted-on_stream m k w acc }

  raise_alert-Safe : (a : String → SecurityAlert) → Safe (raise_alert env a)
  unfolding raise_alert
  raise_alert-Safe a = record { at = λ w acc. acc }

  raises : {A : Type 0} (e : Exn) → Safe (lift {A = A} (err e))
  raises e = Keeps-lift (err e)

  recreate-Safe : (context : String) → Safe (recreate env context)
  unfolding recreate
  recreate-Safe context =
      Keeps-attempt _ _ _
        (on_stream-Safe _ (ensure_group-Owed env.redis env.cfg content reliable i))
        (λ _. raise_alert-Safe (recovered_alert context)) (λ e. Keeps-pure tt)

  recreate_if_due-Safe :
      (context : String) (now : ℕ) (last : Option ℕ) → Safe (recreate_if_due env context now last)
  unfolding recreate_if_due
  recreate_if_due-Safe context now last =
      Keeps-if (in_window last now env.cfg.worker_nogroup_retry_backoff) _ _ (Keeps-pure tt)
        (record {
          at = λ w acc. (recreate-Safe context).at (record w { last_attempt = some now }) acc;
        })

  previous_attempt-Safe : Safe (previous_attempt env)
  unfolding previous_attempt
  previous_attempt-Safe = Keeps-gets _

  try_recreate-Safe : (context : String) → Safe (try_recreate env context)
  unfolding try_recreate
  try_recreate-Safe context = record {
    at = λ w acc.
        (Keeps-attempt (previous_attempt env) _ _ previous_attempt-Safe
            (recreate_if_due-Safe context (env.runtime.monotonic w.draws)) raises).at
          (draw w).1 acc;
  }

  handle_nogroup-Safe : (e : Exn) (context : String) → Safe (handle_nogroup env e context)
  unfolding handle_nogroup
  handle_nogroup-Safe e context =
      Keeps-attempt _ _ _ (raise_alert-Safe (missing_alert context))
        (λ _.
          Keeps-if env.cfg.worker_auto_recreate_stream_on_nogroup _ _ (try_recreate-Safe context)
            (Keeps-pure tt))
        raises

  quarantine_all-Safe : (l : List PoisonEntry) → Safe (quarantine_all env l)
  unfolding quarantine_all
  quarantine_all-Safe [] = Keeps-pure tt
  quarantine_all-Safe ((j, fields, n) ∷ l) =
      Keeps-attempt _ _ _ (quarantine_and_ack-Accounted env content reliable durable i j fields n)
        (λ _. quarantine_all-Safe l) raises

  handle_all-Safe :
      (l : List Stream.Message) → All (IsDelivered content) l → Safe (handle_all env l)
  unfolding handle_all
  handle_all-Safe [] d = Keeps-pure tt
  handle_all-Safe ((j, fields) ∷ l) d =
      Keeps-attempt _ _ _ (handle_message-Accounted env content reliable durable i j fields d.0)
        (λ _. handle_all-Safe l d.1) raises

  swept-Safe :
      (claimed : List Stream.Message) (poison : List PoisonEntry)
      → All (IsDelivered content) claimed
      → Safe (swept env (claimed, poison))
  unfolding swept
  swept-Safe claimed poison d =
      Keeps-attempt _ _ _ (quarantine_all-Safe poison) (λ _. handle_all-Safe claimed d) raises

  sweep_failed-Safe : (e : Exn) → Safe (sweep_failed env e)
  unfolding sweep_failed
  sweep_failed-Safe e =
      Keeps-if (is_nogroup_error e) _ _ (handle_nogroup-Safe e "pending-entry sweep")
        (Keeps-pure tt)

  sweep_pending-Safe : Safe (sweep_pending env)
  unfolding sweep_pending
  sweep_pending-Safe =
      Keeps-attempt_value _ _ _
        (on_stream-Safe _
          (claim_stale-Owed env.redis env.cfg content reliable i env.cfg.consumer_name))
        (λ w (claimed, poison) e. swept-Safe claimed poison (
          claim_stale-IsDelivered env.redis env.cfg content reliable env.cfg.consumer_name w.stream
            claimed poison e))
        sweep_failed-Safe

  back_off-Safe : (e : Exn) → Safe (back_off env e)
  unfolding back_off
  back_off-Safe e =
      Keeps-attempt (handle_nogroup env e "read_group") _ _ (handle_nogroup-Safe e "read_group")
        (λ _. record { at = λ w acc. acc }) raises

  read_failed-Safe : (e : Exn) → Safe (read_failed env e)
  unfolding read_failed
  read_failed-Safe e =
      Keeps-if (e.kind == "TimeoutError") _ _ (Keeps-pure [])
        (Keeps-if (is_nogroup_error e) _ _ (back_off-Safe e) (Keeps-pure []))

  read_messages-Safe : Safe (read_messages env)
  unfolding read_messages
  read_messages-Safe =
      Keeps-attempt _ _ _
        (on_stream-Safe _
          (read_group-Owed env.redis env.cfg content reliable i env.cfg.consumer_name))
        Keeps-pure read_failed-Safe

  handle_response-Safe :
      (l : List (String × List Stream.Message))
      → All (λ x. All (IsDelivered content) x.1) l
      → Safe (handle_response env l)
  unfolding handle_response
  handle_response-Safe [] d = Keeps-pure tt
  handle_response-Safe ((stream, messages) ∷ l) d =
      Keeps-attempt _ _ _ (handle_all-Safe messages d.0) (λ _. handle_response-Safe l d.1) raises

  iteration-Safe : Safe (iteration env)
  unfolding iteration
  iteration-Safe =
      Keeps-attempt _ _ _ sweep_pending-Safe
        (λ _.
          Keeps-attempt_value _ _ _ read_messages-Safe
            (λ w l e. handle_response-Safe l (read_messages-IsDelivered env content reliable w l e))
            raises)
        raises

  iterations-Safe : (n : ℕ) → Safe (iterations env n)
  unfolding iterations
  iterations-Safe zero = Keeps-pure tt
  iterations-Safe (suc n) = Keeps-attempt _ _ _ iteration-Safe (λ _. iterations-Safe n) raises

  run-Safe : (n : ℕ) → Safe (run env n)
  unfolding run
  run-Safe n =
      Keeps-attempt _ _ _
        (on_stream-Safe _ (ensure_group-Owed env.redis env.cfg content reliable i))
        (λ _. iterations-Safe n) raises

  -- If Redis keeps what the group owes and delivers the fields that were appended, and the database
  -- only appends, then whatever fails: an entry that is owed by the group or is durable evidence is
  -- so still after any number of rounds of the worker.
  pub run-IsAccounted :
      (n : ℕ) (w : World R D)
      → IsAccounted env content i w
      → IsAccounted env content i (run env n w).1
  run-IsAccounted n w acc = (run-Safe n).at w acc
