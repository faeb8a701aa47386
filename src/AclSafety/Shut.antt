-- ===== src/AclSafety/Shut.antt =====
-- A connection that did not prove its identity is closed, and nothing more is sent on it.
use omnibioai_security_audit.Prelude.{
  ℕ, ◌≡◌, ◌≢◌, refl, ◌∙◌, ap, inl, inr, String, false, List, [], ◌∷◌, ◌<>◌,
}
use omnibioai_security_audit.Python.{Exn, Result, ok, err}
use omnibioai_security_audit.Python.Exec.{lift, continue_with}
use omnibioai_security_audit.Python.Exec.Keeps.{attempt-eq-ok, bind-eq-ok, if-branch}
use omnibioai_security_audit.AclSafety.Command.{Strings, Argument, str}
use omnibioai_security_audit.AclSafety.Connection.{
  Client, Reply, text, opened, closed, sent, opening, is_text, Wire, open_client, execute,
  close_client,
}
use omnibioai_security_audit.AclSafety.Attested.{is_text-eq}
use omnibioai_security_audit.AclSafety.Environment.{RedisEnvironment, CommandGate, authorize}
use omnibioai_security_audit.AclSafety.Session.{
  Session, accepted, auth_failed, whoami, check_identity, confirm, after_auth, login,
  close_and_raise, authenticate,
}

abbrev pub auth : String → String → List Argument
auth username password = str "AUTH" ∷ str username ∷ str password ∷ []

module _ {S : Type 0} (strings : Strings) (client : Client S) where
  -- The reply to AUTH was an error, or a value that does not say that it succeeded.
  abbrev pub IsRefused : Result Reply → Type 0
  IsRefused (ok reply) = accepted reply ≡ false
  IsRefused (err e) = Unit

  after_auth-refused :
      (gate : CommandGate) (expected : String) (r : Result Reply) (w : Wire S) (h : Exn → Exn)
      → IsRefused r
      → (e : Exn) × (continue_with
            (after_auth strings client gate expected)
            (λ e. lift (err (h e)))
            r
            w
          ≡ (err e, w))
  unfolding after_auth ◌<>◌
  after_auth-refused gate expected (ok reply) w h fails = (
    auth_failed
        ("AUTH returned an unexpected result for expected identity " <> strings.repr expected),
    rw fails refl,
  )
  after_auth-refused gate expected (err e) w h fails = (_, refl)

  login-refused :
      (gate : CommandGate) (username password expected : String) (w : Wire S)
      → IsRefused (execute client (auth username password) w).0
      → (e : Exn) × (login strings client gate username password expected w
          ≡ (err e, (execute client (auth username password) w).1))
  unfolding login
  login-refused gate username password expected w fails =
      after_auth-refused gate expected (execute client (auth username password) w).0 _ _ fails

  raise_always :
      (x : Exn) (r : Result (Unit {0})) (w : Wire S)
      → ((continue_with (λ u. lift {A = Session} (err x)) (λ e s. (err e, s)) r w).1.log ≡ w.log)
        × ((s : Session)
            → (continue_with (λ u. lift {A = Session} (err x)) (λ e s. (err e, s)) r w).0 ≢ ok s)
  raise_always x (ok u) w = (refl, λ s h. cc)
  raise_always x (err e) w = (refl, λ s h. cc)

  close_and_raise-log :
      (expected : String) (e : Exn) (w : Wire S)
      → ((close_and_raise strings client expected e w).1.log ≡ closed ∷ w.log)
        × ((s : Session) → (close_and_raise strings client expected e w).0 ≢ ok s)
  unfolding close_and_raise close_client
  close_and_raise-log expected e w =
      raise_always _ (close_client client w).0 (close_client client w).1

  -- On a connection that opens, AUTH that raises or is not answered with success is the only
  -- command: the connection is closed after it, and no session is returned.
  pub authenticate-refused :
      (host : String) (port : ℕ) (username password expected : String) (gate : CommandGate)
      (environment : RedisEnvironment) (w : Wire S)
      → (client.connect host port w.server).0 ≡ ok tt
      → IsRefused (execute client (auth username password) (open_client client host port w).1).0
      → ((authenticate strings client host port username password expected gate environment w).1.log
          ≡ closed ∷ sent (auth username password) ∷ opened ∷ w.log)
        × ((s : Session)
            → (authenticate strings client host port username password expected gate environment
                w).0
              ≢ ok s)
  unfolding authenticate open_client opening execute
  authenticate-refused host port username password expected gate environment w connected fails =
      let w' : Wire S = record {
        server = (client.connect host port w.server).1;
        log = opened ∷ w.log;
      } in
      let (e, failed) = login-refused gate username password expected w' fails in
      rw connected
        (rw failed (close_and_raise-log expected e (execute client (auth username password) w').1))

  check_identity-text :
      (expected : String) (actual : Reply) (w : Wire S)
      → (check_identity strings client expected actual w).0 ≡ ok tt
      → actual ≡ text expected
  unfolding check_identity
  check_identity-text expected actual w h = elim (if-branch (is_text expected actual) _ _ w h) [
    | inl (e, passed) ↦ is_text-eq expected actual e
    | inr (e, raised) ↦ absurd (cc)
  ]

  confirm-text :
      (gate : CommandGate) (expected : String) (w : Wire S)
      → (confirm strings client gate expected w).0 ≡ ok tt
      → (execute client whoami w).0 ≡ ok (text expected)
  unfolding confirm
  confirm-text gate expected w h =
      let (u, allowed, asked) = bind-eq-ok (lift (authorize strings gate whoami)) _ w h in
      elim (attempt-eq-ok (execute client whoami) (check_identity strings client expected) _ w
        asked) [
          | inl (actual, replied, checked) ↦
              replied ∙ ap ok (check_identity-text expected actual _ checked)
          | inr (x, failed, raised) ↦ absurd (cc)
        ]

  login-text :
      (gate : CommandGate) (username password expected : String) (w : Wire S)
      → (login strings client gate username password expected w).0 ≡ ok tt
      → (execute client whoami (execute client (auth username password) w).1).0 ≡ ok (text expected)
  unfolding login after_auth
  login-text gate username password expected w h =
      elim (attempt-eq-ok (execute client (auth username password))
        (after_auth strings client gate expected) _ w h) [
          | inl (reply, replied, after) ↦
              elim (if-branch (accepted reply) (confirm strings client gate expected) _ _ after) [
                | inl (e, confirmed) ↦ confirm-text gate expected _ confirmed
                | inr (e, raised) ↦ absurd (cc)
              ]
          | inr (x, failed, raised) ↦ absurd (cc)
        ]

  -- A session is only returned if the server, asked by ACL WHOAMI right after AUTH on the
  -- connection that was opened, answered with the expected identity.
  pub authenticate-identity :
      (host : String) (port : ℕ) (username password expected : String) (gate : CommandGate)
      (environment : RedisEnvironment) (w : Wire S) (session : Session)
      → (authenticate strings client host port username password expected gate environment w).0
        ≡ ok session
      → (execute client whoami
          (execute client (auth username password) (open_client client host port w).1).1).0
        ≡ ok (text expected)
  unfolding authenticate
  authenticate-identity host port username password expected gate environment w session h =
      elim (attempt-eq-ok (open_client client host port) _ _ w h) [
        | inl (u, e, logged) ↦
            elim (attempt-eq-ok (login strings client gate username password expected) _ _ _
              logged) [
                | inl (v, f, made) ↦ login-text gate username password expected _ f
                | inr (x, f, failed) ↦ absurd ((close_and_raise-log expected x _).1 session failed)
              ]
        | inr (x, e, raised) ↦ absurd (cc)
      ]
