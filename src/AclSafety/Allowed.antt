-- ===== src/AclSafety/Allowed.antt =====
-- What a production session can send.
use omnibioai_security_audit.Prelude.{
  arith, ◌≡◌, refl, ap, inl, inr, ◌↔◌, String, ◌==◌, eq_iff, Bool, true, false, ◌||◌, Bool-cases,
  List, [], ◌∷◌, ◌++◌, All,
}
use omnibioai_security_audit.Python.{Exn, Result, ok, err}
use omnibioai_security_audit.Python.Exec.{Exec, lift, ◌>>◌}
use omnibioai_security_audit.Python.Exec.Keeps.{
  Keeps, Keeps-pure, Keeps-lift, Keeps-if, Keeps-attempt, Keeps-attempt_value,
}
use omnibioai_security_audit.AclSafety.Command.{
  Strings, Argument, Command, plain, with_sub, same, is_in, dangerous_commands,
  production_allowed_commands, normalize_command,
}
use omnibioai_security_audit.AclSafety.Connection.{
  Client, Reply, Op, opened, refused, closed, sent, Wire, execute, close_client,
}
use omnibioai_security_audit.AclSafety.Environment.{
  production_validator, permit, permit_normalized, authorize,
}
use omnibioai_security_audit.AclSafety.Session.{
  Session, whoami, check_identity, confirm, after_auth, close_and_raise, run_command, accepted,
}

same-eq : (c d : Command) → same c d ≡ true → c ≡ d
unfolding same
same-eq (plain a) (plain b) h = ap plain ((eq_iff a b).0 h)
same-eq (plain a) (with_sub b c) h = cc
same-eq (with_sub a b) (plain c) h = cc
same-eq (with_sub a b) (with_sub c d) h = elim (Bool-cases (a == c)) [
  | inl e ↦ elim (Bool-cases (b == d)) [
    | inl f ↦ rw ((eq_iff a c).0 e) (rw ((eq_iff b d).0 f) refl)
    | inr f ↦ ground arith
  ]
  | inr e ↦ ground arith
]

or_right : (b c : Bool) → b ≡ false → (b || c) ≡ true → c ≡ true
or_right true c e h = absurd (cc)
or_right false c e h = h

-- What holds of every command of a set holds of a member of it.
is_in-All {κ} :
    (P : Command → Type κ) (c : Command) (ds : List Command) → All P ds → is_in c ds ≡ true → P c
unfolding is_in
is_in-All P c [] all h = absurd (cc)
is_in-All P c (d ∷ ds) all h = elim (Bool-cases (same c d)) [
  | inl e ↦ rw (same-eq c d e) all.0
  | inr e ↦ is_in-All P c ds all.1 (or_right _ _ e h)
]

-- The denylist takes nothing from the allowlist.
allowed-not_dangerous :
    (c : Command) → is_in c production_allowed_commands ≡ true → is_in c dangerous_commands ≡ false
unfolding is_in same
allowed-not_dangerous c h =
    is_in-All (λ d. is_in d dangerous_commands ≡ false) c production_allowed_commands
      (refl, (refl, (refl, tt))) h

module _ (strings : Strings) where
  abbrev pub IsAllowed : List Argument → Type 0
  IsAllowed args =
      (c : Command) × (normalize_command strings args ≡ ok c)
      × (is_in c production_allowed_commands ≡ true)

  permit-allowed :
      (c : Command)
      → permit strings production_validator c ≡ ok tt
      → is_in c production_allowed_commands ≡ true
  unfolding permit
  permit-allowed c h = ground arith

  allowed-permit :
      (c : Command)
      → is_in c production_allowed_commands ≡ true
      → permit strings production_validator c ≡ ok tt
  unfolding permit
  allowed-permit c h = let d = allowed-not_dangerous c h in ground arith

  permit_normalized-allowed :
      (r : Result Command)
      → permit_normalized strings production_validator r ≡ ok tt
      → (c : Command) × (r ≡ ok c) × (is_in c production_allowed_commands ≡ true)
  unfolding permit_normalized
  permit_normalized-allowed (err e) h = absurd (cc)
  permit_normalized-allowed (ok c) h = (c, refl, permit-allowed c h)

  allowed-permit_normalized :
      (r : Result Command) (c : Command)
      → r ≡ ok c
      → is_in c production_allowed_commands ≡ true
      → permit_normalized strings production_validator r ≡ ok tt
  unfolding permit_normalized
  allowed-permit_normalized r c e h = rw e (allowed-permit c h)

  -- The production gate authorizes a command exactly when it normalizes to one of the allowlist.
  pub authorize_production_iff :
      (args : List Argument) → authorize strings production_validator args ≡ ok tt ↔ IsAllowed args
  unfolding authorize
  authorize_production_iff args = (
    λ h. permit_normalized-allowed (normalize_command strings args) h,
    λ (c, e, h). allowed-permit_normalized (normalize_command strings args) c e h,
  )

  -- A command that a log shows is on the allowlist.
  abbrev pub IsPermitted : Op → Type 0
  IsPermitted opened = Unit
  IsPermitted refused = Unit
  IsPermitted closed = Unit
  IsPermitted (sent args) = IsAllowed args

  -- A log that an older one grew to by commands of the allowlist.
  abbrev pub IsGrown : List Op → List Op → Type 0
  IsGrown base log = (later : List Op) × (log ≡ later ++ base) × All IsPermitted later

  module _ {S : Type 0} (client : Client S) (base : List Op) where
    -- What is done after the log was `base`.
    abbrev pub Permitted {κ} : {A : Type κ} → Exec (Wire S) A → Type κ
    Permitted m = Keeps (λ w. IsGrown base w.log) m

    pub raises {κ} : {A : Type κ} (e : Exn) → Permitted (lift {A = A} (err e))
    raises e = Keeps-lift (err e)

    close-Permitted : Permitted (close_client client)
    unfolding close_client
    close-Permitted = record {
      at = λ w (later, e, all). (closed ∷ later, ap (λ l. closed ∷ l) e, (tt, all));
    }

    execute-Permitted : (args : List Argument) → IsAllowed args → Permitted (execute client args)
    unfolding execute
    execute-Permitted args p = record {
      at = λ w (later, e, all). (sent args ∷ later, ap (λ l. sent args ∷ l) e, (p, all));
    }

    authorized-Permitted {κ} :
        {A : Type κ} (args : List Argument) (m : Exec (Wire S) A)
        → (IsAllowed args → Permitted m)
        → Permitted (lift (authorize strings production_validator args) >> m)
    authorized-Permitted args m k =
        Keeps-attempt_value (lift (authorize strings production_validator args)) _ _ (Keeps-lift _)
          (λ w u e. k ((authorize_production_iff args).0 e)) raises

    check_identity-Permitted :
        (expected : String) (actual : Reply)
        → Permitted (check_identity strings client expected actual)
    unfolding check_identity
    check_identity-Permitted expected actual = Keeps-if _ _ _ (Keeps-pure tt) (raises _)

    confirm-Permitted :
        (expected : String) → Permitted (confirm strings client production_validator expected)
    unfolding confirm
    confirm-Permitted expected = authorized-Permitted whoami _ λ allowed.
        Keeps-attempt (execute client whoami) _ _ (execute-Permitted whoami allowed)
          (check_identity-Permitted expected) (λ e. raises _)

    pub after_auth-Permitted :
        (expected : String) (reply : Reply)
        → Permitted (after_auth strings client production_validator expected reply)
    unfolding after_auth
    after_auth-Permitted expected reply =
        Keeps-if (accepted reply) _ _ (confirm-Permitted expected) (raises _)

    pub close_and_raise-Permitted :
        (expected : String) (e : Exn) → Permitted (close_and_raise strings client expected e)
    unfolding close_and_raise
    close_and_raise-Permitted expected e =
        Keeps-attempt (close_client client) _ _ close-Permitted (λ u. raises _) raises

    pub run-Permitted :
        (session : Session) (args : List Argument)
        → session.gate ≡ production_validator
        → Permitted (run_command strings client session args)
    unfolding run_command
    run-Permitted session args e = Keeps-if session.closed _ _ (raises _) (
        rw e (
          authorized-Permitted args (execute client args)
            λ allowed. execute-Permitted args allowed))
