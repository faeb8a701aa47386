-- ===== src/Python/Exec/Keeps.antt =====
-- What an action leaves true, one rule for each way to build an action.
use omnibioai_security_audit.Prelude.{◌≡◌, refl, ◌⊎◌, inl, inr, Bool, true, false, if◌then◌else◌}
use omnibioai_security_audit.Python.{Exn, Result, ok, err}
use omnibioai_security_audit.Python.Exec.{Exec, pure, lift, gets, attempt, continue_with, ◌>>=◌}

-- Any end of `m`, a value or an exception, finds `P` true if its start did.
pub record Keeps {ℓ κ μ} {S : Type ℓ} {A : Type κ} (P : S → Type μ) (m : Exec S A)
    : Type (ℓ ⊔ κ ⊔ μ) where
  pub at : (s : S) → P s → P (m s).1

module _ {ℓ κ μ} {S : Type ℓ} {A : Type κ} {P : S → Type μ} where
  pub Keeps-pure : (value : A) → Keeps P (pure value)
  Keeps-pure value = record { at = λ s p. p }

  pub Keeps-lift : (ended : Result A) → Keeps P (lift ended)
  Keeps-lift ended = record { at = λ s p. p }

  pub Keeps-gets : (field : S → A) → Keeps P (gets field)
  Keeps-gets field = record { at = λ s p. p }

  pub Keeps-if :
      (test : Bool) (m n : Exec S A) → Keeps P m → Keeps P n → Keeps P (if test then m else n)
  Keeps-if true m n on_true on_false = on_true
  Keeps-if false m n on_true on_false = on_false

module _ {ℓ κ μ ν} {S : Type ℓ} {A : Type κ} {B : Type μ} where
  -- At one state, with what its result says of it.
  pub continue_at :
      (P : S → Type ν) (f : A → Exec S B) (h : Exn → Exec S B) (r : Result A) (s : S)
      → ((a : A) → r ≡ ok a → P (f a s).1)
      → ((e : Exn) → r ≡ err e → P (h e s).1)
      → P (continue_with f h r s).1
  continue_at P f h (ok a) s kf kh = kf a refl
  continue_at P f h (err e) s kf kh = kh e refl

module _ {ℓ κ μ ν} {S : Type ℓ} {A : Type κ} {B : Type μ} {P : S → Type ν} where
  continue-at :
      (f : A → Exec S B) (h : Exn → Exec S B) (r : Result A) (s : S)
      → ((a : A) → r ≡ ok a → Keeps P (f a))
      → ((e : Exn) → Keeps P (h e))
      → P s
      → P (continue_with f h r s).1
  continue-at f h (ok a) s kf kh p = (kf a refl).at s p
  continue-at f h (err e) s kf kh p = (kh e).at s p

  -- What follows may use that its value was returned, by the first action in some state.
  pub Keeps-attempt_value :
      (m : Exec S A) (f : A → Exec S B) (h : Exn → Exec S B)
      → Keeps P m
      → ((s : S) (a : A) → (m s).0 ≡ ok a → Keeps P (f a))
      → ((e : Exn) → Keeps P (h e))
      → Keeps P (attempt m f h)
  Keeps-attempt_value m f h km kf kh = record {
    at = λ s p. continue-at f h (m s).0 (m s).1 (kf s) kh (km.at s p);
  }

  pub Keeps-attempt :
      (m : Exec S A) (f : A → Exec S B) (h : Exn → Exec S B)
      → Keeps P m
      → ((a : A) → Keeps P (f a))
      → ((e : Exn) → Keeps P (h e))
      → Keeps P (attempt m f h)
  Keeps-attempt m f h km kf kh = Keeps-attempt_value m f h km (λ s a e. kf a) kh

module _ {ℓ κ μ} {S : Type ℓ} {A : Type κ} {B : Type μ} where
  continue-eq-ok :
      {b : B} (f : A → Exec S B) (h : Exn → Exec S B) (r : Result A) (s : S)
      → (continue_with f h r s).0 ≡ ok b
      → ((a : A) × (r ≡ ok a) × ((f a s).0 ≡ ok b)) ⊎ ((e : Exn) × (r ≡ err e) × ((h e s).0 ≡ ok b))
  continue-eq-ok f h (ok a) s eq = inl (a, refl, eq)
  continue-eq-ok f h (err e) s eq = inr (e, refl, eq)

  -- A `try` that ended well went on from a value, or from an exception that was caught.
  pub attempt-eq-ok :
      (m : Exec S A) (f : A → Exec S B) (h : Exn → Exec S B) (s : S) {b : B}
      → (attempt m f h s).0 ≡ ok b
      → ((a : A) × ((m s).0 ≡ ok a) × ((f a (m s).1).0 ≡ ok b))
        ⊎ ((e : Exn) × ((m s).0 ≡ err e) × ((h e (m s).1).0 ≡ ok b))
  attempt-eq-ok m f h s eq = continue-eq-ok f h (m s).0 (m s).1 eq

  -- A `try` whose block returned a value goes on from it.
  pub attempt-of_ok :
      (m : Exec S A) (f : A → Exec S B) (h : Exn → Exec S B) (s : S) {a : A}
      → (m s).0 ≡ ok a
      → attempt m f h s ≡ f a (m s).1
  attempt-of_ok m f h s eq = rw eq refl

  -- A `try` whose block raised goes on in its handler.
  pub attempt-of_err :
      (m : Exec S A) (f : A → Exec S B) (h : Exn → Exec S B) (s : S) {e : Exn}
      → (m s).0 ≡ err e
      → attempt m f h s ≡ h e (m s).1
  attempt-of_err m f h s eq = rw eq refl

  -- A block that ended well went on from the value that its first action returned.
  pub bind-eq-ok :
      (m : Exec S A) (f : A → Exec S B) (s : S) {b : B}
      → ((m >>= f) s).0 ≡ ok b
      → (a : A) × ((m s).0 ≡ ok a) × ((f a (m s).1).0 ≡ ok b)
  bind-eq-ok m f s eq = elim (attempt-eq-ok m f (λ e s. (err e, s)) s eq) [
    | inl x ↦ x
    | inr (e, raised, same) ↦ absurd (cc)
  ]

-- A guard whose other branch raises was passed by a block that ended well.
pub if-eq-ok {ℓ κ} :
    {S : Type ℓ} {A : Type κ} (c : Bool) (m : Exec S A) (x : Exn) (s : S) {a : A}
    → ((if c then m else lift (err x)) s).0 ≡ ok a
    → (m s).0 ≡ ok a
if-eq-ok true m x s h = h
if-eq-ok false m x s h = absurd (cc)

-- A conditional that ended well, ended so in the branch of its test.
pub if-branch {ℓ κ} :
    {S : Type ℓ} {A : Type κ} (c : Bool) (m n : Exec S A) (s : S) {a : A}
    → ((if c then m else n) s).0 ≡ ok a
    → ((c ≡ true) × ((m s).0 ≡ ok a)) ⊎ ((c ≡ false) × ((n s).0 ≡ ok a))
if-branch true m n s h = inl (refl, h)
if-branch false m n s h = inr (refl, h)
