-- ===== src/Python/Exec.antt =====
-- Code that changes a state and may raise. What was changed before a raise stays changed.
pub mod Keeps
use omnibioai_security_audit.Python.{Exn, Result, ok, err}

abbrev pub Exec {ℓ κ} : Type ℓ → Type κ → Type (ℓ ⊔ κ)
Exec S A = S → Result A × S

module _ {ℓ κ} {S : Type ℓ} {A : Type κ} where
  abbrev pub pure : A → Exec S A
  pure a s = (ok a, s)

  abbrev pub lift : Result A → Exec S A
  lift r s = (r, s)

  abbrev pub gets : (S → A) → Exec S A
  gets f s = (ok (f s), s)

module _ {ℓ κ μ} {S : Type ℓ} {A : Type κ} {B : Type μ} where
  abbrev pub continue_with : (A → Exec S B) → (Exn → Exec S B) → Result A → Exec S B
  continue_with f h (ok a) = f a
  continue_with f h (err e) = h e

  -- `try: a = m  except Exception as e: h(e)  else: f(a)`
  abbrev pub attempt : Exec S A → (A → Exec S B) → (Exn → Exec S B) → Exec S B
  attempt m f h s = let (r, s') = m s in continue_with f h r s'

  infixl 5 ◌>>=◌
  abbrev pub ◌>>=◌ : Exec S A → (A → Exec S B) → Exec S B
  ◌>>=◌ m f = attempt m f (λ e s. (err e, s))

infixl 5 ◌>>◌
abbrev pub ◌>>◌ {ℓ κ} : {S : Type ℓ} {B : Type κ} → Exec S (Unit {0}) → Exec S B → Exec S B
m >> k = m >>= λ _. k
