-- ===== src/Python.antt =====
-- Exceptions of Python as values, and the values that the program hands to its libraries.
pub mod Time
pub mod Int
pub mod Json
pub mod Exec
use omnibioai_security_audit.Prelude.{◌≡◌, refl, String}

-- An exception: the name of its class, and `str(e)`.
pub record Exn : Type 0 where
  pub kind : String
  pub message : String

pub data Result {ℓ} (A : Type ℓ) : Type ℓ where
  ok : A → Result A
  err : Exn → Result A

-- A statement whose exception ends the block.
module _ {ℓ κ} {A : Type ℓ} {B : Type κ} where
  infixl 5 ◌>>=◌
  abbrev pub ◌>>=◌ : Result A → (A → Result B) → Result B
  ok value >>= next = next value
  err exn >>= next = err exn

  -- A block that ended well went on from its first step's value.
  pub >>=-eq-ok :
      (first : Result A) (next : A → Result B) {b : B}
      → (first >>= next) ≡ ok b
      → (value : A) × (first ≡ ok value) × (next value ≡ ok b)
  >>=-eq-ok (ok value) next ended = (value, refl, ended)
  >>=-eq-ok (err exn) next ended = cc

infixl 5 ◌>>◌
abbrev pub ◌>>◌ {ℓ} : {B : Type ℓ} → Result (Unit {0}) → Result B → Result B
first >> second = first >>= λ done. second

pub ok-inj {ℓ} : {A : Type ℓ} {a b : A} → ok a ≡ ok b → a ≡ b
ok-inj h = cc
