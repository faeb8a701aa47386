-- ===== src/Prelude/Text.antt =====
-- Python's `str`: a native text, compared as a whole or walked by characters.
use Prim.Native.Nat.{ℕ}
use Prim.Native.Char.{Char, code}
use Prim.Native.String.{[], ◌∷◌}
use mathlib.Core.Path.{◌≡◌, refl, ap}
use mathlib.Core.Bool.{Bool, true, false, not, ◌&&◌, ◌||◌}
use mathlib.Core.Logic.{◌≢◌, inl, inr}
use native.Mathlib.Omega.{arith}
use text.Mathlib.Text.{◌==◌ as text_eq}
use text.Mathlib.TextEquality.{Char-path, eq_iff}
use text.Mathlib.TextLemmas.{cons-ne-nil}
use omnibioai_security_audit.Prelude.Tests.{Bool-cases, ◌==ℕ◌, if◌then◌else◌}
pub use Prim.Native.String.{String}

infix 50 ◌==◌
abbrev pub ◌==◌ : String → String → Bool
s == t = text_eq s t

-- `s + t`, by clauses, so that it computes at a literal on the left.
infixr 65 ◌<>◌
unfoldable pub ◌<>◌ : String → String → String
[] <> t = t
(c ∷ s) <> t = c ∷ (s <> t)

-- `bool(s)`
abbrev pub truthy : String → Bool
truthy s = not (s == "")

-- `chr(c) in s`
unfoldable pub has_char : ℕ → String → Bool
has_char c [] = false
has_char c (d ∷ s) = code d ==ℕ c || has_char c s

-- `s.partition(chr(c))`: the text before, whether `c` was found, and the text after.
unfoldable pub partition : ℕ → String → String × Bool × String
partition c [] = ("", false, "")
partition c (d ∷ s) =
    let (before, found, after) = partition c s in
    if code d ==ℕ c then ("", true, s) else (d ∷ before, found, after)

pub append_assoc : (s t u : String) → (s <> t) <> u ≡ s <> (t <> u)
unfolding ◌<>◌
append_assoc [] t u = refl
append_assoc (c ∷ s) t u = ap (λ r. c ∷ r) (append_assoc s t u)

pub append_cancel_left : (s t u : String) → s <> t ≡ s <> u → t ≡ u
unfolding ◌<>◌
append_cancel_left [] t u h = h
append_cancel_left (c ∷ s) t u h = append_cancel_left s t u (cc)

pub append-ne_nil : (c : Char) (s t : String) → ((c ∷ s) <> t) ≢ ""
unfolding ◌<>◌
append-ne_nil c s t = λ h. cc

-- A text with no `c` is read back in front of the first `c`.
pub partition-append :
    (d : Char) (s t : String)
    → has_char (code d) s ≡ false
    → partition (code d) (s <> (d ∷ t)) ≡ (s, true, t)
unfolding partition has_char ◌<>◌
partition-append d [] t h = ground arith
partition-append d (c ∷ s) t h = ground (arith, partition-append d s t)

-- Texts up to the first separator are determined by the whole.
pub split_inj :
    (d : Char) (s s' t t' : String)
    → has_char (code d) s ≡ false
    → has_char (code d) s' ≡ false
    → s <> (d ∷ t) ≡ s' <> (d ∷ t')
    → (s ≡ s') × (t ≡ t')
unfolding has_char ◌<>◌
split_inj d [] [] t t' h h' e = (refl, cc)
split_inj d [] (c ∷ s') t t' h h' e = absurd (ground arith)
split_inj d (c ∷ s) [] t t' h h' e = absurd (ground arith)
split_inj d (c ∷ s) (c' ∷ s') t t' h h' e =
    let r = split_inj d s s' t t' (ground arith) (ground arith) (cc) in (ground arith, ground arith)

-- What `partition` cuts at a separator is put together again.
pub partition-join :
    (d : Char) (s : String)
    → (partition (code d) s).1 ≡ true
    → s ≡ (partition (code d) s).0 <> (d ∷ (partition (code d) s).2)
unfolding partition ◌<>◌
partition-join d [] h = cc
partition-join d (c ∷ s) h = elim (Bool-cases (code c ==ℕ code d)) [
  | inl e ↦ rw e (ap (λ x. x ∷ s) (Char-path c d (ground arith)))
  | inr e ↦ rw e (ap (λ r. c ∷ r) (partition-join d s (rw e at h)))
]

pub truthy-cons : (c : Char) (s : String) → truthy (c ∷ s) ≡ true
truthy-cons c s = elim (Bool-cases ((c ∷ s) == "")) [
  | inl e ↦ absurd (cons-ne-nil c s ((eq_iff (c ∷ s) "").0 e))
  | inr e ↦ rw e
]

pub truthy→ne : (s : String) → truthy s ≡ true → s ≢ ""
truthy→ne s h = ground (arith, eq_iff s "")

pub ne→truthy : (s : String) → s ≢ "" → truthy s ≡ true
ne→truthy s h = ground (arith, eq_iff s "")

pub truthy-append : (s t : String) → truthy s ≡ true → truthy (s <> t) ≡ true
unfolding ◌<>◌
truthy-append [] t h = absurd (truthy→ne "" h refl)
truthy-append (c ∷ s) t h = truthy-cons c (s <> t)

-- The first code point, to tell two literals apart.
abbrev pub head_code : String → ℕ
head_code [] = 0
head_code (c ∷ s) = code c

-- `s.startswith(t)`
unfoldable pub starts_with : String → String → Bool
starts_with s [] = true
starts_with [] (d ∷ t) = false
starts_with (c ∷ s) (d ∷ t) = code c ==ℕ code d && starts_with s t

-- `t in s`
unfoldable pub contains : String → String → Bool
unfolding starts_with
contains [] t = starts_with [] t
contains (c ∷ s) t = starts_with (c ∷ s) t || contains s t

-- `s.endswith(t)`
unfoldable pub ends_with : String → String → Bool
ends_with [] t = [] == t
ends_with (c ∷ s) t = (c ∷ s) == t || ends_with s t
