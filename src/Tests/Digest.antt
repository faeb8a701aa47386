-- ===== src/Tests/Digest.antt =====
-- A digest for tests that writes key and message out, and so is collision-free.
use Prim.Native.Char.{Char, code}
use Prim.Native.String.{[] as nil, ◌∷◌ as cons}
use text.Mathlib.TextEquality.{Char-path}
use omnibioai_security_audit.Prelude.{
  ℕ, zero, suc, ◌≡◌, ◌≢◌, head_code, truthy, truthy-cons, refl, sym, ap, arith, String, true, List,
  [], ◌∷◌,
}
use omnibioai_security_audit.Crypto.{Crypto, is_ascii, IsHex, IsCollisionFree}

unfoldable pub unary : ℕ → String → String
unary zero rest = cons "b" rest
unary (suc n) rest = cons "1" (unary n rest)

unfoldable pub numbers : List ℕ → String → String
unfolding unary
numbers [] rest = cons "e" rest
numbers (n ∷ ns) rest = cons "c" (unary n (numbers ns rest))

unfoldable pub codes : String → List ℕ
codes nil = []
codes (cons c s) = code c ∷ codes s

tail : (c : Char) (s t : String) → cons c s ≡ cons c t → s ≡ t
tail c s t h = cc

heads : (c d : Char) (s t : String) → cons c s ≡ cons d t → code c ≡ code d
heads c d s t h = ap head_code h

one-ne-end : (s t : String) → cons "1" s ≢ cons "b" t
one-ne-end s t h = let e : ◌≡◌ {A = ℕ} 49 98 = heads "1" "b" s t h in absurd (omega arith)

more-ne-end : (s t : String) → cons "c" s ≢ cons "e" t
more-ne-end s t h = let e : ◌≡◌ {A = ℕ} 99 101 = heads "c" "e" s t h in absurd (omega arith)

unary-inj : (n m : ℕ) (s t : String) → unary n s ≡ unary m t → (n ≡ m) × (s ≡ t)
unfolding unary
unary-inj zero zero s t h = (refl, tail "b" s t h)
unary-inj zero (suc m) s t h = absurd (one-ne-end _ _ (sym h))
unary-inj (suc n) zero s t h = absurd (one-ne-end _ _ h)
unary-inj (suc n) (suc m) s t h =
    let (e, rest) = unary-inj n m s t (tail "1" _ _ h) in (ap suc e, rest)

numbers-inj : (ns ms : List ℕ) (s t : String) → numbers ns s ≡ numbers ms t → (ns ≡ ms) × (s ≡ t)
unfolding numbers
numbers-inj [] [] s t h = (refl, tail "e" s t h)
numbers-inj [] (m ∷ ms) s t h = absurd (more-ne-end _ _ (sym h))
numbers-inj (n ∷ ns) [] s t h = absurd (more-ne-end _ _ h)
numbers-inj (n ∷ ns) (m ∷ ms) s t h =
    let (e, rest) = unary-inj n m (numbers ns s) (numbers ms t) (tail "c" _ _ h) in
    let (es, same) = numbers-inj ns ms s t rest in (cc (e, es), same)

codes-inj : (s t : String) → codes s ≡ codes t → s ≡ t
unfolding codes
codes-inj nil nil h = refl
codes-inj nil (cons d t) h = absurd (cc)
codes-inj (cons c s) nil h = absurd (cc)
codes-inj (cons c s) (cons d t) h =
    let e = Char-path c d (cc) in let rest = codes-inj s t (cc) in cc (e, rest)

is_ascii-unary : (n : ℕ) (s : String) → is_ascii s ≡ true → is_ascii (unary n s) ≡ true
unfolding unary is_ascii
is_ascii-unary zero s h = h
is_ascii-unary (suc n) s h = is_ascii-unary n s h

is_ascii-numbers : (ns : List ℕ) (s : String) → is_ascii s ≡ true → is_ascii (numbers ns s) ≡ true
unfolding numbers is_ascii
is_ascii-numbers [] s h = h
is_ascii-numbers (n ∷ ns) s h = is_ascii-unary n (numbers ns s) (is_ascii-numbers ns s h)

truthy-numbers : (ns : List ℕ) (s : String) → truthy (numbers ns s) ≡ true
unfolding numbers
truthy-numbers [] s = truthy-cons "e" s
truthy-numbers (n ∷ ns) s = truthy-cons "c" _

unfoldable pub digest : List ℕ → String → String
digest key message = numbers key (numbers (codes message) nil)

abbrev pub plain_crypto : Crypto
plain_crypto = record { sha256 = codes; hexdigest = digest }

pub plain_crypto-IsHex : IsHex plain_crypto
unfolding digest numbers is_ascii
plain_crypto-IsHex = record {
  is_ascii-hexdigest = λ key m. is_ascii-numbers key _ (is_ascii-numbers (codes m) "" refl);
  truthy-hexdigest = λ key m. truthy-numbers key _;
}

pub plain_crypto-IsCollisionFree : IsCollisionFree plain_crypto
unfolding digest
plain_crypto-IsCollisionFree = record {
  sha256_inj = codes-inj;
  hexdigest_inj = λ a b s t h.
      let (keys, messages) = numbers-inj (codes a) (codes b) _ _ h in
      (keys, codes-inj s t (numbers-inj (codes s) (codes t) "" "" messages).0);
}
