-- ===== src/RecordIntegrity/Tamper.antt =====
-- Which changes of a stored row the keyed hash shows.
use Prim.Native.String.{[] as nil, ◌∷◌ as cons}
use omnibioai_security_audit.Prelude.{
  ℕ, ◌≡◌, ◌≢◌, refl, sym, ap, ◌∙◌, String, ◌<>◌, has_char, split_inj, append_cancel_left, Bool,
  false, ◌||◌, List, ◌++◌, [], ◌∷◌, Option, none, some, arith, All, All-append,
}
use omnibioai_security_audit.Python.{>>=-eq-ok, ok-inj, ok}
use omnibioai_security_audit.Library.{Library}
use omnibioai_security_audit.RecordIntegrity.Cells.{Record, get}
use omnibioai_security_audit.RecordIntegrity.Message.{
  join, field_text, canonical_parts, canonical_message, key_part,
}

abbrev pub SingleLine : String → Type 0
SingleLine s = has_char b'\n' s ≡ false

has_char-append : (c : ℕ) (s t : String) → has_char c (s <> t) ≡ (has_char c s || has_char c t)
unfolding has_char ◌<>◌
has_char-append c nil t = refl
has_char-append c (cons d s) t = ground (arith, has_char-append c s t)

SingleLine-ne : (p p' q : String) → SingleLine p → p ≢ p' <> ("\n" <> q)
unfolding ◌<>◌ has_char
SingleLine-ne p p' q h e =
    ground (arith, has_char-append b'\n' p' ("\n" <> q), ap (has_char b'\n') e)

-- Lines are determined by the text that they are joined to.
pub join_inj :
    (ps qs : List String)
    → All SingleLine ps
    → All SingleLine qs
    → ps ≢ []
    → qs ≢ []
    → join "\n" ps ≡ join "\n" qs
    → ps ≡ qs
unfolding join
join_inj [] qs hp hq np nq e = absurd (np refl)
join_inj (p ∷ ps) [] hp hq np nq e = absurd (nq refl)
join_inj (p ∷ []) (q ∷ []) hp hq np nq e = cc
join_inj (p ∷ []) (q ∷ q' ∷ qs) hp hq np nq e = absurd (SingleLine-ne p q _ hp.0 e)
join_inj (p ∷ p' ∷ ps) (q ∷ []) hp hq np nq e = absurd (SingleLine-ne q p _ hq.0 (sym e))
join_inj (p ∷ p' ∷ ps) (q ∷ q' ∷ qs) hp hq np nq e =
    let parts =
      split_inj "\n" p q (join "\n" (p' ∷ ps)) (join "\n" (q' ∷ qs)) hp.0 hq.0 (unfold ◌<>◌ in e) in
    let rest = join_inj (p' ∷ ps) (q' ∷ qs) hp.1 hq.1 (λ z. cc) (λ z. cc) parts.1 in
    cc (parts.0, rest)

cons_inj {ℓ} : {A : Type ℓ} {x y : A} {xs ys : List A} → x ∷ xs ≡ y ∷ ys → (x ≡ y) × (xs ≡ ys)
cons_inj h = (cc, cc)

key_part-inj : (k k' : Option String) → key_part k ≡ key_part k' → k ≡ k'
key_part-inj none none h = refl
key_part-inj none (some b) h = absurd (cc)
key_part-inj (some a) none h = absurd (cc)
key_part-inj (some a) (some b) h =
    ap some (append_cancel_left "integrity_key_id=" a b (cons_inj h).0)

module _ (lib : Library) where
  -- The values that a record gives to some columns are texts of one line.
  abbrev pub HasSingleLines : Bool → List String → Record → Type 0
  HasSingleLines legacy fields r =
      All
        (λ f.
          SingleLine f × ((v : String) → field_text lib legacy f (get f r) ≡ ok v → SingleLine v))
        fields

  -- Two records look alike in some columns: their canonical values are the same.
  abbrev pub Agree : Bool → List String → Record → Record → Type 0
  Agree legacy fields r r' =
      All (λ f. field_text lib legacy f (get f r) ≡ field_text lib legacy f (get f r')) fields

  part-SingleLine : (f v : String) → SingleLine f → SingleLine v → SingleLine (f <> ("=" <> v))
  unfolding has_char ◌<>◌
  part-SingleLine f v hf hv = ground (arith, has_char-append b'\n' f ("=" <> v))

  canonical_parts-cons :
      (legacy : Bool) (f : String) (fs : List String) (r : Record) (ps : List String)
      → canonical_parts lib (f ∷ fs) legacy r ≡ ok ps
      → (v : String) × (ps' : List String) × (field_text lib legacy f (get f r) ≡ ok v)
        × (canonical_parts lib fs legacy r ≡ ok ps')
        × (ps ≡ (f <> ("=" <> v)) ∷ ps')
  unfolding canonical_parts
  canonical_parts-cons legacy f fs r ps e =
      let (v, ev, e1) = >>=-eq-ok (field_text lib legacy f (get f r)) _ e in
      let (ps', ep, e2) = >>=-eq-ok (canonical_parts lib fs legacy r) _ e1 in
      (v, ps', ev, ep, sym (ok-inj e2))

  parts-ne_nil :
      (legacy : Bool) (f : String) (fs : List String) (r : Record) (ps ks : List String)
      → canonical_parts lib (f ∷ fs) legacy r ≡ ok ps
      → ps ++ ks ≢ []
  parts-ne_nil legacy f fs r ps ks e h =
      let (v, ps', ev, ep, eq) = canonical_parts-cons legacy f fs r ps e in
      let h' : (f <> ("=" <> v)) ∷ (ps' ++ ks) ≡ [] = sym (ap (λ l. l ++ ks) eq) ∙ h in cc

  parts-SingleLine :
      (legacy : Bool) (fields : List String) (r : Record) (ps : List String)
      → HasSingleLines legacy fields r
      → canonical_parts lib fields legacy r ≡ ok ps
      → All SingleLine ps
  unfolding canonical_parts
  parts-SingleLine legacy [] r ps h e = rw (sym (ok-inj e)) tt
  parts-SingleLine legacy (f ∷ fs) r ps h e =
      let (v, ps', ev, ep, eq) = canonical_parts-cons legacy f fs r ps e in
      rw eq (part-SingleLine f v h.0.0 (h.0.1 v ev), parts-SingleLine legacy fs r ps' h.1 ep)

  parts-Agree :
      (legacy : Bool) (fields : List String) (r r' : Record) (ps qs ks ks' : List String)
      → canonical_parts lib fields legacy r ≡ ok ps
      → canonical_parts lib fields legacy r' ≡ ok qs
      → ps ++ ks ≡ qs ++ ks'
      → Agree legacy fields r r' × (ks ≡ ks')
  unfolding canonical_parts
  parts-Agree legacy [] r r' ps qs ks ks' e e' h = (tt, cc (ok-inj e, ok-inj e'))
  parts-Agree legacy (f ∷ fs) r r' ps qs ks ks' e e' h =
      let (v, ps', ev, ep, eq) = canonical_parts-cons legacy f fs r ps e in
      let (w, qs', ew, eq', eqq) = canonical_parts-cons legacy f fs r' qs e' in
      let h' : (f <> ("=" <> v)) ∷ (ps' ++ ks) ≡ (f <> ("=" <> w)) ∷ (qs' ++ ks') =
        sym (ap (λ l. l ++ ks) eq) ∙ h ∙ ap (λ l. l ++ ks') eqq in
      let (heads, tails) = cons_inj h' in
      let values = append_cancel_left "=" v w (append_cancel_left f _ _ heads) in
      let (agree, keys) = parts-Agree legacy fs r r' ps' qs' ks ks' ep eq' tails in
      ((cc (ev, ew, values), agree), keys)

  -- The covered columns of two records of one-line values, and the key they name, are determined
  -- by the message that is hashed.
  pub canonical_message-Agree :
      (f : String) (fs : List String) (legacy : Bool) (r r' : Record) (k k' : Option String)
      (m : String)
      → HasSingleLines legacy (f ∷ fs) r
      → HasSingleLines legacy (f ∷ fs) r'
      → All SingleLine (key_part k)
      → All SingleLine (key_part k')
      → canonical_message lib (f ∷ fs) legacy k r ≡ ok m
      → canonical_message lib (f ∷ fs) legacy k' r' ≡ ok m
      → Agree legacy (f ∷ fs) r r' × (k ≡ k')
  unfolding canonical_message
  canonical_message-Agree f fs legacy r r' k k' m h h' hk hk' e e' =
      let (ps, ep, em) = >>=-eq-ok (canonical_parts lib (f ∷ fs) legacy r) _ e in
      let (qs, eq, em') = >>=-eq-ok (canonical_parts lib (f ∷ fs) legacy r') _ e' in
      let same =
        join_inj (ps ++ key_part k) (qs ++ key_part k')
          (All-append _ ps _ (parts-SingleLine legacy (f ∷ fs) r ps h ep) hk)
          (All-append _ qs _ (parts-SingleLine legacy (f ∷ fs) r' qs h' eq) hk')
          (parts-ne_nil legacy f fs r ps _ ep) (parts-ne_nil legacy f fs r' qs _ eq)
          (ok-inj em ∙ sym (ok-inj em')) in
      let (agree, keys) = parts-Agree legacy (f ∷ fs) r r' ps qs _ _ ep eq same in
      (agree, key_part-inj k k' keys)
