-- ===== src/Retention/Rows.antt =====
-- What one statement under triggers leaves of the rows of a table, and where its rows come from.
use mathlib.Core.List.{Memᴰ}
use mathlib.Core.List.Memᴰ
use omnibioai_security_audit.Prelude.{
  ℕ, ◌≡◌, sym, ap, ◌⊎◌, inl, inr, Bool, false, List, [], ◌∷◌, ◌++◌, Bool-cases,
}
use omnibioai_security_audit.Python.{Result, ok, err, >>=-eq-ok, ok-inj}
use omnibioai_security_audit.Retention.Store.{Trigger, each_row, insert_row}
use omnibioai_security_audit.Retention.Statement.{
  Change, insert, update, delete, Guards, change_rows, kept,
}

module _ {A : Type 0} where
  module _ (before : Trigger A) (matches : A → Bool) (change : A → List A) where
    -- The step at one row, with what the rest of the rows gave.
    each_row-cons :
        (x : A) (rows : List A) (done : List A × ℕ)
        → each_row before matches change (x ∷ rows) ≡ ok done
        → (rest : List A × ℕ) × (each_row before matches change rows ≡ ok rest)
          × ((((before x ≡ ok tt) × (done.0 ≡ change x ++ rest.0))) ⊎ (done.0 ≡ x ∷ rest.0))
    unfolding each_row
    each_row-cons x rows done h = elim (Bool-cases (matches x)) [
      | inl t ↦
          let (u, passed, then_rest) = >>=-eq-ok (before x) _ (rw t at h) in
          let (rest, made, same) = >>=-eq-ok (each_row before matches change rows) _ then_rest in
          (rest, made, inl (passed, sym (ap (λ d. d.0) (ok-inj same))))
      | inr f ↦
          let (rest, made, same) = >>=-eq-ok (each_row before matches change rows) _ (rw f at h) in
          (rest, made, inr (sym (ap (λ d. d.0) (ok-inj same))))
    ]

    pub each_row-loss :
        (row : A) (rows : List A) (done : List A × ℕ)
        → Memᴰ row rows
        → each_row before matches change rows ≡ ok done
        → Memᴰ row done.0 ⊎ (before row ≡ ok tt)
    each_row-loss row [] done m h = elim m [ ]
    each_row-loss row (x ∷ rows) done (Memᴰ.head e) h =
        let (rest, made, step) = each_row-cons x rows done h in
        elim step [
          | inl (passed, same) ↦ inr (rw e passed)
          | inr same ↦ inl (rw same (Memᴰ.head e))
        ]
    each_row-loss row (x ∷ rows) done (Memᴰ.tail m) h =
        let (rest, made, step) = each_row-cons x rows done h in
        elim (each_row-loss row rows rest m made) [
          | inr passed ↦ inr passed
          | inl found ↦ elim step [
            | inl (passed, same) ↦ inl (rw same (Memᴰ.append_right (change x) found))
            | inr same ↦ inl (rw same (Memᴰ.tail found))
          ]
        ]

    each_row-origin :
        (row : A) (rows : List A) (done : List A × ℕ)
        → each_row before matches change rows ≡ ok done
        → Memᴰ row done.0
        → Memᴰ row rows ⊎ ((x : A) × (before x ≡ ok tt) × Memᴰ row (change x))
    unfolding each_row
    each_row-origin row [] done h m = inl (rw (ap (λ d. d.0) (ok-inj h)) m)
    each_row-origin row (x ∷ rows) done h m =
        let (rest, made, step) = each_row-cons x rows done h in
        elim step [
          | inl (passed, same) ↦ elim (Memᴰ.append_cases (change x) (rw same at m)) [
            | inl new ↦ inr (x, passed, new)
            | inr old ↦ elim (each_row-origin row rows rest made old) [
              | inl found ↦ inl (Memᴰ.tail found)
              | inr changed ↦ inr changed
            ]
          ]
          | inr same ↦ elim (Memᴰ.cases_cons (rw same at m)) [
            | inl e ↦ inl (Memᴰ.head e)
            | inr old ↦ elim (each_row-origin row rows rest made old) [
              | inl found ↦ inl (Memᴰ.tail found)
              | inr changed ↦ inr changed
            ]
          ]
        ]

    -- A row that the statement does not match stays.
    pub each_row-unmatched :
        (row : A) (rows : List A) (done : List A × ℕ)
        → matches row ≡ false
        → Memᴰ row rows
        → each_row before matches change rows ≡ ok done
        → Memᴰ row done.0
    unfolding each_row
    each_row-unmatched row [] done unmatched m h = elim m [ ]
    each_row-unmatched row (x ∷ rows) done unmatched (Memᴰ.head e) h =
        let f : matches x ≡ false = rw (← e) unmatched in
        let (rest, made, same) = >>=-eq-ok (each_row before matches change rows) _ (rw f at h) in
        rw (← ap (λ d. d.0) (ok-inj same)) (Memᴰ.head e)
    each_row-unmatched row (x ∷ rows) done unmatched (Memᴰ.tail m) h =
        let (rest, made, step) = each_row-cons x rows done h in
        let found = each_row-unmatched row rows rest unmatched m made in
        elim step [
          | inl (passed, same) ↦ rw same (Memᴰ.append_right (change x) found)
          | inr same ↦ rw same (Memᴰ.tail found)
        ]

  module _ (matches : A → Bool) (new : A) where
    pub insert_row-loss :
        (row : A) (rows : List A) (done : List A × ℕ)
        → Memᴰ row rows
        → insert_row matches new rows ≡ ok done
        → Memᴰ row done.0
    unfolding insert_row
    insert_row-loss row [] done m h = elim m [ ]
    insert_row-loss row (x ∷ rows) done m h = elim (Bool-cases (matches x)) [
      | inl t ↦ absurd (let bad = rw t at h in cc)
      | inr f ↦
          let (rest, made, same) = >>=-eq-ok (insert_row matches new rows) _ (rw f at h) in
          rw (← ap (λ d. d.0) (ok-inj same)) (elim (Memᴰ.cases_cons m) [
            | inl e ↦ Memᴰ.head e
            | inr m' ↦ Memᴰ.tail (insert_row-loss row rows rest m' made)
          ])
    ]

    insert_row-origin :
        (row : A) (rows : List A) (done : List A × ℕ)
        → insert_row matches new rows ≡ ok done
        → Memᴰ row done.0
        → Memᴰ row rows ⊎ (row ≡ new)
    unfolding insert_row
    insert_row-origin row [] done h m =
        elim (Memᴰ.cases_cons (rw (← ap (λ d. d.0) (ok-inj h)) at m)) [
          | inl e ↦ inr e
          | inr none_left ↦ absurd (Memᴰ.not-nil none_left)
        ]
    insert_row-origin row (x ∷ rows) done h m = elim (Bool-cases (matches x)) [
      | inl t ↦ absurd (let bad = rw t at h in cc)
      | inr f ↦
          let (rest, made, same) = >>=-eq-ok (insert_row matches new rows) _ (rw f at h) in
          elim (Memᴰ.cases_cons (rw (← ap (λ d. d.0) (ok-inj same)) at m)) [
            | inl e ↦ inl (Memᴰ.head e)
            | inr m' ↦ elim (insert_row-origin row rows rest made m') [
              | inl old ↦ inl (Memᴰ.tail old)
              | inr e ↦ inr e
            ]
          ]
    ]

  -- The row that a statement inserts.
  abbrev pub Inserts : A → Change A → Type 0
  Inserts row (insert new) = row ≡ new
  Inserts row (update matches new) = ⊥
  Inserts row (delete matches) = ⊥

  module _ (g : Guards A) (row : A) where
    pub change_rows-loss :
        (change : Change A) (rows : List A) (ended : Result (List A × ℕ))
        → change_rows g change rows ≡ ended
        → Memᴰ row rows
        → Memᴰ row (kept rows ended) ⊎ ((g.no_update row ≡ ok tt) ⊎ (g.no_delete row ≡ ok tt))
    unfolding change_rows
    change_rows-loss change rows (err e) h m = inl m
    change_rows-loss (insert new) rows (ok done) h m =
        inl (insert_row-loss (g.same new) new row rows done m h)
    change_rows-loss (update matches new) rows (ok done) h m =
        elim (each_row-loss g.no_update matches _ row rows done m h) [
          | inl found ↦ inl found
          | inr passed ↦ inr (inl passed)
        ]
    change_rows-loss (delete matches) rows (ok done) h m =
        elim (each_row-loss g.no_delete matches _ row rows done m h) [
          | inl found ↦ inl found
          | inr passed ↦ inr (inr passed)
        ]

    pub change_rows-origin :
        (change : Change A) (rows : List A) (ended : Result (List A × ℕ))
        → ((x : A) → g.no_update x ≡ ok tt → ⊥)
        → change_rows g change rows ≡ ended
        → Memᴰ row (kept rows ended)
        → Memᴰ row rows ⊎ Inserts row change
    unfolding change_rows
    change_rows-origin change rows (err e) refuses h m = inl m
    change_rows-origin (insert new) rows (ok done) refuses h m =
        insert_row-origin (g.same new) new row rows done h m
    change_rows-origin (update matches new) rows (ok done) refuses h m =
        elim (each_row-origin g.no_update matches _ row rows done h m) [
          | inl found ↦ inl found
          | inr (x, passed, changed) ↦ absurd (refuses x passed)
        ]
    change_rows-origin (delete matches) rows (ok done) refuses h m =
        elim (each_row-origin g.no_delete matches _ row rows done h m) [
          | inl found ↦ inl found
          | inr (x, passed, none_left) ↦ absurd (Memᴰ.not-nil none_left)
        ]
