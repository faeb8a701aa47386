-- ===== src/Integrity/Clean.antt =====
-- What a report without problems, and an exit code 0, say of every stored row.
use omnibioai_security_audit.Prelude.{
  ◌≡◌, refl, sym, ap, ◌∙◌, inl, inr, arith, String, Bool, true, false, List, [], ◌∷◌, ◌++◌, Option,
  none, some, Dict, All, Bool-cases,
}
use omnibioai_security_audit.Python.{ok, ok-inj, >>=-eq-ok}
use omnibioai_security_audit.RecordIntegrity.Cells.{Record, get}
use omnibioai_security_audit.Integrity.{
  Kind, Stats, no_stats, Verdict, no_baseline, unverifiable, invalid, valid, judge, judge_with,
  judge_verified, note_row, note_verdict, verify_rows, shown, is_blank, is_in, selected_secret,
  key_id_of, missing_fields, duplicates,
}
use omnibioai_security_audit.Integrity.Main.{report, is_empty}

-- A row that has its required columns, and a hash that verifies under the key that the row names,
-- or under the legacy key if it names none.
abbrev pub IsSound : Kind → Dict String → Record → Type 0
IsSound kind keys r =
    (secret : String) × (selected_secret keys (key_id_of r) ≡ some secret)
    × (kind.verify r secret (key_id_of r) ≡ ok true)
    × (is_blank (get "record_integrity_hash" r) ≡ false)
    × (missing_fields (shown (get kind.id_column r)) r kind.required ≡ [])

-- The rows have identifiers that are not seen before.
abbrev pub IsDistinct : Kind → List String → List Record → Type 0
IsDistinct kind seen [] = Unit
IsDistinct kind seen (r ∷ rs) =
    (is_in (shown (get kind.id_column r)) seen ≡ false)
    × IsDistinct kind (shown (get kind.id_column r) ∷ seen) rs

is_empty-append : (xs ys : List String) → is_empty (xs ++ ys) ≡ true → (xs ≡ []) × (ys ≡ [])
is_empty-append [] [] h = (refl, refl)
is_empty-append [] (y ∷ ys) h = absurd (cc)
is_empty-append (x ∷ xs) ys h = absurd (cc)

module _ (kind : Kind) (keys : Dict String) where
  judge_verified-valid :
      (r : Record) (secret : String) (key_id : Option String) (verified legacy : Bool)
      → judge_verified kind r secret key_id verified ≡ ok (valid legacy)
      → verified ≡ true
  unfolding judge_verified
  judge_verified-valid r secret key_id true legacy h = refl
  judge_verified-valid r secret key_id false legacy h = absurd (cc)

  judge_with-valid :
      (r : Record) (key_id secret : Option String) (legacy : Bool)
      → judge_with kind r key_id secret ≡ ok (valid legacy)
      → (s : String) × (secret ≡ some s) × (kind.verify r s key_id ≡ ok true)
  unfolding judge_with
  judge_with-valid r key_id none legacy h = absurd (cc)
  judge_with-valid r key_id (some s) legacy h =
      let (verified, ran, rest) = >>=-eq-ok (kind.verify r s key_id) _ h in
      (s, refl, rw (sym (judge_verified-valid r s key_id verified legacy rest)) ran)

  judge-valid :
      (r : Record) (legacy : Bool)
      → judge kind keys r ≡ ok (valid legacy)
      → (is_blank (get "record_integrity_hash" r) ≡ false)
        × (s : String) × (selected_secret keys (key_id_of r) ≡ some s)
        × (kind.verify r s (key_id_of r) ≡ ok true)
  unfolding judge
  judge-valid r legacy h = elim (Bool-cases (is_blank (get "record_integrity_hash" r))) [
    | inl blank ↦ absurd (let bad = rw blank at h in cc)
    | inr there ↦
        let (secret, selected, verified) =
          judge_with-valid r (key_id_of r) (selected_secret keys (key_id_of r)) legacy
            (rw there at h) in
        (there, secret, selected, verified)
  ]

  report-row :
      (seen : List String) (r : Record) (id : String) (verdict : Verdict) (s : Stats)
      → report (note_verdict kind id verdict (note_row kind seen r s)) ≡ true
      → (report s ≡ true)
        × ((legacy : Bool) × (verdict ≡ valid legacy))
        × (duplicates kind.id_column (shown (get kind.id_column r)) seen ≡ [])
        × (missing_fields (shown (get kind.id_column r)) r kind.required ≡ [])
  unfolding report note_row note_verdict
  report-row seen r id no_baseline s h = absurd (ground arith)
  report-row seen r id unverifiable s h =
      let bad = is_empty-append s.unverifiable (id ∷ []) (ground arith) in absurd (cc)
  report-row seen r id invalid s h =
      let bad = is_empty-append s.invalid (id ∷ []) (ground arith) in absurd (cc)
  report-row seen r id (valid legacy) s h =
      let (before, missing) =
        is_empty-append
          (s.structural ++ duplicates kind.id_column (shown (get kind.id_column r)) seen)
          (missing_fields (shown (get kind.id_column r)) r kind.required) (ground arith) in
      let (old, fresh) =
        is_empty-append s.structural (duplicates kind.id_column (shown (get kind.id_column r)) seen)
          (rw before refl) in
      (ground arith, (legacy, refl), fresh, missing)

  duplicates-nil :
      (column id : String) (seen : List String)
      → duplicates column id seen ≡ []
      → is_in id seen ≡ false
  unfolding duplicates
  duplicates-nil column id seen h = ground arith

  verify_rows_sound :
      (rs : List Record) (seen : List String) (s stats : Stats)
      → verify_rows kind keys seen s rs ≡ ok stats
      → report stats ≡ true
      → (report s ≡ true) × All (IsSound kind keys) rs × IsDistinct kind seen rs
  unfolding verify_rows
  verify_rows_sound [] seen s stats h good = (rw (ok-inj h) good, tt, tt)
  verify_rows_sound (r ∷ rs) seen s stats h good =
      let id = shown (get kind.id_column r) in
      let (verdict, judged, rest) = >>=-eq-ok (judge kind keys r) _ h in
      let (good', sound, distinct) = verify_rows_sound rs _ _ stats rest good in
      let (before, (legacy, is_valid), fresh, missing) = report-row seen r id verdict s good' in
      let (there, secret, selected, verified) = judge-valid r legacy (judged ∙ ap ok is_valid) in
      (
        before,
        ((secret, selected, verified, there, missing), sound),
        (duplicates-nil kind.id_column id seen fresh, distinct),
      )

  -- A table in whose rows no problem is reported: every row has its required columns and a stored
  -- hash that verifies under the configured key that it names, or the legacy key if it names none,
  -- and no two rows have one identifier.
  pub verify_rows-clean :
      (rs : List Record) (stats : Stats)
      → verify_rows kind keys [] no_stats rs ≡ ok stats
      → report stats ≡ true
      → All (IsSound kind keys) rs × IsDistinct kind [] rs
  verify_rows-clean rs stats h good =
      let (before, sound, distinct) = verify_rows_sound rs [] no_stats stats h good in
      (sound, distinct)
