-- ===== src/Integrity/Counts.antt =====
-- The statistics account for every row.
use omnibioai_security_audit.Prelude.{
  ℕ, ◌+◌, ◌≤◌, ◌≡◌, arith, String, true, false, List, [], ◌∷◌, ◌++◌, Dict, length,
}
use omnibioai_security_audit.Python.{ok, ok-inj, >>=-eq-ok}
use omnibioai_security_audit.RecordIntegrity.Cells.{Record, get}
use omnibioai_security_audit.Integrity.{
  Kind, Stats, no_stats, Verdict, no_baseline, unverifiable, invalid, valid, judge, note_row,
  note_verdict, verify_rows, shown,
}

-- The rows in a table's statistics.
abbrev pub accounted : Stats → ℕ
accounted s = s.valid + length s.invalid + length s.unverifiable + s.no_baseline

length-append_one : (xs : List String) (x : String) → length (xs ++ x ∷ []) ≡ length xs + 1
length-append_one [] x = omega arith
length-append_one (y ∷ xs) x = omega (arith, length-append_one xs x)

module _ (kind : Kind) (keys : Dict String) where
  accounted-row :
      (seen : List String) (r : Record) (id : String) (verdict : Verdict) (s : Stats)
      → (accounted (note_verdict kind id verdict (note_row kind seen r s)) ≡ accounted s + 1)
        × ((note_verdict kind id verdict (note_row kind seen r s)).checked ≡ s.checked + 1)
        × (s.valid_legacy_tz ≤ s.valid
            → (note_verdict kind id verdict (note_row kind seen r s)).valid_legacy_tz
              ≤ (note_verdict kind id verdict (note_row kind seen r s)).valid)
  unfolding note_row note_verdict
  accounted-row seen r id no_baseline s = (omega arith, omega arith, λ h. h)
  accounted-row seen r id unverifiable s =
      (omega (arith, length-append_one s.unverifiable id), omega arith, λ h. h)
  accounted-row seen r id invalid s =
      (omega (arith, length-append_one s.invalid id), omega arith, λ h. h)
  accounted-row seen r id (valid true) s = (omega arith, omega arith, λ h. omega arith)
  accounted-row seen r id (valid false) s = (omega arith, omega arith, λ h. omega arith)

  verify_rows-accounted :
      (rs : List Record) (seen : List String) (s : Stats) (stats : Stats)
      → verify_rows kind keys seen s rs ≡ ok stats
      → s.valid_legacy_tz ≤ s.valid
      → (accounted stats ≡ accounted s + length rs)
        × (stats.checked ≡ s.checked + length rs)
        × (stats.valid_legacy_tz ≤ stats.valid)
  unfolding verify_rows
  verify_rows-accounted [] seen s stats h l = rw (← ok-inj h) (omega arith, omega arith, l)
  verify_rows-accounted (r ∷ rs) seen s stats h l =
      let (verdict, judged, rest) = >>=-eq-ok (judge kind keys r) _ h in
      let (one, counted, bound) = accounted-row seen r (shown (get kind.id_column r)) verdict s in
      let (all, total, bound') = verify_rows-accounted rs _ _ stats rest (bound l) in
      (omega arith, omega arith, bound')

  -- When the verification of a table ends: it has checked each row once, every row is counted as
  -- valid, invalid, unverifiable or without a baseline, and no more rows match the older timestamp
  -- form than are valid.
  pub verify_rows-counts :
      (rs : List Record) (stats : Stats)
      → verify_rows kind keys [] no_stats rs ≡ ok stats
      → (stats.checked ≡ length rs)
        × (stats.valid + length stats.invalid + length stats.unverifiable + stats.no_baseline
            ≡ stats.checked)
        × (stats.valid_legacy_tz ≤ stats.valid)
  verify_rows-counts rs stats h =
      let (all, total, bound) = verify_rows-accounted rs [] no_stats stats h (omega arith) in
      (omega arith, omega arith, bound)
