-- ===== src/Retention/Purge.antt =====
-- The abstract purge of a table, and that a DELETE which no trigger stopped does it.
use omnibioai_security_audit.Prelude.{
  ℕ, ◌≡◌, refl, sym, ap, inl, inr, arith, String, Bool, List, [], ◌∷◌, Bool-cases, if◌then◌else◌,
}
use omnibioai_security_audit.Python.{ok, ok-inj, >>=-eq-ok}
use omnibioai_security_audit.Retention.Store.{Store, Collation, Trigger, each_row}
use omnibioai_security_audit.Retention.Statement.{delete, change_rows}
use omnibioai_security_audit.Retention.Tables.{
  Table, audit_events, quarantined_audit_events, Row, rows, with_rows, guards,
}
use omnibioai_security_audit.Retention.Cleanup.{count, is_eligible}

-- The rows that a test does not find.
abbrev pub without : {A : Type 0} → (A → Bool) → List A → List A
without test [] = []
without test (x ∷ xs) = let rest = without test xs in if test x then rest else x ∷ rest

-- A DELETE that no trigger stopped took away the rows that it matched, and counted them.
pub delete-exact :
    {A : Type 0} (trigger : Trigger A) (matches : A → Bool) (rs : List A) (done : List A × ℕ)
    → each_row trigger matches (λ row. []) rs ≡ ok done
    → done ≡ (without matches rs, count matches rs)
unfolding each_row count
delete-exact trigger matches [] done h = sym (ok-inj h)
delete-exact trigger matches (x ∷ rs) done h = elim (Bool-cases (matches x)) [
  | inl t ↦
      let (u, passed, then_rest) = >>=-eq-ok (trigger x) _ (rw t at h) in
      let (rest, made, same) = >>=-eq-ok (each_row trigger matches (λ row. []) rs) _ then_rest in
      let ih = delete-exact trigger matches rs rest made in rw (t, ← ok-inj same, ih) refl
  | inr f ↦
      let (rest, made, same) = >>=-eq-ok (each_row trigger matches (λ row. []) rs) _ (rw f at h) in
      let ih = delete-exact trigger matches rs rest made in rw (f, ← ok-inj same, ih) refl
]

pub without-nothing :
    {A : Type 0} (matches : A → Bool) (rs : List A) → count matches rs ≡ 0 → without matches rs ≡ rs
unfolding count
without-nothing matches [] h = refl
without-nothing matches (x ∷ rs) h = elim (Bool-cases (matches x)) [
  | inl t ↦ absurd (let bad = rw t at h in omega arith)
  | inr f ↦ rw f (ap (λ r. x ∷ r) (without-nothing matches rs (rw f at h)))
]

-- The abstract operation: a table without the rows that are old and not under legal hold.
unfoldable pub purge : Collation → Table → ℕ → Store → Store
purge collation t cutoff store =
    with_rows t (without (is_eligible collation t cutoff store.audit_legal_holds) (rows t store))
      store

pub with_rows_same : (t : Table) (store : Store) → with_rows t (rows t store) store ≡ store
with_rows_same audit_events store = refl
with_rows_same quarantined_audit_events store = refl

pub change_rows-delete :
    (collation : Collation) (user : String) (t : Table) (store : Store) (matches : Row t → Bool)
    (done : List (Row t) × ℕ)
    → change_rows (guards collation t user store) (delete matches) (rows t store) ≡ ok done
    → done ≡ (without matches (rows t store), count matches (rows t store))
unfolding change_rows
change_rows-delete collation user t store matches done h =
    delete-exact (guards collation t user store).no_delete matches (rows t store) done h
