-- ===== src/Query/Projected.antt =====
-- The items that a reader is answered with hold nothing but what the route means to show.
use omnibioai_security_audit.Prelude.{
  ℕ, ◌≡◌, arith, eq_iff, String, ◌==◌, Bool, true, false, List, [], ◌∷◌, Option, none, some, All,
  inl, inr, refl, ap, sym, Bool-cases, if◌then◌else◌,
}
use omnibioai_security_audit.Python.{ok, ok-inj}
use omnibioai_security_audit.Python.Time.{DateTime}
use omnibioai_security_audit.Python.Json.{Json, Fields, field, get}
use omnibioai_security_audit.Python.Exec.Keeps.{bind-eq-ok}
use omnibioai_security_audit.Library.{Library}
use omnibioai_security_audit.Storage.Rows.{AuditEventRecord}
use omnibioai_security_audit.Query.{Filters, Select}
use omnibioai_security_audit.Query.Access.{AuditAccess, access_of}
use omnibioai_security_audit.Query.Route.{Response, listed, unavailable, safe_route}
use omnibioai_security_audit.Query.Isolated.{IsSelective, IsOwn, safe_route-IsOwn}
use omnibioai_security_audit.Query.Answer.{
  is_one_of, pick, safe_metadata_keys, integrity_values, context_of, project_safe_metadata,
  SafeAuditEventOut, safe_item, safe_items, safe_integrity, SafeAuditEventListResponse,
  list_response, Answer, success, service_unavailable, answer_of, safe_answer,
}

-- Reading a key where another may have been put in front.
get-elim :
    (found : Option Json) (k key : String) (rest : Fields)
    → get key (elim found [ none ↦ rest | some value ↦ field k value rest ]) ≡ (
        if k == key
        then elim found [ none ↦ get key rest | some value ↦ some value ]
        else get key rest)
unfolding get
get-elim none k key rest = ground arith
get-elim (some value) k key rest = refl

-- A value that is found, or sought where it is none.
found-or :
    {A : Type 0} (found next other : Option A) (b : Bool)
    → found ≡ other
    → next ≡ (if b then other else none)
    → (elim found [ none ↦ next | some value ↦ some value ]) ≡ other
found-or none next other b e h = ground arith
found-or (some value) next other b e h = e

get-pick :
    (keys : List String) (context : Fields) (key : String)
    → get key (pick keys context) ≡ (if is_one_of key keys then get key context else none)
unfolding pick is_one_of get
get-pick [] context key = refl
get-pick (k ∷ keys) context key = elim (Bool-cases (key == k)) [
  | inl same ↦
      let e : k ≡ key = sym ((eq_iff key k).0 same) in
      rw (get-elim (get k context) k key (pick keys context), (eq_iff k key).1 e, same)
        (found-or (get k context) _ (get key context) (is_one_of key keys)
          (ap (λ j. get j context) e) (get-pick keys context key))
  | inr other ↦
      let away : (k == key) ≡ false = ground (arith, eq_iff k key, eq_iff key k) in
      rw
        (get-elim (get k context) k key (pick keys context), away, other, get-pick keys context key)
        refl
]

-- The metadata of an item has the allowed keys of the row's context, with their values, and no
-- other.
pub get-project_safe_metadata :
    (row : AuditEventRecord) (key : String)
    → get key (project_safe_metadata row)
      ≡ (if is_one_of key safe_metadata_keys then get key (context_of row.context) else none)
unfolding project_safe_metadata
get-project_safe_metadata row key = get-pick safe_metadata_keys (context_of row.context) key

is_one_of-safe_integrity :
    (status : String) → is_one_of (safe_integrity status) integrity_values ≡ true
unfolding safe_integrity
is_one_of-safe_integrity status = elim (Bool-cases (is_one_of status integrity_values)) [
  | inl known ↦ rw (known) known
  | inr other ↦ rw (other) refl
]

-- An item names the organization, has no metadata under a key that is not allowed, and one of the
-- four integrity values.
pub record IsShown (Same : Option String → Option String → Type 0) (own : String)
    (item : SafeAuditEventOut) : Type 0 where
  pub organization_id : Same item.organization_id (some own)
  pub metadata :
      (key : String) → is_one_of key safe_metadata_keys ≡ false → get key item.metadata ≡ none
  pub integrity : is_one_of item.integrity integrity_values ≡ true

abbrev items_of : Answer → List SafeAuditEventOut
items_of (success out) = out.items
items_of (service_unavailable content) = []

-- An answer with events has the items of the rows that were listed.
answer_of-success :
    (lib : Library) (page page_size : ℕ) (now : DateTime) (response : Response)
    (out : SafeAuditEventListResponse)
    → answer_of lib page page_size now response ≡ success out
    → (rows : List AuditEventRecord) × (total : ℕ) × (pages : ℕ) × (response
        ≡ listed rows total pages)
      × (out.items ≡ safe_items rows)
unfolding answer_of list_response
answer_of-success lib page page_size now (listed rows total pages) out h =
    (rows, total, pages, refl, ap items_of (sym h))
answer_of-success lib page page_size now unavailable out h = absurd (cc)

module _ {D : Type 0} (select : Select D) (Same : Option String → Option String → Type 0) where
  safe_item-IsShown :
      (own : String) (row : AuditEventRecord)
      → IsOwn Same own row
      → IsShown Same own (safe_item row)
  unfolding safe_item
  safe_item-IsShown own row mine = record {
    organization_id = mine.0;
    metadata = λ key h. rw (get-project_safe_metadata row key, h) refl;
    integrity = is_one_of-safe_integrity row.integrity_status;
  }

  safe_items-IsShown :
      (own : String) (rows : List AuditEventRecord)
      → All (IsOwn Same own) rows
      → All (IsShown Same own) (safe_items rows)
  unfolding safe_items
  safe_items-IsShown own [] all = tt
  safe_items-IsShown own (row ∷ rows) all =
      (safe_item-IsShown own row all.0, safe_items-IsShown own rows all.1)

  -- If the database returns only rows that meet the equalities of a query in its columns' collation:
  -- when a reader whose verified token gives access, but not to the whole platform, is answered with
  -- events, the token names an organization; every item of the answer has that organization and one
  -- of the four integrity values; and its metadata has no key but the seven that are allowed.
  pub safe_answer-IsShown :
      IsSelective select Same
      → (lib : Library) (is_zero : String → Bool) (payload : Fields) (access : AuditAccess)
        (now : DateTime) (page page_size : ℕ) (org : Option String) (f : Filters) (d : D)
        (out : SafeAuditEventListResponse)
      → access_of lib is_zero payload ≡ ok access
      → access.platform_wide ≡ false
      → (safe_answer lib select now access page page_size org f d).0 ≡ ok (success out)
      → (own : String) × (access.organization_id ≡ some own) × All (IsShown Same own) out.items
  unfolding safe_answer answer_of list_response
  safe_answer-IsShown selective lib is_zero payload access now page page_size org f d out allowed
        narrow h =
      let (response, queried, same) =
        bind-eq-ok (safe_route select access page page_size org f) _ d h in
      let (rows, total, pages, e, shown) =
        answer_of-success lib page page_size now response out (ok-inj same) in
      let (own, named, mine) =
        safe_route-IsOwn select Same selective lib is_zero payload access page page_size org f d
          rows total pages allowed narrow (rw e at queried) in
      (own, named, rw shown (safe_items-IsShown own rows mine))
