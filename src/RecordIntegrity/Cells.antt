-- ===== src/RecordIntegrity/Cells.antt =====
-- A record whose columns are hashed: a dictionary from column names to values.
use omnibioai_security_audit.Prelude.{
  ℕ, ◌≡◌, refl, String, ◌==◌, Option, none, some, List, [], ◌∷◌, if◌then◌else◌,
}
use omnibioai_security_audit.Python.Time.{DateTime}
use omnibioai_security_audit.Python.Json.{Json}

pub data Cell : Type 0 where
  null : Cell
  text : String → Cell
  int : ℕ → Cell
  time : DateTime → Cell
  json : Json → Cell

abbrev pub Record : Type 0
Record = List (String × Cell)

-- A nullable text column.
abbrev pub opt_text : Option String → Cell
opt_text none = null
opt_text (some s) = text s

-- `record.get(k)`: a missing key reads as None.
unfoldable pub get : String → Record → Cell
get k [] = null
get k ((j, v) ∷ r) = if j == k then v else get k r

-- `record[k] = v` as a later entry that hides an earlier one
abbrev pub put : String → Cell → Record → Record
put k v r = (k, v) ∷ r

pub get-put :
    (k j : String) (v : Cell) (r : Record) → get j (put k v r) ≡ (if k == j then v else get j r)
unfolding get
get-put k j v r = refl
