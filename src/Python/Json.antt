-- ===== src/Python/Json.antt =====
-- The values that `json.loads` returns.
use omnibioai_security_audit.Prelude.{String, Bool, Option, none, some, ◌==◌, if◌then◌else◌}

-- A number is kept as its literal.
mutual
  pub data Json : Type 0 where
    null : Json
    bool : Bool → Json
    num : String → Json
    str : String → Json
    arr : Items → Json
    obj : Fields → Json

  pub data Items : Type 0 where
    nil : Items
    cons : Json → Items → Items

  pub data Fields : Type 0 where
    end : Fields
    field : String → Json → Fields → Fields

-- `d.get(k)`, with `none` for a key that is not there
unfoldable pub get : String → Fields → Option Json
get k end = none
get k (field j v d) = if j == k then some v else get k d
