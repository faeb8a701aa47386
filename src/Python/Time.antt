-- ===== src/Python/Time.antt =====
-- `datetime.datetime`: microseconds since 0001-01-01T00:00:00 on its own clock, and the offset of
-- that clock from UTC if it is timezone-aware.
use omnibioai_security_audit.Prelude.{ℕ, ◌+◌, ◌-◌, Option, none, ltb, if◌then◌else◌}
use omnibioai_security_audit.Python.{Exn, Result, ok, err}

-- A positive or a negative offset from UTC, in microseconds.
pub data Offset : Type 0 where
  east west : ℕ → Offset

pub record DateTime : Type 0 where
  pub wall : ℕ
  pub tzinfo : Option Offset

abbrev pub naive : ℕ → DateTime
naive t = record { wall = t; tzinfo = none }

-- `datetime.max`, 9999-12-31T23:59:59.999999
abbrev pub max_wall : ℕ
max_wall = 315537897599999999

abbrev pub overflow : Exn
overflow = record { kind = "OverflowError"; message = "date value out of range" }

-- A clock value that is moved forward or back; Python refuses a year outside 1 to 9999.
abbrev pub forward : ℕ → ℕ → Result ℕ
forward t d = if ltb max_wall (t + d) then err overflow else ok (t + d)

abbrev pub backward : ℕ → ℕ → Result ℕ
backward t d = if ltb t d then err overflow else ok (t - d)
