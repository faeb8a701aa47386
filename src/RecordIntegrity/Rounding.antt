-- ===== src/RecordIntegrity/Rounding.antt =====
-- The timestamp that is hashed against the one that a DATETIME column stores.
use omnibioai_security_audit.Prelude.{ℕ, ◌+◌, ◌*◌, ◌/◌, ◌≤◌, ◌≡◌, arith, false, some}
use omnibioai_security_audit.Python.{ok}
use omnibioai_security_audit.Python.Time.{naive, east, west, max_wall, forward, backward}
use omnibioai_security_audit.RecordIntegrity.Message.{round_second, canonical_time}

-- The whole second nearest to a time, the later one from half a second upwards.
abbrev pub round_half_up : ℕ → ℕ
round_half_up t = (t + 500000) / 1000000 * 1000000

-- The rounding of the code is the rounding to the nearest second, half a second upwards, whenever
-- the rounded time is a date at all.
pub round_second-eq_half_up :
    (t : ℕ) → round_half_up t ≤ max_wall → round_second t ≡ ok (round_half_up t)
unfolding round_second
round_second-eq_half_up t h = ground arith

pub round_half_up_idem : (t : ℕ) → round_half_up (round_half_up t) ≡ round_half_up t
round_half_up_idem t = omega arith

-- If a naive timestamp rounds to a date, the timestamp rounded to the nearest second, half a second
-- upwards, has the canonical form of the timestamp itself.
pub canonical_time-rounded :
    (t : ℕ)
    → round_half_up t ≤ max_wall
    → canonical_time false (naive (round_half_up t)) ≡ canonical_time false (naive t)
unfolding canonical_time
canonical_time-rounded t h =
    rw (round_second-eq_half_up t h, round_second-eq_half_up (round_half_up t) (omega arith))
      (ground (arith, round_half_up_idem t))

backward_add : (t m : ℕ) → backward (t + m) m ≡ ok t
backward_add t m = ground arith

forward-ok : (t m : ℕ) → t + m ≤ max_wall → forward t m ≡ ok (t + m)
forward-ok t m h = ground arith

-- As long as the later of the two clock values is a date, an instant read from a clock east or west
-- of UTC has the canonical form of that instant read in UTC.
pub canonical_time-offset :
    (t m : ℕ)
    → t + m ≤ max_wall
    → (canonical_time false (record { wall = t + m; tzinfo = some (east m) })
        ≡ canonical_time false (naive t))
      × (canonical_time false (record { wall = t; tzinfo = some (west m) })
          ≡ canonical_time false (naive (t + m)))
unfolding canonical_time
canonical_time-offset t m h = (rw (backward_add t m), rw (forward-ok t m h))
