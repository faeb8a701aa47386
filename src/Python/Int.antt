-- ===== src/Python/Int.antt =====
-- Python's `int`.
use omnibioai_security_audit.Prelude.{ℕ}

pub data ℤ : Type 0 where
  pos : ℕ → ℤ
  negsuc : ℕ → ℤ
