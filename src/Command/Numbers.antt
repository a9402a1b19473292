-- ===== src/Command/Numbers.antt =====
-- The signed numbers of the flags: int64 and time.Duration, which the parsers keep within 64 bits.
use secretproxy.Prelude.{ℕ}

-- `negsuc n` is -(n + 1).
pub data ℤ : Type 0 where
  pos negsuc : ℕ → ℤ
