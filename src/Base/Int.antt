-- ===== src/Base/Int.antt =====
-- Go's signed integers; `negsuc n` is -(n + 1).
use iconify_cli.Base.{ℕ, Bool, true, false}

pub data ℤ : Type 0 where
  pos : ℕ → ℤ
  negsuc : ℕ → ℤ

-- a < 0
abbrev pub is_negative : ℤ → Bool
is_negative (pos n) = false
is_negative (negsuc n) = true
