-- ===== src/Base/Int.antt =====
-- Signed integers: `negsuc n` is -(n + 1).
use seck.Base.{ℕ, Bool, false, ◌==◌}

pub data ℤ : Type 0 where
  pos : ℕ → ℤ
  negsuc : ℕ → ℤ

abbrev pub is_pos : ℕ → ℤ → Bool
is_pos n (pos m) = n == m
is_pos n (negsuc m) = false
