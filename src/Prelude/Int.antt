-- ===== src/Prelude/Int.antt =====
-- Signed integers, as far as the configuration needs them: `negsuc n` is -(n + 1).
use Prim.Native.Nat.{ℕ, zero, suc, ◌+◌, ◌-◌, ◌<◌}
use mathlib.Core.Bool.{Bool, true, false}
use native.Mathlib.Omega.{arith}
use ssh_worker.Prelude.Tests.{leb, if◌then◌else◌}

pub data ℤ : Type 0 where
  pos : ℕ → ℤ
  negsuc : ℕ → ℤ

-- `x <= 0`.
abbrev pub is_nonpos : ℤ → Bool
is_nonpos (pos zero) = true
is_nonpos (pos (suc n)) = false
is_nonpos (negsuc n) = true

-- `x < 0`.
abbrev pub is_neg : ℤ → Bool
is_neg (pos n) = false
is_neg (negsuc n) = true

-- `x == 0`.
abbrev pub is_zero : ℤ → Bool
is_zero (pos zero) = true
is_zero (pos (suc n)) = false
is_zero (negsuc n) = false

-- `if x <= 0 { x = d }`, for a positive default `d`: what is left is a natural number.
abbrev pub positive_or : ℤ → ℕ → ℕ
positive_or (pos zero) d = d
positive_or (pos (suc n)) d = suc n
positive_or (negsuc n) d = d

-- `if x < 0 { x = d }`.
abbrev pub nonneg_or : ℤ → ℕ → ℕ
nonneg_or (pos n) d = n
nonneg_or (negsuc n) d = d

-- `x + n`, for a natural number `n`.
abbrev pub add_nat : ℤ → ℕ → ℤ
add_nat (pos m) n = pos (m + n)
add_nat (negsuc m) n = if leb (suc m) n then pos (n - suc m) else negsuc (m - n)

pub positive_or-pos : (x : ℤ) (d : ℕ) → 0 < d → 0 < positive_or x d
positive_or-pos (pos zero) d h = h
positive_or-pos (pos (suc n)) d h = omega arith
positive_or-pos (negsuc n) d h = h
