-- ===== src/Common/Int.antt =====
-- Signed integers over the native numbers (Go's `int` where the source lets it be negative).
use Prim.Native.Nat.{ℕ, zero, suc}
use mathlib.Core.Path.{◌≡◌, refl}
use mathlib.Core.Bool.{Bool, true}
use siger_api_gateway.Common.Tests.{ltb}

-- `negsuc n` is -(n + 1).
pub data ℤ : Type 0 where
  pos : ℕ → ℤ
  negsuc : ℕ → ℤ

abbrev pub to_nat : ℤ → ℕ
to_nat (pos n) = n
to_nat (negsuc n) = 0

-- `z < n` for a literal `n`.
abbrev pub ltb_ℤ : ℤ → ℕ → Bool
ltb_ℤ (pos m) n = ltb m n
ltb_ℤ (negsuc m) n = true

-- `z + 1` and `z - 1`.
abbrev pub add_one : ℤ → ℤ
add_one (pos n) = pos (suc n)
add_one (negsuc zero) = pos 0
add_one (negsuc (suc n)) = negsuc n

abbrev pub sub_one : ℤ → ℤ
sub_one (pos zero) = negsuc 0
sub_one (pos (suc n)) = pos n
sub_one (negsuc n) = negsuc (suc n)

pub sub_one-add_one : (z : ℤ) → sub_one (add_one z) ≡ z
sub_one-add_one (pos n) = refl
sub_one-add_one (negsuc zero) = refl
sub_one-add_one (negsuc (suc n)) = refl
