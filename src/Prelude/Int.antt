-- ===== src/Prelude/Int.antt =====
-- Integers over the native numbers, and JavaScript's numbers as the client tests them.
use Prim.Native.Nat.{ℕ, suc, ◌-◌}
use mathlib.Core.Bool.{Bool, false}
use mc_carto_live.Prelude.Tests.{leb, ltb, if◌then◌else◌}

-- `negsuc n` is -(n + 1).
pub data ℤ : Type 0 where
  pos : ℕ → ℤ
  negsuc : ℕ → ℤ

abbrev pub pos_part : ℤ → ℕ
pos_part (pos n) = n
pos_part (negsuc n) = 0

abbrev pub neg_part : ℤ → ℕ
neg_part (pos n) = 0
neg_part (negsuc n) = suc n

-- a - b, as an integer.
abbrev pub sub_ℕ : ℕ → ℕ → ℤ
sub_ℕ a b = if leb b a then pos (a - b) else negsuc (b - a - 1)

-- A value at a place of type `number`: an integer, or anything else that JSON can put there (a
-- fraction, a value of another type).
pub data JsNumber : Type 0 where
  int : ℤ → JsNumber
  other : JsNumber

-- 2^53 - 1
abbrev pub max_safe_integer : ℕ
max_safe_integer = 9_007_199_254_740_991

-- Number.isSafeInteger
abbrev pub is_safe_integer : JsNumber → Bool
is_safe_integer (int (pos n)) = leb n max_safe_integer
is_safe_integer (int (negsuc n)) = ltb n max_safe_integer
is_safe_integer other = false
