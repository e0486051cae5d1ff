-- ===== src/Base/Numbers.antt =====
-- JavaScript numbers as far as the code looks at them: whole part, fraction or not, NaN, infinities.
use Prim.Native.Nat.{ℕ, ◌+◌, ◌-◌}
use mathlib.Core.Bool.{Bool, false}
use mathlib.Core.Option.{Option, none, some}
use mathlib.Core.Path.{◌≡◌}
use native.Mathlib.Omega.{arith}
use agent_runtime_notes.Base.Tests.{leb, ltb, if◌then◌else◌, max_safe_integer}

-- `negsuc n` is -(n + 1).
pub data ℤ : Type 0 where
  pos : ℕ → ℤ
  negsuc : ℕ → ℤ

-- `finite z fractional` is a number whose part before the point is `z`.
pub data JsNumber : Type 0 where
  nan neg_infinity pos_infinity : JsNumber
  finite : ℤ → Bool → JsNumber

abbrev pub of_ℕ : ℕ → JsNumber
of_ℕ n = finite (pos n) false

-- `Math.trunc`.
abbrev pub trunc : JsNumber → JsNumber
trunc (finite z fractional) = finite z false
trunc x = x

-- `Number.isSafeInteger(x) && x >= 0`, with the integer.
abbrev pub safe_index : JsNumber → Option ℕ
safe_index (finite (pos n) false) = if leb n max_safe_integer then some n else none
safe_index x = none

-- `m - n`.
abbrev pub difference : ℕ → ℕ → ℤ
difference m n = if leb n m then pos (m - n) else negsuc (n - m - 1)

infixl 60 ◌+ℤ◌ ◌-ℤ◌
abbrev pub ◌+ℤ◌ : ℤ → ℤ → ℤ
pos m +ℤ pos n = pos (m + n)
pos m +ℤ negsuc n = difference m (n + 1)
negsuc m +ℤ pos n = difference n (m + 1)
negsuc m +ℤ negsuc n = negsuc (m + n + 1)

abbrev pub ◌-ℤ◌ : ℤ → ℤ → ℤ
pos m -ℤ pos n = difference m n
pos m -ℤ negsuc n = pos (m + n + 1)
negsuc m -ℤ pos n = negsuc (m + n)
negsuc m -ℤ negsuc n = difference n m

-- `Number.isSafeInteger`.
abbrev pub is_safe_integer : ℤ → Bool
is_safe_integer (pos n) = leb n max_safe_integer
is_safe_integer (negsuc n) = ltb n max_safe_integer

pub add-sub_cancel : (a b : ℤ) → a +ℤ (b -ℤ a) ≡ b
add-sub_cancel (pos m) (pos n) = ground arith
add-sub_cancel (pos m) (negsuc n) = ground arith
add-sub_cancel (negsuc m) (pos n) = ground arith
add-sub_cancel (negsuc m) (negsuc n) = ground arith
