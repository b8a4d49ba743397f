-- ===== src/Prelude/JsNumber.antt =====
-- The numbers that options are given as, as far as the code tests them.
use Prim.Native.Nat.{ℕ}
use mathlib.Core.Bool.{Bool, true, false}

-- `minus n` is the integer -(n + 1); `fractional` and `infinite` hold whether they are positive.
pub data JsNumber : Type 0 where
  whole minus : ℕ → JsNumber
  fractional infinite : Bool → JsNumber
  not_a_number : JsNumber

abbrev pub is_integer : JsNumber → Bool
is_integer (whole n) = true
is_integer (minus n) = true
is_integer _ = false

abbrev pub is_finite : JsNumber → Bool
is_finite (infinite p) = false
is_finite not_a_number = false
is_finite _ = true

-- `x > 0`
abbrev pub is_positive : JsNumber → Bool
is_positive (whole ℕ.zero) = false
is_positive (whole (ℕ.suc n)) = true
is_positive (minus n) = false
is_positive (fractional p) = p
is_positive (infinite p) = p
is_positive not_a_number = false

-- `x < 0`
abbrev pub is_negative : JsNumber → Bool
is_negative (minus n) = true
is_negative (fractional true) = false
is_negative (fractional false) = true
is_negative (infinite true) = false
is_negative (infinite false) = true
is_negative _ = false
