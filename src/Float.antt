-- ===== src/Float.antt =====
-- Go's `float64` by its bits (IEEE 754): a sign and 63 bits, which order the values of one sign.
-- The program compares floats; what it computes with them is done by packages outside the repository.
pub mod Order
use locate.Prelude.{ℕ, ◌+◌, Bool, true, false, not, ◌&&◌, ltb, nat_eq}

pub record Float64 : Type 0 where
  pub negative : Bool
  pub magnitude : ℕ

-- the 63 bits of +Inf; every larger pattern is a NaN
abbrev pub inf_bits : ℕ
inf_bits = 0x7ff0_0000_0000_0000

unfoldable pub is_nan : Float64 → Bool
is_nan x = ltb inf_bits x.magnitude

unfoldable pub is_inf : Float64 → Bool
is_inf x = nat_eq x.magnitude inf_bits

-- `x == 0`, true of both zeros
unfoldable pub is_zero : Float64 → Bool
is_zero x = nat_eq x.magnitude 0

abbrev pub lt_signed : Bool → ℕ → Bool → ℕ → Bool
lt_signed false a false b = ltb a b
lt_signed true a true b = ltb b a
lt_signed true a false b = ltb 0 (a + b)
lt_signed false a true b = false

-- `x < y`
unfoldable pub lt : Float64 → Float64 → Bool
unfolding is_nan
lt x y = not (is_nan x) && not (is_nan y) && lt_signed x.negative x.magnitude y.negative y.magnitude
