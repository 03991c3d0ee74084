-- ===== src/Float/Order.antt =====
-- The order of floats that are no NaN.
use locate.Prelude.{◌≡◌, true, false, arith}
use locate.Float.{Float64, is_nan, lt}

pub lt_asymm : (x y : Float64) → lt x y ≡ true → lt y x ≡ false
unfolding lt
lt_asymm x y h = ground arith

-- "not below" is transitive where no NaN is compared
pub not_lt_trans :
    (x y z : Float64)
    → is_nan x ≡ false
    → is_nan y ≡ false
    → is_nan z ≡ false
    → lt y x ≡ false
    → lt z y ≡ false
    → lt z x ≡ false
unfolding lt
not_lt_trans x y z h k l p q = ground arith
