-- ===== src/Common/Floats.antt =====
-- `f64` as the code uses it: an interface, with the laws of IEEE 754 that proofs rely on.
use Prim.Native.Nat.{ℕ, ◌<◌, ◌*◌, ◌/◌, ◌+◌}
use mathlib.Core.Path.{◌≡◌, refl}
use mathlib.Core.Bool.{Bool, true, false}
use mathlib.Core.Option.{Option, none, some}
use native.Mathlib.Omega.{arith}
use tperf.Common.Tests.{ltb}

pub record Float (F : Type 0) : Type 0 where
  -- `n as f64`, and literals that are whole numbers.
  pub from : ℕ → F
  pub infinity : F
  pub plus : F → F → F
  pub times : F → F → F
  pub over : F → F → F
  -- `x < y`.
  pub lt : F → F → Bool

-- `IsRate x`: not NaN, and not below 0. The order is total on such values.
pub record IsOrdered {F : Type 0} (f : Float F) : Type 1 where
  pub IsRate : F → Type 0
  pub infinity_rate : IsRate (Float.infinity f)
  pub from_rate : (n : ℕ) → IsRate (Float.from f n)
  pub times_rate : (x : F) (n : ℕ) → IsRate x → 0 < n → IsRate (Float.times f x (Float.from f n))
  pub over_rate : (x : F) (n : ℕ) → IsRate x → 0 < n → IsRate (Float.over f x (Float.from f n))
  pub lt_irrefl : (x : F) → IsRate x → Float.lt f x x ≡ false
  -- What is not below, in Boolean form: not `y < x` and not `z < y` give not `z < x`.
  pub le_trans :
      (x y z : F)
      → IsRate x
      → IsRate y
      → IsRate z
      → Float.lt f y x ≡ false
      → Float.lt f z y ≡ false
      → Float.lt f z x ≡ false
  pub lt_asymm : (x y : F) → IsRate x → IsRate y → Float.lt f x y ≡ true → Float.lt f y x ≡ false
  pub zero_least : (x : F) → IsRate x → Float.lt f x (Float.from f 0) ≡ false
  pub infinity_greatest : (x : F) → IsRate x → Float.lt f (Float.infinity f) x ≡ false

-- The laws can be met: whole numbers, with `none` for infinity.
abbrev pub on_both : (ℕ → ℕ → ℕ) → Option ℕ → Option ℕ → Option ℕ
on_both g (some a) (some b) = some (g a b)
on_both g _ _ = none

abbrev pub whole_lt : Option ℕ → Option ℕ → Bool
whole_lt (some a) (some b) = ltb a b
whole_lt (some a) none = true
whole_lt none y = false

abbrev pub whole : Float (Option ℕ)
whole = record {
  from = some;
  infinity = none;
  plus = on_both (λ a b. a + b);
  times = on_both (λ a b. a * b);
  over = on_both (λ a b. a / b);
  lt = whole_lt;
}

pub whole-IsOrdered : IsOrdered whole
whole-IsOrdered = record {
  IsRate = λ x. Unit;
  infinity_rate = tt;
  from_rate = λ n. tt;
  times_rate = λ x n h k. tt;
  over_rate = λ x n h k. tt;
  lt_irrefl = λ x h. irrefl x;
  le_trans = λ x y z a b c. trans x y z;
  lt_asymm = λ x y a b. asymm x y;
  zero_least = λ x h. least x;
  infinity_greatest = λ x h. refl;
}
  where
    irrefl : (x : Option ℕ) → whole_lt x x ≡ false
    irrefl none = refl
    irrefl (some a) = ground arith

    trans : (x y z : Option ℕ) → whole_lt y x ≡ false → whole_lt z y ≡ false → whole_lt z x ≡ false
    trans (some a) (some b) (some c) h k = ground arith
    trans none (some b) z h k = ground arith
    trans none none z h k = k
    trans (some a) none (some c) h k = ground arith
    trans (some a) y none h k = refl

    asymm : (x y : Option ℕ) → whole_lt x y ≡ true → whole_lt y x ≡ false
    asymm (some a) (some b) h = ground arith
    asymm (some a) none h = refl
    asymm none y h = ground arith

    least : (x : Option ℕ) → whole_lt x (some 0) ≡ false
    least none = refl
    least (some a) = ground arith
