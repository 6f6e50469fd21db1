-- ===== src/Double.antt =====
-- `double`, which the program uses to compare cuts: a parameter with the operations that it calls,
-- and double_equals of utils.c.
pub mod Fixed
use choose_cut.Base.{ℕ, ◌-◌, ◌^◌, ◌≡◌, Bool, true, false, ltb, if◌then◌else◌}

pub record Doubles : Type 1 where
  pub Double : Type 0
  pub from_int : ℕ → Double
  pub add : Double → Double → Double
  pub sub : Double → Double → Double
  pub div : Double → Double → Double
  pub less : Double → Double → Bool
  pub less_eq : Double → Double → Bool
  -- 0.0001
  pub epsilon : Double

module _ (F : Doubles) where
  open F use {Double, from_int, sub, less, less_eq, epsilon}

  unfoldable pub double_equals : Double → Double → Bool
  double_equals a b = if less_eq a b then less (sub b a) epsilon else less (sub a b) epsilon

  -- An `int` in 32 bits, to `double`.
  abbrev pub from_signed : ℕ → Double
  from_signed w = if ltb w (2 ^ 31) then from_int w else sub (from_int 0) (from_int (2 ^ 32 - w))

-- Where the numbers are equal the program sees no gain.
abbrev pub IsReflexive : Doubles → Type 0
IsReflexive F = (k : ℕ) → double_equals F (F.from_int k) (F.from_int k) ≡ true

-- What holds of the order, where no number is a NaN.
pub record IsOrdered (F : Doubles) : Type 0 where
  pub asym : (a b : F.Double) → F.less a b ≡ true → F.less b a ≡ false
  pub neg_trans : (a b c : F.Double) → F.less a b ≡ false → F.less b c ≡ false → F.less a c ≡ false
