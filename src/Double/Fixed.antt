-- ===== src/Double/Fixed.antt =====
-- A `double` for runs of the model.
use choose_cut.Base.{ℕ, ◌+◌, ◌-◌, ◌*◌, ◌/◌, arith, ltb, leb}
use choose_cut.Double.{Doubles, double_equals, IsReflexive, IsOrdered}

-- Numbers in steps of 0.0001.
abbrev pub fixed : Doubles
fixed = record {
  Double = ℕ;
  from_int = λ k. k * 10000;
  add = λ a b. a + b;
  sub = λ a b. a - b;
  div = λ a b. (a * 10000) / b;
  less = ltb;
  less_eq = leb;
  epsilon = 1;
}

pub fixed-IsReflexive : IsReflexive fixed
unfolding double_equals
fixed-IsReflexive k = ground arith

pub fixed-IsOrdered : IsOrdered fixed
fixed-IsOrdered = record { asym = λ a b lt. ground arith; neg_trans = λ a b c p q. ground arith }
