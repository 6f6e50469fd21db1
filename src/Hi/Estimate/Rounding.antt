-- ===== src/Hi/Estimate/Rounding.antt =====
-- roundup_log2, and the width of the segments that it gives.
use native.Mathlib.Nat.{div-mul-le_self, lt-div-mul-add, mul-le-mul}
use choose_cut.Base.{
  ◌≢◌, ℕ, zero, suc, ◌+◌, ◌-◌, ◌*◌, ◌/◌, ◌^◌, ◌≤◌, ◌<◌, ◌≡◌, refl, ap, ◌∙◌, arith, inl, inr, true,
  false, some, ltb, ◌==◌, ==_iff, Bool-cases, add64, sub64, clz,
}
use choose_cut.Base.Pow.{clz_bounds, pow-suc_two}
use choose_cut.Hi.Estimate.{roundup_log2, seg_length}

pub record Rounded (n : ℕ) : Type 0 where
  pub shift : ℕ
  pub run : roundup_log2 n ≡ some shift
  pub enough : n ≤ 2 ^ shift
  pub least : 2 ^ shift < 2 * n
  pub small : shift ≤ 31

-- For a positive int roundup_log2 passes its assertion and gives the least number of bits with a power of
-- two that is no smaller.
pub roundup_log2-Rounded : (n : ℕ) → 0 < n → n < 2 ^ 31 → Rounded n
unfolding roundup_log2
roundup_log2-Rounded n pos lt =
    let (few, low, high) = clz_bounds 32 n pos (omega arith) in
    let before : 32 - clz 32 n - 1 ≡ 32 - 1 - clz 32 n = omega arith in
    let nonzero : (n == 0) ≡ false = ground arith in
    let positive : ltb n (2 ^ 31) ≡ true = ground arith in
    let some_zeros : 1 ≤ clz 32 n = zeros (clz 32 n) low in
    let twice : 2 ^ (32 - clz 32 n) ≡ 2 * 2 ^ (32 - 1 - clz 32 n) = double (clz 32 n) few in
    elim (Bool-cases (n == 2 ^ (32 - 1 - clz 32 n))) [
      | inl power ↦
          let same = (==_iff n (2 ^ (32 - 1 - clz 32 n))).0 power in
          record {
            shift = 32 - 1 - clz 32 n;
            run = rw (nonzero, positive, before, power) refl;
            enough = omega (arith, same);
            least = omega (arith, same);
            small = omega arith;
          }
      | inr between ↦
          let differs : n ≢ 2 ^ (32 - 1 - clz 32 n) = λ e.
            (let e' = (==_iff n (2 ^ (32 - 1 - clz 32 n))).1 e in ground (arith, e', between)) in
          record {
            shift = 32 - clz 32 n;
            run = rw (nonzero, positive, before, between) refl;
            enough = omega (arith, twice);
            least = omega (arith, twice, differs);
            small = omega arith;
          }
    ]
  where
    zeros : (c : ℕ) → 2 ^ (32 - 1 - c) ≤ n → 1 ≤ c
    zeros zero low = absurd (omega arith)
    zeros (suc c) low = omega arith

    double : (c : ℕ) → c < 32 → 2 ^ (32 - c) ≡ 2 * 2 ^ (32 - 1 - c)
    double c few =
        let e : 32 - c ≡ suc (32 - 1 - c) = omega arith in rw e (pow-suc_two (32 - 1 - c))

-- The segments are long enough for the range of the node.
pub record Divided (len div : ℕ) : Type 0 where
  pub shift : ℕ
  pub run : roundup_log2 (seg_length len div) ≡ some shift
  pub covers : len ≤ div * 2 ^ shift
  pub small : shift ≤ 31

pub seg_length-Divided :
    (len div : ℕ) → 4 ≤ div → div ≤ 128 → 0 < len → len ≤ 2 ^ 32 → Divided len div
seg_length-Divided len div some_div few pos small =
    let a = len + div - 1 in
    let n = a / div in
    let below : n * div ≤ a = div-mul-le_self a div in
    let above : a < n * div + div = lt-div-mul-add {a = a} {b = div} (omega arith) in
    let four : n * 4 ≤ n * div =
      mul-le-mul {n₁ = n} {m₁ = 4} {n₂ = n} {m₂ = div} (omega arith) some_div in
    let n_pos : 0 < n = positive n (omega arith) in
    let sum : sub64 (add64 len div) 1 ≡ a = omega arith in
    let value : seg_length len div ≡ n = rw sum (omega arith) in
    let r = roundup_log2-Rounded n n_pos (omega arith) in
    let wide : n * div ≤ 2 ^ r.shift * div =
      mul-le-mul {n₁ = n} {m₁ = div} {n₂ = 2 ^ r.shift} {m₂ = div} r.enough (omega arith) in
    record {
      shift = r.shift;
      run = ap roundup_log2 value ∙ r.run;
      covers = omega arith;
      small = r.small;
    }
  where
    positive : (n : ℕ) → 0 < n * div → 0 < n
    positive zero lt = absurd (omega arith)
    positive (suc n) lt = omega arith
