-- ===== src/Base/Pow.antt =====
-- What the zero counts of a word say in terms of powers of two.
use Prim.Native.Nat.{ℕ, zero, suc, ◌+◌, ◌-◌, ◌*◌, ◌/◌, ◌%◌, ◌^◌, ◌≤◌, ◌<◌}
use mathlib.Core.Path.{◌≡◌, refl, ap}
use mathlib.Core.Logic.{inl, inr}
use native.Mathlib.Nat.{pow-suc, one-le-pow}
use native.Mathlib.Omega.{arith}
use choose_cut.Base.Tests.{ltb, ◌==◌, Bool-cases, ltb→lt}
use choose_cut.Base.Word.{ctz, clz}

pub pow_pos : (k : ℕ) → 0 < 2 ^ k
pow_pos k = one-le-pow k 2 (omega arith)

pub pow-suc_two : (k : ℕ) → 2 ^ suc k ≡ 2 * 2 ^ k
pow-suc_two k = omega (arith, pow-suc 2 k)

pub mul-pow-suc : (q k : ℕ) → q * 2 ^ suc k ≡ 2 * (q * 2 ^ k)
mul-pow-suc q k = omega (arith, ap (λ (t : ℕ). q * t) (pow-suc 2 k))

pub pow_le_pow : (j k : ℕ) → j ≤ k → 2 ^ j ≤ 2 ^ k
pow_le_pow zero k h = omega (arith, pow_pos k)
pow_le_pow (suc j) zero h = absurd (omega arith)
pow_le_pow (suc j) (suc k) h =
    omega (arith, pow-suc_two j, pow-suc_two k, pow_le_pow j k (omega arith))

-- A number is a multiple of two to the number of zeros at its end.
pub ctz_multiple : (w n : ℕ) → (q : ℕ) × (n ≡ q * 2 ^ ctz w n)
unfolding ctz
ctz_multiple zero n = (n, omega arith)
ctz_multiple (suc w) n = elim (Bool-cases (n % 2 == 1)) [
  | inl odd ↦ (n, rw odd (omega arith))
  | inr even ↦
      let (q, e) = ctz_multiple w (n / 2) in
      (q, rw even (ground (arith, mul-pow-suc q (ctz w (n / 2)))))
]

pub ctz-le : (w n : ℕ) → ctz w n ≤ w
unfolding ctz
ctz-le zero n = omega arith
ctz-le (suc w) n = ground (arith, ctz-le w (n / 2))

-- The zeros at the end of a power of two that fits the word.
pub ctz-pow : (w k : ℕ) → k < w → ctz w (2 ^ k) ≡ k
unfolding ctz
ctz-pow zero k h = absurd (omega arith)
ctz-pow (suc w) zero h = refl
ctz-pow (suc w) (suc k) h =
    let half : 2 ^ suc k / 2 ≡ 2 ^ k = omega (arith, pow-suc_two k) in
    rw half (ground (arith, pow-suc_two k, ctz-pow w k))

-- The highest one of a word stands at `w - 1 - clz w n`.
pub clz_bounds :
    (w n : ℕ)
    → 0 < n
    → n < 2 ^ w
    → (clz w n < w) × (2 ^ (w - 1 - clz w n) ≤ n) × (n < 2 * 2 ^ (w - 1 - clz w n))
unfolding clz
clz_bounds zero n pos lt = absurd (omega arith)
clz_bounds (suc w) n pos lt = elim (Bool-cases (ltb n (2 ^ w))) [
  | inl small ↦
      let ih = clz_bounds w n pos (ltb→lt _ _ small) in
      let e : suc w - 1 - suc (clz w n) ≡ w - 1 - clz w n = omega arith in
      rw (small, e) (omega arith)
  | inr big ↦ let e : suc w - 1 - 0 ≡ w = omega arith in rw (big, e) (ground (arith, pow-suc_two w))
]

-- A power of two is a multiple of each smaller one.
pub pow_split : (j k : ℕ) → j ≤ k → 2 ^ k ≡ 2 ^ (k - j) * 2 ^ j
pow_split zero k h = let e : k - 0 ≡ k = omega arith in rw e (omega arith)
pow_split (suc j) zero h = absurd (omega arith)
pow_split (suc j) (suc k) h =
    let e : suc k - suc j ≡ k - j = omega arith in
    rw e (omega (arith, pow-suc_two k, mul-pow-suc (2 ^ (k - j)) j, pow_split j k (omega arith)))

pub pow-eq-one : (k : ℕ) → 2 ^ k ≡ 1 → k ≡ 0
pow-eq-one zero e = refl
pow-eq-one (suc k) e = absurd (omega (arith, pow-suc_two k, pow_pos k))

pub pow_sum : (bits j : ℕ) → 2 ^ (j + bits) ≡ 2 ^ bits * 2 ^ j
pow_sum bits j =
    let e : j + bits - j ≡ bits = omega arith in
    let split = pow_split j (j + bits) (omega arith) in (rw e at split)
