-- ===== src/Base/Bits.antt =====
-- The bit operations at variables: the digit at hand and the rest, a mask of low ones, a single
-- one, and how a count of ones grows with a higher one.
use Prim.Native.Nat.{
  ℕ, zero, suc, ◌+◌, ◌-◌, ◌*◌, ◌/◌, ◌%◌, ◌^◌, ◌≤◌, ◌<◌, min, max, digits, bit_and, bit_or,
  bit_and-bitwise, bit_or-bitwise, bit_xor, bit_xor-bitwise, differ,
}
use mathlib.Core.Path.{◌≡◌, refl, sym, ◌∙◌, ap}
use mathlib.Core.Logic.{inl, inr}
use native.Mathlib.Nat.{mul-add-mod_self_right, mod-eq_of_lt, mod-lt, div-add-mod'}
use native.Mathlib.Omega.{arith}
use choose_cut.Base.Tests.{ltb, if◌then◌else◌, Bool-cases, ltb→lt}
use choose_cut.Base.Word.{popcount}
use choose_cut.Base.Pow.{pow_pos, pow-suc_two, pow_le_pow, pow_split}

-- A count of digits that is large enough makes no difference.
enough_digits :
    (z : ℕ → ℕ) (f : ℕ → ℕ → ℕ) (n m a b : ℕ) → a ≤ n → a ≤ m → digits z f n a b ≡ digits z f m a b
enough_digits z f zero zero a b p q = refl
enough_digits z f zero (suc m) zero b p q = refl
enough_digits z f (suc n) zero zero b p q = refl
enough_digits z f (suc n) (suc m) zero b p q = refl
enough_digits z f zero (suc m) (suc a) b p q = absurd (omega arith)
enough_digits z f (suc n) zero (suc a) b p q = absurd (omega arith)
enough_digits z f (suc n) (suc m) (suc a) b p q =
    ap (λ (t : ℕ). t * 2 + f (suc a % 2) (b % 2))
      (enough_digits z f n m (suc a / 2) (b / 2) (omega arith) (omega arith))

digits-suc :
    (z : ℕ → ℕ) (f : ℕ → ℕ → ℕ) (a b : ℕ)
    → digits z f (suc a) (suc a) b
      ≡ digits z f (suc a / 2) (suc a / 2) (b / 2) * 2 + f (suc a % 2) (b % 2)
digits-suc z f a b =
    ap (λ (t : ℕ). t * 2 + f (suc a % 2) (b % 2))
      (enough_digits z f a (suc a / 2) (suc a / 2) (b / 2) (omega arith) (omega arith))

-- The lowest digit, and the others.
pub bit_and_digit : (a b : ℕ) → bit_and a b ≡ bit_and (a / 2) (b / 2) * 2 + min (a % 2) (b % 2)
bit_and_digit zero b = omega (arith, bit_and-bitwise 0 b, bit_and-bitwise 0 (b / 2))
bit_and_digit (suc a) b =
    bit_and-bitwise (suc a) b
    ∙ digits-suc (λ y. 0) min a b
    ∙ ap (λ (t : ℕ). t * 2 + min (suc a % 2) (b % 2)) (sym (bit_and-bitwise (suc a / 2) (b / 2)))

pub bit_or_digit : (a b : ℕ) → bit_or a b ≡ bit_or (a / 2) (b / 2) * 2 + max (a % 2) (b % 2)
bit_or_digit zero b = omega (arith, bit_or-bitwise 0 b, bit_or-bitwise 0 (b / 2))
bit_or_digit (suc a) b =
    bit_or-bitwise (suc a) b
    ∙ digits-suc (λ y. y) max a b
    ∙ ap (λ (t : ℕ). t * 2 + max (suc a % 2) (b % 2)) (sym (bit_or-bitwise (suc a / 2) (b / 2)))

bit_and_none : (n a : ℕ) → a ≤ n → bit_and a 0 ≡ 0
bit_and_none n zero h = refl
bit_and_none zero (suc a) h = absurd (omega arith)
bit_and_none (suc n) (suc a) h =
    omega (arith, bit_and_digit (suc a) 0, bit_and_none n (suc a / 2) (omega arith))

pub bit_and-zero : (a : ℕ) → bit_and a 0 ≡ 0
bit_and-zero a = bit_and_none a a (omega arith)

-- The remainder by a doubled number.
pub mod_double : (a m : ℕ) → 0 < m → a % (2 * m) ≡ a / 2 % m * 2 + a % 2
mod_double a m pos =
    let q = a / 2 / m in
    let r = a / 2 % m in
    let e : a ≡ q * (2 * m) + (r * 2 + a % 2) = omega (arith, div-add-mod' (a / 2) m) in
    let lt : r * 2 + a % 2 < 2 * m = omega (arith, mod-lt (a / 2) pos) in
    ap (λ (t : ℕ). t % (2 * m)) e
    ∙ mul-add-mod_self_right q (2 * m) (r * 2 + a % 2)
    ∙ mod-eq_of_lt lt

-- A mask of `k` ones is the remainder.
pub bit_and_mask : (k a : ℕ) → bit_and a (2 ^ k - 1) ≡ a % 2 ^ k
bit_and_mask zero a = omega (arith, bit_and-zero a)
bit_and_mask (suc k) a =
    let p = pow_pos k in
    let half : (2 ^ suc k - 1) / 2 ≡ 2 ^ k - 1 = omega (arith, pow-suc_two k) in
    bit_and_digit a (2 ^ suc k - 1)
    ∙ rw (half, bit_and_mask k (a / 2), pow-suc_two k, mod_double a (2 ^ k) p) (omega arith)

-- A one above all the others.
pub bit_or_above : (k r : ℕ) → r < 2 ^ k → bit_or r (2 ^ k) ≡ 2 ^ k + r
bit_or_above zero zero h = refl
bit_or_above zero (suc r) h = absurd (omega arith)
bit_or_above (suc k) r h =
    let half : 2 ^ suc k / 2 ≡ 2 ^ k = omega (arith, pow-suc_two k) in
    bit_or_digit r (2 ^ suc k)
    ∙ rw (half, bit_or_above k (r / 2) (omega (arith, pow-suc_two k)))
        (omega (arith, pow-suc_two k))

pub popcount_above : (w k r : ℕ) → k < w → r < 2 ^ k → popcount w (2 ^ k + r) ≡ popcount w r + 1
unfolding popcount
popcount_above zero k r lt h = absurd (omega arith)
popcount_above (suc w) zero zero lt h = omega arith
popcount_above (suc w) zero (suc r) lt h = absurd (omega arith)
popcount_above (suc w) (suc k) r lt h =
    let half : (2 ^ suc k + r) / 2 ≡ 2 ^ k + r / 2 = omega (arith, pow-suc_two k) in
    rw half (
      omega (
        arith,
        pow-suc_two k,
        popcount_above w k (r / 2) (omega arith) (omega (arith, pow-suc_two k)),
      ))

pub popcount-zero : (w : ℕ) → popcount w 0 ≡ 0
unfolding popcount
popcount-zero zero = refl
popcount-zero (suc w) = omega (arith, popcount-zero w)

-- The ones below a position, after a one is set above all the others.
pub popcount_below :
    (w p idx b : ℕ)
    → p < w
    → b < 2 ^ p
    → popcount w ((2 ^ p + b) % 2 ^ idx) ≡ popcount w (b % 2 ^ idx) + (if ltb p idx then 1 else 0)
popcount_below w p idx b lt h = elim (Bool-cases (ltb p idx)) [
  | inl below ↦
      let fits : 2 ^ p + b < 2 ^ idx =
        omega (arith, pow-suc_two p, pow_le_pow (suc p) idx (ltb→lt _ _ below)) in
      rw (below, mod-eq_of_lt fits, mod-eq_of_lt {n = b} {m = 2 ^ idx} (omega arith))
        (popcount_above w p b lt h)
  | inr above ↦
      let e = pow_split idx p (ground arith) in
      rw (above, e, mul-add-mod_self_right (2 ^ (p - idx)) (2 ^ idx) b) (omega arith)
]

pub bit_xor_digit : (a b : ℕ) → bit_xor a b ≡ bit_xor (a / 2) (b / 2) * 2 + differ (a % 2) (b % 2)
bit_xor_digit zero b = bit_xor-bitwise 0 b ∙ omega (arith, bit_xor-bitwise 0 (b / 2))
bit_xor_digit (suc a) b =
    bit_xor-bitwise (suc a) b
    ∙ digits-suc (λ y. y) differ a b
    ∙ ap (λ (t : ℕ). t * 2 + differ (suc a % 2) (b % 2)) (sym (bit_xor-bitwise (suc a / 2) (b / 2)))
