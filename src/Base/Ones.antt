-- ===== src/Base/Ones.antt =====
-- Masks of several ones, and the highest one of a word.
use Prim.Native.Nat.{ℕ, zero, suc, ◌+◌, ◌-◌, ◌/◌, ◌^◌, ◌≤◌, ◌<◌, bit_and, bit_and-bitwise}
use mathlib.Core.Path.{◌≡◌, refl}
use mathlib.Core.Logic.{◌⊎◌, ◌≢◌, inl, inr}
use native.Mathlib.Omega.{arith}
use mathlib.Core.Bool.{true, false}
use choose_cut.Base.Tests.{ltb, Bool-cases}
use choose_cut.Base.Word.{clz}
use choose_cut.Base.Pow.{pow_pos, pow-suc_two, pow_le_pow}
use choose_cut.Base.Bits.{bit_and_digit, bit_and-zero}

pub zero_bit_and : (b : ℕ) → bit_and 0 b ≡ 0
zero_bit_and b = bit_and-bitwise 0 b

bit_and-bounded : (n a b : ℕ) → a ≤ n → bit_and a b ≤ a
bit_and-bounded n zero b h = omega (arith, zero_bit_and b)
bit_and-bounded zero (suc a) b h = absurd (omega arith)
bit_and-bounded (suc n) (suc a) b h =
    omega (arith, bit_and_digit (suc a) b, bit_and-bounded n (suc a / 2) (b / 2) (omega arith))

pub bit_and-le : (a b : ℕ) → bit_and a b ≤ a
bit_and-le a b = bit_and-bounded a a b (omega arith)

-- A test of one digit.
pub bit_and-pow : (k a : ℕ) → (bit_and a (2 ^ k) ≡ 0) ⊎ (bit_and a (2 ^ k) ≡ 2 ^ k)
bit_and-pow zero a = omega (arith, bit_and_digit a 1, bit_and-zero (a / 2))
bit_and-pow (suc k) a =
    let half : 2 ^ suc k / 2 ≡ 2 ^ k = omega (arith, pow-suc_two k) in
    let digit = (let d = bit_and_digit a (2 ^ suc k) in rw half at d) in
    omega (arith, digit, pow-suc_two k, bit_and-pow k (a / 2))

-- A mask with a one above the others.
pub bit_and_above :
    (k r b : ℕ) → r < 2 ^ k → bit_and (2 ^ k + r) b ≡ bit_and b (2 ^ k) + bit_and r b
bit_and_above zero zero b h = omega (
  arith,
  bit_and_digit 1 b,
  bit_and_digit b 1,
  bit_and-zero (b / 2),
  zero_bit_and (b / 2),
  zero_bit_and b,
)
bit_and_above zero (suc r) b h = absurd (omega arith)
bit_and_above (suc k) r b h =
    let half : 2 ^ suc k / 2 ≡ 2 ^ k = omega (arith, pow-suc_two k) in
    let sum : (2 ^ suc k + r) / 2 ≡ 2 ^ k + r / 2 = omega (arith, pow-suc_two k) in
    let left = (let d = bit_and_digit (2 ^ suc k + r) b in rw sum at d) in
    let right = (let d = bit_and_digit b (2 ^ suc k) in rw half at d) in
    omega (
      arith,
      left,
      right,
      bit_and_digit r b,
      pow-suc_two k,
      bit_and_above k (r / 2) (b / 2) (omega (arith, pow-suc_two k)),
    )

-- The highest one gives the count of zeros above it.
pub clz_above : (w k r : ℕ) → k < w → r < 2 ^ k → clz w (2 ^ k + r) ≡ w - 1 - k
unfolding clz
clz_above zero k r lt h = absurd (omega arith)
clz_above (suc w) k r lt h = elim (Bool-cases (ltb k w)) [
  | inl below ↦
      let fits = pow_le_pow (suc k) w (ground arith) in
      let yes : ltb (2 ^ k + r) (2 ^ w) ≡ true = ground (arith, pow-suc_two k) in
      let lt' : k < w = ground arith in rw (yes, clz_above w k r lt' h) (omega arith)
  | inr top ↦
      let e : k ≡ w = ground arith in
      let no_fit : ltb (2 ^ k + r) (2 ^ w) ≡ false = rw e (ground arith) in rw no_fit (ground arith)
]

-- Two single ones.
pub bit_and-pow_self : (k : ℕ) → bit_and (2 ^ k) (2 ^ k) ≡ 2 ^ k
bit_and-pow_self zero = refl
bit_and-pow_self (suc k) =
    let half : 2 ^ suc k / 2 ≡ 2 ^ k = omega (arith, pow-suc_two k) in
    let e = (let d = bit_and_digit (2 ^ suc k) (2 ^ suc k) in rw half at d) in
    omega (arith, e, pow-suc_two k, bit_and-pow_self k)

-- A test above all ones.
pub bit_and-above_all : (k b : ℕ) → b < 2 ^ k → bit_and b (2 ^ k) ≡ 0
bit_and-above_all k b lt = omega (arith, bit_and-pow k b, bit_and-le b (2 ^ k))

pub bit_and-pow_ne : (j k : ℕ) → j ≢ k → bit_and (2 ^ j) (2 ^ k) ≡ 0
bit_and-pow_ne j k ne = elim (Bool-cases (ltb j k)) [
  | inl less ↦
      bit_and-above_all k (2 ^ j)
        (ground (arith, pow_le_pow (suc j) k (ground arith), pow-suc_two j, pow_pos j))
  | inr more ↦
      let gt : suc k ≤ j = ground arith in
      let low : bit_and 0 (2 ^ k) ≡ 0 = zero_bit_and (2 ^ k) in
      let none_above =
        bit_and-above_all j (2 ^ k)
          (omega (arith, pow_le_pow (suc k) j gt, pow-suc_two k, pow_pos k)) in
      let split = bit_and_above j 0 (2 ^ k) (pow_pos j) in
      let e : 2 ^ j + 0 ≡ 2 ^ j = omega arith in
      (let split' = rw e at split in omega (arith, split', low, none_above))
]
