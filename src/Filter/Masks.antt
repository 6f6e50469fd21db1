-- ===== src/Filter/Masks.antt =====
-- Masks of high and of low ones.
use choose_cut.Base.{
  ℕ, zero, suc, ◌+◌, ◌-◌, ◌*◌, ◌/◌, ◌%◌, ◌^◌, ◌≤◌, ◌<◌, ◌≡◌, refl, ◌∙◌, ap, arith, bit_and, bit_or,
}
use native.Mathlib.Nat.{
  mod-eq_of_lt, mul-add-mod_self_right, mod-lt, div-add-mod', add-mul, mul_assoc, mul_comm,
  mul-le-mul_right,
}
use choose_cut.Base.Pow.{pow_pos, pow-suc_two}
use choose_cut.Base.Bits.{bit_and_digit, bit_or_digit, bit_and_mask, mod_double}

pub bit_and-high : (m w a : ℕ) → m ≤ w → a < 2 ^ w → bit_and a (2 ^ w - 2 ^ m) ≡ a - a % 2 ^ m
bit_and-high zero w a le lt = bit_and_mask w a ∙ rw (mod-eq_of_lt lt) (omega arith)
bit_and-high (suc m) zero a le lt = absurd (omega arith)
bit_and-high (suc m) (suc w) a le lt =
    let half : (2 ^ suc w - 2 ^ suc m) / 2 ≡ 2 ^ w - 2 ^ m =
      omega (arith, pow-suc_two w, pow-suc_two m) in
    let even : (2 ^ suc w - 2 ^ suc m) % 2 ≡ 0 = omega (arith, pow-suc_two w, pow-suc_two m) in
    let ih = bit_and-high m w (a / 2) (omega arith) (omega (arith, pow-suc_two w)) in
    let double = mod_double a (2 ^ m) (pow_pos m) in
    let small = mod-lt (a / 2) (pow_pos m) in
    bit_and_digit a (2 ^ suc w - 2 ^ suc m)
    ∙ rw (half, even, ih, pow-suc_two m, double) (omega arith)

or_none : (n a : ℕ) → a ≤ n → bit_or a 0 ≡ a
or_none n zero le = refl
or_none zero (suc a) le = absurd (omega arith)
or_none (suc n) (suc a) le =
    omega (arith, bit_or_digit (suc a) 0, or_none n (suc a / 2) (omega arith))

pub bit_or-low : (m x : ℕ) → x % 2 ^ m ≡ 0 → bit_or x (2 ^ m - 1) ≡ x + (2 ^ m - 1)
bit_or-low zero x e = or_none x x (omega arith) ∙ omega arith
bit_or-low (suc m) x e =
    let half : (2 ^ suc m - 1) / 2 ≡ 2 ^ m - 1 = omega (arith, pow-suc_two m, pow_pos m) in
    let double : x % 2 ^ suc m ≡ x / 2 % 2 ^ m * 2 + x % 2 =
      rw (pow-suc_two m) (mod_double x (2 ^ m) (pow_pos m)) in
    let ih = bit_or-low m (x / 2) (omega arith) in
    bit_or_digit x (2 ^ suc m - 1) ∙ rw (half, ih) (omega (arith, pow-suc_two m, pow_pos m))

-- The remainder by a power of two that cuts an octet: what is left of the octet, and what is below.
pub mod-octet :
    (above octet below r s k : ℕ)
    → r * s ≡ 256
    → 0 < r
    → below < k
    → ((above * 256 + octet) * k + below) % (r * k) ≡ octet % r * k + below
mod-octet above octet below r s k e pos lt =
    let q = above * s + octet / r in
    let whole : above * 256 + octet ≡ q * r + octet % r = omega (
      arith,
      add-mul (above * s) (octet / r) r,
      mul_assoc above s r,
      ap (λ (t : ℕ). above * t) (mul_comm s r ∙ e),
      div-add-mod' octet r,
    ) in
    let split : (above * 256 + octet) * k + below ≡ q * (r * k) + (octet % r * k + below) =
      ap (λ (t : ℕ). t * k + below) whole
      ∙ omega (arith, add-mul (q * r) (octet % r) k, mul_assoc q r k) in
    let small : octet % r * k + below < r * k = omega (
      arith,
      mul-le-mul_right {m = suc (octet % r)} {n = r} k (mod-lt octet pos),
      add-mul (octet % r) 1 k,
    ) in
    rw (split, mul-add-mod_self_right q (r * k) (octet % r * k + below)) (mod-eq_of_lt small)
