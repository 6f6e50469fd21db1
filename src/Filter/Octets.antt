-- ===== src/Filter/Octets.antt =====
-- An octet that the length of a prefix cuts.
use choose_cut.Base.{
  ℕ, suc, ◌+◌, ◌-◌, ◌*◌, ◌/◌, ◌%◌, ◌^◌, ◌≤◌, ◌<◌, ◌≡◌, refl, arith, inl, inr, true, ◌==◌,
  Bool-cases, ltb,
}
use choose_cut.Base.Pow.{pow_pos, pow_le_pow, pow_split}
use native.Mathlib.Nat.{
  mul_comm, mul-le-mul_right, div-add-mod', add-mul, mul-add-mod_self_right, zero-mod,
}
use choose_cut.Filter.{clear_low, set_low}
use choose_cut.Filter.Masks.{bit_and-high, bit_or-low, mod-octet}

-- The octet that the prefix cuts.
clear_low-octet :
    (bits octet : ℕ) → bits < 8 → octet < 256 → clear_low bits octet ≡ octet - octet % 2 ^ bits
clear_low-octet bits octet lt small =
    let e : 2 ^ 32 - 1 - (2 ^ bits - 1) ≡ 2 ^ 32 - 2 ^ bits =
      omega (arith, pow_pos bits, pow_le_pow bits 8 (omega arith)) in
    rw e (bit_and-high bits 32 octet (omega arith) (omega arith))

set_low-octet :
    (bits octet : ℕ) → octet % 2 ^ bits ≡ 0 → set_low bits octet ≡ octet + (2 ^ bits - 1)
set_low-octet bits octet e = bit_or-low bits octet e

module _ (bits : ℕ) (small : bits < 8) where
  -- What is below the cut, where it goes through the octet before `below`.
  pub remainder :
      (above octet below k : ℕ)
      → below < k
      → ((above * 256 + octet) * k + below) % (2 ^ bits * k) ≡ octet % 2 ^ bits * k + below
  remainder above octet below k lt =
      mod-octet above octet below (2 ^ bits) (2 ^ (8 - bits)) k
        (omega (arith, pow_split bits 8 (omega arith), mul_comm (2 ^ bits) (2 ^ (8 - bits))))
        (pow_pos bits) lt

  pub octet_room : (octet : ℕ) → octet < 256 → octet - octet % 2 ^ bits + 2 ^ bits ≤ 256
  octet_room octet lt =
      let r = 2 ^ bits in
      let s = 2 ^ (8 - bits) in
      let all : s * r ≡ 256 = omega (arith, pow_split bits 8 (omega arith)) in
      let parts = div-add-mod' octet r in
      elim (Bool-cases (ltb (octet / r) s)) [
        | inl below ↦ omega (
          arith,
          all,
          parts,
          add-mul (octet / r) 1 r,
          mul-le-mul_right {m = suc (octet / r)} {n = s} r (ground arith),
        )
        | inr above ↦
            absurd
              (omega (arith, all, parts, mul-le-mul_right {m = s} {n = octet / r} r (ground arith)))
      ]

  pub cleared : (octet : ℕ) → octet < 256 → clear_low bits octet ≡ octet - octet % 2 ^ bits
  cleared octet lt = clear_low-octet bits octet small lt

  pub filled :
      (octet : ℕ)
      → octet < 256
      → set_low bits (clear_low bits octet) ≡ octet - octet % 2 ^ bits + (2 ^ bits - 1)
  filled octet lt =
      let parts = div-add-mod' octet (2 ^ bits) in
      let multiple : octet - octet % 2 ^ bits ≡ octet / 2 ^ bits * 2 ^ bits + 0 = omega arith in
      let no_rest : (octet - octet % 2 ^ bits) % 2 ^ bits ≡ 0 =
        rw (multiple, mul-add-mod_self_right (octet / 2 ^ bits) (2 ^ bits) 0)
          (zero-mod (2 ^ bits)) in
      rw (cleared octet lt) (set_low-octet bits (octet - octet % 2 ^ bits) no_rest)

  pub unit : (bits == 0) ≡ true → 2 ^ bits ≡ 1
  unit none_cut = let zero_bits : bits ≡ 0 = ground arith in rw zero_bits refl
