-- ===== src/Filter/Ranges.antt =====
-- ReadIPRange gives the block of the prefix.
use choose_cut.Base.{
  ℕ, ◌+◌, ◌-◌, ◌*◌, ◌/◌, ◌%◌, ◌^◌, ◌≤◌, ◌<◌, ◌≡◌, refl, ◌∙◌, ap, ◌⊎◌, arith, inl, inr, Option, some,
  sub32, ◌==◌, Bool-cases,
}
use choose_cut.Base.Pow.{pow_sum, pow_pos}
use choose_cut.Rule.{Range}
use choose_cut.Filter.{read_ip_range, join_octets}
use choose_cut.Filter.Octets.{remainder, octet_room, cleared, filled, unit}

abbrev pub address : (ℕ → ℕ) → ℕ
address p = p 0 * 2 ^ 24 + p 1 * 2 ^ 16 + p 2 * 2 ^ 8 + p 3

abbrev pub Octets : (ℕ → ℕ) → Type 0
Octets p = (p 0 < 256) × (p 1 < 256) × (p 2 < 256) × (p 3 < 256)

join_octets-address : (p : ℕ → ℕ) → Octets p → join_octets p ≡ address p
join_octets-address p o = omega arith

-- The range of all numbers that share the leading bits with an address.
abbrev pub block_of : ℕ → ℕ → Range
block_of addr host = record {
  low = addr - addr % 2 ^ host;
  high = addr - addr % 2 ^ host + (2 ^ host - 1);
}

-- Where the cut lies.
whole_cases :
    (mask : ℕ)
    → mask ≤ 32
    → ((mask / 8 ≡ 0) ⊎ ((mask / 8 ≡ 1) ⊎ (mask / 8 ≡ 2))) ⊎ ((mask / 8 ≡ 3) ⊎ (mask / 8 ≡ 4))
whole_cases mask le = omega arith

module _ (p : ℕ → ℕ) (len bits : ℕ) (octets : Octets p) (small : bits < 8)
    (rest : sub32 32 len % 8 ≡ bits) where
  same_range :
      (l l' h h' : ℕ)
      → l ≡ l'
      → h ≡ h'
      → ◌≡◌ {A = Option Range}
          (some (record { low = l; high = h }))
          (some (record { low = l'; high = h' }))
  same_range l l' h h' e e' = rw (e, e') refl

  cut_fourth : sub32 32 len / 8 ≡ 0 → read_ip_range p len ≡ some (block_of (address p) (0 + bits))
  unfolding read_ip_range
  cut_fourth whole =
      let below =
        remainder bits small ((p 0 * 256 + p 1) * 256 + p 2) (p 3) (0) 1 (omega (arith, octets)) in
      let modulus : 2 ^ (0 + bits) ≡ 2 ^ bits * 1 = pow_sum bits 0 in
      let addr : address p ≡ (((p 0 * 256 + p 1) * 256 + p 2) * 256 + p 3) * 1 + (0) =
        omega arith in
      let host : address p % 2 ^ (0 + bits) ≡ p 3 % 2 ^ bits * 1 + (0) = rw (addr, modulus) below in
      let positive = pow_pos bits in
      elim (Bool-cases (bits == 0)) [
        | inl none_cut ↦
            let one = unit bits small none_cut in
            rw (whole, rest, none_cut)
              (same_range _ _ _ _ (omega (arith, host, modulus, one))
                (omega (arith, host, modulus, one)))
        | inr some_cut ↦
            let room = octet_room bits small (p 3) octets.3 in
            rw
              (
                whole,
                rest,
                some_cut,
                filled bits small (p 3) octets.3,
                cleared bits small (p 3) octets.3,
              )
              (same_range _ _ _ _ (omega (arith, host, modulus, room))
                (omega (arith, host, modulus, room)))
      ]

  cut_third : sub32 32 len / 8 ≡ 1 → read_ip_range p len ≡ some (block_of (address p) (8 + bits))
  unfolding read_ip_range
  cut_third whole =
      let below = remainder bits small (p 0 * 256 + p 1) (p 2) (p 3) 256 (omega (arith, octets)) in
      let modulus : 2 ^ (8 + bits) ≡ 2 ^ bits * 256 = pow_sum bits 8 in
      let addr : address p ≡ ((p 0 * 256 + p 1) * 256 + p 2) * 256 + (p 3) = omega arith in
      let host : address p % 2 ^ (8 + bits) ≡ p 2 % 2 ^ bits * 256 + (p 3) =
        rw (addr, modulus) below in
      let positive = pow_pos bits in
      elim (Bool-cases (bits == 0)) [
        | inl none_cut ↦
            let one = unit bits small none_cut in
            rw (whole, rest, none_cut)
              (same_range _ _ _ _ (omega (arith, host, modulus, one))
                (omega (arith, host, modulus, one)))
        | inr some_cut ↦
            let room = octet_room bits small (p 2) octets.2 in
            rw
              (
                whole,
                rest,
                some_cut,
                filled bits small (p 2) octets.2,
                cleared bits small (p 2) octets.2,
              )
              (same_range _ _ _ _ (omega (arith, host, modulus, room))
                (omega (arith, host, modulus, room)))
      ]

  cut_second : sub32 32 len / 8 ≡ 2 → read_ip_range p len ≡ some (block_of (address p) (16 + bits))
  unfolding read_ip_range
  cut_second whole =
      let below =
        remainder bits small (p 0) (p 1) (p 2 * 256 + p 3) 65536 (omega (arith, octets)) in
      let modulus : 2 ^ (16 + bits) ≡ 2 ^ bits * 65536 = pow_sum bits 16 in
      let addr : address p ≡ ((p 0) * 256 + p 1) * 65536 + (p 2 * 256 + p 3) = omega arith in
      let host : address p % 2 ^ (16 + bits) ≡ p 1 % 2 ^ bits * 65536 + (p 2 * 256 + p 3) =
        rw (addr, modulus) below in
      let positive = pow_pos bits in
      elim (Bool-cases (bits == 0)) [
        | inl none_cut ↦
            let one = unit bits small none_cut in
            rw (whole, rest, none_cut)
              (same_range _ _ _ _ (omega (arith, host, modulus, one))
                (omega (arith, host, modulus, one)))
        | inr some_cut ↦
            let room = octet_room bits small (p 1) octets.1 in
            rw
              (
                whole,
                rest,
                some_cut,
                filled bits small (p 1) octets.1,
                cleared bits small (p 1) octets.1,
              )
              (same_range _ _ _ _ (omega (arith, host, modulus, room))
                (omega (arith, host, modulus, room)))
      ]

  cut_first : sub32 32 len / 8 ≡ 3 → read_ip_range p len ≡ some (block_of (address p) (24 + bits))
  unfolding read_ip_range
  cut_first whole =
      let below =
        remainder bits small (0) (p 0) ((p 1 * 256 + p 2) * 256 + p 3) 16777216
          (omega (arith, octets)) in
      let modulus : 2 ^ (24 + bits) ≡ 2 ^ bits * 16777216 = pow_sum bits 24 in
      let addr : address p ≡ ((0) * 256 + p 0) * 16777216 + ((p 1 * 256 + p 2) * 256 + p 3) =
        omega arith in
      let host : address p % 2 ^ (24 + bits)
          ≡ p 0 % 2 ^ bits * 16777216 + ((p 1 * 256 + p 2) * 256 + p 3) =
        rw (addr, modulus) below in
      let positive = pow_pos bits in
      elim (Bool-cases (bits == 0)) [
        | inl none_cut ↦
            let one = unit bits small none_cut in
            rw (whole, rest, none_cut)
              (same_range _ _ _ _ (omega (arith, host, modulus, one))
                (omega (arith, host, modulus, one)))
        | inr some_cut ↦
            let room = octet_room bits small (p 0) octets.0 in
            rw
              (
                whole,
                rest,
                some_cut,
                filled bits small (p 0) octets.0,
                cleared bits small (p 0) octets.0,
              )
              (same_range _ _ _ _ (omega (arith, host, modulus, room))
                (omega (arith, host, modulus, room)))
      ]

  -- The prefix of no bits.
  cut_none : sub32 32 len / 8 ≡ 4 → bits ≡ 0 → read_ip_range p len ≡ some (block_of (address p) 32)
  unfolding read_ip_range
  cut_none whole none_left =
      let below : address p < 2 ^ 32 = omega arith in
      rw (whole, rest, none_left) (same_range _ _ _ _ (omega arith) (omega arith))

-- Of four octets and a length of at most 32, ReadIPRange stores within the octets, and makes the range
-- of all numbers that share the leading bits of that length with the address that the octets form.
pub read_ip_range-block_of :
    (p : ℕ → ℕ) (len : ℕ)
    → Octets p
    → len ≤ 32
    → read_ip_range p len ≡ some (block_of (address p) (32 - len))
read_ip_range-block_of p len octets le =
    let mask : sub32 32 len ≡ 32 - len = omega arith in
    let bits = sub32 32 len % 8 in
    elim (whole_cases (sub32 32 len) (omega arith)) [
      | inl (inl e) ↦
          let e' : 0 + bits ≡ 32 - len = omega arith in
          cut_fourth p len bits octets (omega arith) refl e
          ∙ ap (λ (t : ℕ). some (block_of (address p) t)) e'
      | inl (inr (inl e)) ↦
          let e' : 8 + bits ≡ 32 - len = omega arith in
          cut_third p len bits octets (omega arith) refl e
          ∙ ap (λ (t : ℕ). some (block_of (address p) t)) e'
      | inl (inr (inr e)) ↦
          let e' : 16 + bits ≡ 32 - len = omega arith in
          cut_second p len bits octets (omega arith) refl e
          ∙ ap (λ (t : ℕ). some (block_of (address p) t)) e'
      | inr (inl e) ↦
          let e' : 24 + bits ≡ 32 - len = omega arith in
          cut_first p len bits octets (omega arith) refl e
          ∙ ap (λ (t : ℕ). some (block_of (address p) t)) e'
      | inr (inr e) ↦
          let e' : 32 ≡ 32 - len = omega arith in
          cut_none p len bits octets (omega arith) refl e (omega arith)
          ∙ ap (λ (t : ℕ). some (block_of (address p) t)) e'
    ]
