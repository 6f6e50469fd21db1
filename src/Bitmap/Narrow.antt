-- ===== src/Bitmap/Narrow.antt =====
-- What is left of a prefix and of a key in a child: the child answers as the node does.
use choose_cut.Base.{
  ℕ, zero, suc, ◌+◌, ◌-◌, ◌*◌, ◌/◌, ◌%◌, ◌^◌, ◌≤◌, ◌<◌, ◌≡◌, sym, ◌∙◌, ap, arith, true, leb, sub32,
  sub64, u32,
}
use native.Mathlib.Nat.{
  mod-lt, mod-eq_of_lt, div-add-mod', add-mul, mul_assoc, mul-add-mod_self_right, mul-le-mul_right,
}
use choose_cut.Base.Pow.{pow_sum, pow_pos, pow_split}
use choose_cut.Rule.{in_range}
use choose_cut.Rule.Iter.{Prefix, prefix_to_range}
use choose_cut.Bitmap.{dim_bits, inl_offset, cell_of, even_search_lshift}
use choose_cut.Bitmap.Push.{child_prefix}

-- A prefix of at least six bits and at most as many as the dimension has: it starts at a multiple of
-- the count of its numbers, and all of these are below 2 ^ bits.
pub record IsLong (bits : ℕ) (p : Prefix) : Type 0 where
  pub long : 6 ≤ p.len
  pub short : p.len ≤ bits
  pub block : ℕ
  pub start : p.prefix ≡ block * 2 ^ (bits - p.len)
  pub below : p.prefix + 2 ^ (bits - p.len) ≤ 2 ^ bits

-- A multiple, by a multiple of the same number.
mod-multiple : (b m n : ℕ) → 0 < m → 0 < n → (b * n % (m * n) ≡ b % m * n) × (b % m * n + n ≤ m * n)
mod-multiple b m n pos pos' =
    let room : b % m * n + n ≤ m * n =
      omega
        (arith, mul-le-mul_right {m = suc (b % m)} {n = m} n (mod-lt b pos), add-mul (b % m) 1 n) in
    let split : b * n ≡ b / m * (m * n) + b % m * n =
      ap (λ (t : ℕ). t * n) (sym (div-add-mod' b m))
      ∙ omega (arith, add-mul (b / m * m) (b % m) n, mul_assoc (b / m) m n) in
    (
      rw (split, mul-add-mod_self_right (b / m) (m * n) (b % m * n)) (mod-eq_of_lt (omega arith)),
      room,
    )

-- The block of the prefix lies within its cell.
within_cell :
    (bits : ℕ) (p : Prefix)
    → IsLong bits p
    → p.prefix % 2 ^ (bits - 6) + 2 ^ (bits - p.len) ≤ 2 ^ (bits - 6)
within_cell bits p l =
    let m = 2 ^ (p.len - 6) in
    let n = 2 ^ (bits - p.len) in
    let le : bits - p.len ≤ bits - 6 = omega (arith, l.long) in
    let e : bits - 6 - (bits - p.len) ≡ p.len - 6 = omega (arith, l.long, l.short) in
    let whole : 2 ^ (bits - 6) ≡ m * n =
      (let split = pow_split (bits - p.len) (bits - 6) le in rw e at split) in
    let rest = mod-multiple l.block m n (pow_pos (p.len - 6)) (pow_pos (bits - p.len)) in
    rw (whole, l.start, rest.0) rest.1

-- The numbers of a block, behind the first six bits.
in_range-shifted :
    (dim key start size : ℕ)
    → 0 < size
    → key < 2 ^ dim_bits dim
    → start + size ≤ 2 ^ dim_bits dim
    → key / 2 ^ (dim_bits dim - 6) ≡ start / 2 ^ (dim_bits dim - 6)
    → start % 2 ^ (dim_bits dim - 6) + size ≤ 2 ^ (dim_bits dim - 6)
    → in_range (even_search_lshift key (dim_bits dim) 6) (record {
      low = start * 64 % 2 ^ dim_bits dim;
      high = u32 (start * 64 % 2 ^ dim_bits dim + sub64 (size * 64) 1);
    })
      ≡ in_range key (record { low = start; high = u32 (start + sub64 size 1) })
in_range-shifted zero key start size pos word fits same cell = ground arith
in_range-shifted (suc zero) key start size pos word fits same cell = ground arith
in_range-shifted (suc (suc zero)) key start size pos word fits same cell = ground arith
in_range-shifted (suc (suc (suc zero))) key start size pos word fits same cell = ground arith
in_range-shifted (suc (suc (suc (suc d)))) key start size pos word fits same cell = ground arith

six_bits : (dim : ℕ) → (6 ≤ dim_bits dim) × (dim_bits dim ≤ 32)
six_bits zero = omega arith
six_bits (suc zero) = omega arith
six_bits (suc (suc zero)) = omega arith
six_bits (suc (suc (suc zero))) = omega arith
six_bits (suc (suc (suc (suc d)))) = omega arith

-- A key whose cell is that of a prefix with at least six bits lies in the range of the prefix exactly if
-- the key that even_search leaves for the child lies in the range that push_rules_even stores there.
pub in_range-child_prefix :
    (dim : ℕ) (p : Prefix) (key : ℕ)
    → IsLong (dim_bits dim) p
    → key < 2 ^ dim_bits dim
    → inl_offset + key / 2 ^ (dim_bits dim - 6) ≡ cell_of p (dim_bits dim)
    → in_range
        (even_search_lshift key (dim_bits dim) 6)
        (prefix_to_range (child_prefix p (dim_bits dim)) (dim_bits dim))
      ≡ in_range key (prefix_to_range p (dim_bits dim))
unfolding cell_of prefix_to_range
in_range-child_prefix dim p key l word cell =
    let bits = dim_bits dim in
    let six = six_bits dim in
    let is_long : leb 6 p.len ≡ true = ground (arith, l.long) in
    let cell' = (rw is_long at cell) in
    let left : sub32 bits p.len ≡ bits - p.len = omega (arith, l.long, l.short, six) in
    let more : sub32 bits (sub32 p.len 6) ≡ 6 + (bits - p.len) =
      omega (arith, l.long, l.short, six) in
    let size : 2 ^ (6 + (bits - p.len)) ≡ 2 ^ (bits - p.len) * 64 = pow_sum (bits - p.len) 6 in
    rw (is_long, left, more, size)
      (in_range-shifted dim key p.prefix (2 ^ (bits - p.len)) (pow_pos (bits - p.len)) word l.below
        (omega (arith, cell')) (within_cell bits p l))
