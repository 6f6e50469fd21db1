-- ===== src/Bitmap/Cells.antt =====
-- The cells that the histogram counts in stand in its array.
use native.Mathlib.Nat.{div-lt_iff_lt-mul}
use choose_cut.Base.{
  ℕ, zero, suc, ◌+◌, ◌-◌, ◌/◌, ◌^◌, ◌≤◌, ◌<◌, ◌≡◌, refl, arith, inl, inr, true, some, List, [], ◌∷◌,
  leb, ltb, Bool-cases, update,
}
use choose_cut.Base.Pow.{pow_pos, pow_le_pow, pow_split}
use choose_cut.Rule.Iter.{PrefixIter, get_prefix}
use choose_cut.Rule.Iter.Blocks.{IsBlock}
use choose_cut.Rule.Iter.Tiling.{Tiles}
use choose_cut.Rule.Iter.Prefixes.{get_prefix_of_block}
use choose_cut.Bitmap.{dim_bits, cell_of, count_prefixes}

-- The width of a dimension: six bits at least, and a word at most.
pub dim_bits-bounds : (dim : ℕ) → (6 ≤ dim_bits dim) × (dim_bits dim ≤ 32)
dim_bits-bounds zero = (omega arith, omega arith)
dim_bits-bounds (suc zero) = (omega arith, omega arith)
dim_bits-bounds (suc (suc zero)) = (omega arith, omega arith)
dim_bits-bounds (suc (suc (suc zero))) = (omega arith, omega arith)
dim_bits-bounds (suc (suc (suc (suc d)))) = (omega arith, omega arith)

module _ (b : PrefixIter) (k : IsBlock b) (bits : ℕ) (least : 6 ≤ bits) (width : bits ≤ 32)
    (small : b.end < 2 ^ bits) where
  order-le : k.order ≤ bits
  order-le = elim (Bool-cases (leb k.order bits)) [
    | inl le ↦ ground arith
    | inr more ↦
        let lt : suc bits ≤ k.order = ground arith in
        absurd (omega (arith, pow_le_pow (suc bits) k.order lt, pow_split bits (suc bits), k.long))
  ]

  start-lt : b.start < 2 ^ bits
  start-lt = omega (arith, k.long, pow_pos k.order)

  -- The first `j` bits of the start.
  leading-lt : (j : ℕ) → j ≤ bits → b.start / 2 ^ (bits - j) < 2 ^ j
  leading-lt j le =
      let split = pow_split (bits - j) bits (omega arith) in
      let e : bits - (bits - j) ≡ j = omega arith in
      let whole = rw e at split in
      (div-lt_iff_lt-mul {k = 2 ^ (bits - j)} {x = b.start} {y = 2 ^ j} (pow_pos (bits - j))).1
        (omega (arith, start-lt, whole))

  pub cell_of-lt : cell_of (get_prefix b bits) bits < 127
  unfolding cell_of
  cell_of-lt =
      let word : b.end < 2 ^ 32 = omega (arith, pow_le_pow bits 32 width) in
      rw (get_prefix_of_block b k word bits order-le width)
        (elim (Bool-cases (leb 6 (bits - k.order))) [
          | inl long ↦ rw long (omega (arith, leading-lt 6 least))
          | inr short ↦
              let few : bits - k.order ≤ 5 = ground arith in
              rw short (
                omega (
                  arith,
                  leading-lt (bits - k.order) (omega arith),
                  pow_le_pow (bits - k.order) 5 few,
                ))
        ])

Tiles-le : (lo hi : ℕ) (bs : List PrefixIter) → Tiles lo hi bs → lo ≤ hi + 1
Tiles-le lo hi [] t = omega (arith, t)
Tiles-le lo hi (b ∷ bs) t =
    omega (arith, Tiles-le (b.end + 1) hi bs t.2, t.0, t.1.long, pow_pos t.1.order)

-- The blocks of a range of the dimension write below the end of the array.
pub count_prefixes-runs :
    (dim lo hi : ℕ) (bs : List PrefixIter) (c : ℕ → ℕ)
    → Tiles lo hi bs
    → hi < 2 ^ dim_bits dim
    → (counts : ℕ → ℕ) × (count_prefixes (dim_bits dim) bs c ≡ some counts)
unfolding count_prefixes
count_prefixes-runs dim lo hi [] c t small = (c, refl)
count_prefixes-runs dim lo hi (b ∷ bs) c t small =
    let i = cell_of (get_prefix b (dim_bits dim)) (dim_bits dim) in
    let ends : b.end < 2 ^ dim_bits dim = omega (arith, Tiles-le (b.end + 1) hi bs t.2) in
    let width = dim_bits-bounds dim in
    let below = cell_of-lt b t.1 (dim_bits dim) width.0 width.1 ends in
    let here : ltb i 127 ≡ true = ground arith in
    let (counts, run) =
      count_prefixes-runs dim (b.end + 1) hi bs (update c i (c i + 1)) t.2 small in
    (counts, rw here run)
