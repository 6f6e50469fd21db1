-- ===== src/MbNode/Lookup.antt =====
-- The table-driven tree_function answers what the loop over the levels answers.
use choose_cut.Base.{
  ℕ, zero, suc, ◌+◌, ◌-◌, ◌/◌, ◌^◌, ◌<◌, ◌≤◌, ◌≡◌, refl, ◌∙◌, ap, arith, inl, inr, false, some,
  ◌==◌, if◌then◌else◌, ◌>>=◌, Bool-cases, ltb, bit_and, clz,
}
use choose_cut.Base.Pow.{clz_bounds, pow_pos, pow-suc_two, pow_le_pow}
use choose_cut.Base.Ones.{bit_and-le, bit_and-pow, bit_and_above, clz_above, zero_bit_and}
use choose_cut.MbNode.{
  Hit, miss, hit, count_inl_bitmap, tree_levels, tree_function_loop, fast_lookup_init,
  tree_function,
}
use choose_cut.MbNode.Table.{row, level, tables, fct-row, pos2cidr-level, fast_lookup_init-tables}

-- The place of a prefix of at most five bits.
pub count_inl_bitmap_lem :
    (bit cidr : ℕ)
    → cidr < 6
    → bit < 2 ^ cidr
    → (count_inl_bitmap bit cidr ≡ 2 ^ cidr + bit - 1)
      × (count_inl_bitmap bit cidr + 2 ≤ 2 ^ suc cidr)
      × (2 ^ cidr ≤ count_inl_bitmap bit cidr + 1)
count_inl_bitmap_lem bit cidr lt below =
    let small = pow_le_pow cidr 5 (omega arith) in
    let p = pow_pos cidr in omega (arith, pow-suc_two cidr)

-- The ones of the levels below stand below the place.
row_below : (j bit : ℕ) → j ≤ 6 → bit < 2 ^ j → row j (bit / 2) < 2 ^ (2 ^ j - 1)
unfolding row
row_below zero bit le lt = omega arith
row_below (suc j) bit le lt =
    let half : bit / 2 < 2 ^ j = omega (arith, pow-suc_two j) in
    let p = count_inl_bitmap_lem (bit / 2) j (omega arith) half in
    let ih = row_below j (bit / 2) (omega arith) half in
    let under = pow_le_pow (2 ^ j - 1) (count_inl_bitmap (bit / 2) j) (omega arith) in
    let over = pow_le_pow (suc (count_inl_bitmap (bit / 2) j)) (2 ^ suc j - 1) (omega arith) in
    omega (arith, pow-suc_two (count_inl_bitmap (bit / 2) j))

-- The answer that the highest of some ones gives.
abbrev highest : ℕ → Hit
highest ret = if ret == 0 then miss else hit (63 - clz 64 ret) (level (63 - clz 64 ret))

-- The same place with the count of bits that the tables give it, which is one more.
abbrev pub deeper : Hit → Hit
deeper miss = miss
deeper (hit pos cidr) = hit pos (cidr + 1)

level-count_inl_bitmap_lem :
    (bit cidr : ℕ) → cidr < 6 → bit < 2 ^ cidr → level (count_inl_bitmap bit cidr) ≡ cidr + 1
unfolding level
level-count_inl_bitmap_lem bit cidr lt below =
    let p = count_inl_bitmap_lem bit cidr lt below in
    let e : count_inl_bitmap bit cidr + 1 ≡ 2 ^ cidr + bit = omega (arith, pow_pos cidr) in
    rw (e, clz_above 64 cidr bit (omega arith) below) (omega arith)

none_more : (n : ℕ) → 0 + n ≡ n
none_more n = omega arith

highest-tree_levels :
    (j bitmap stride : ℕ)
    → j ≤ 6
    → stride < 2 ^ j
    → highest (bit_and (row j (stride / 2)) bitmap) ≡ deeper (tree_levels j bitmap stride)
unfolding row tree_levels
highest-tree_levels zero bitmap stride le lt = rw (zero_bit_and bitmap) refl
highest-tree_levels (suc j) bitmap stride le lt =
    let half : stride / 2 < 2 ^ j = omega (arith, pow-suc_two j) in
    let pos = count_inl_bitmap (stride / 2) j in
    let p = count_inl_bitmap_lem (stride / 2) j (omega arith) half in
    let below = row_below j (stride / 2) (omega arith) half in
    let under = pow_le_pow (2 ^ j - 1) pos (omega arith) in
    let ih = highest-tree_levels j bitmap (stride / 2) (omega arith) half in
    elim (bit_and-pow pos bitmap) [
      | inl no_bit ↦
          rw
            (
              bit_and_above pos (row j (stride / 2 / 2)) bitmap (omega arith),
              no_bit,
              none_more (bit_and (row j (stride / 2 / 2)) bitmap),
            )
            ih
      | inr one ↦
          let rest = bit_and (row j (stride / 2 / 2)) bitmap in
          let low : rest < 2 ^ pos = omega (arith, bit_and-le (row j (stride / 2 / 2)) bitmap) in
          let some_bit : (2 ^ pos + rest == 0) ≡ false = ground (arith, pow_pos pos) in
          let some_bit' : (2 ^ pos == 0) ≡ false = ground (arith, pow_pos pos) in
          let fits : pos < 64 = omega (arith, p, pow_le_pow (suc j) 6 le) in
          let up : 63 - clz 64 (2 ^ pos + rest) ≡ pos =
            rw (clz_above 64 pos rest fits low) (omega arith) in
          rw
            (
              bit_and_above pos (row j (stride / 2 / 2)) bitmap (omega arith),
              one,
              some_bit,
              some_bit',
              up,
              level-count_inl_bitmap_lem (stride / 2) j (omega arith) half,
            )
            refl
    ]

within_table : (ret : ℕ) → 0 < ret → ret < 2 ^ 63 → 63 - clz 64 ret < 63
within_table ret pos lt = elim (Bool-cases (ltb (63 - clz 64 ret) 63)) [
  | inl fits ↦ ground arith
  | inr over ↦
      let b = clz_bounds 64 ret pos (omega arith) in
      absurd (ground (arith, pow_le_pow 63 (63 - clz 64 ret) (ground arith)))
]

tree_function-highest :
    (bitmap stride : ℕ)
    → stride < 64
    → tree_function tables bitmap stride ≡ some (highest (bit_and (row 6 (stride / 2)) bitmap))
unfolding tree_function
tree_function-highest bitmap stride lt =
    elim (Bool-cases (bit_and (row 6 (stride / 2)) bitmap == 0)) [
      | inl nothing ↦ rw (fct-row (stride / 2) (omega arith), nothing) refl
      | inr something ↦
          let ret = bit_and (row 6 (stride / 2)) bitmap in
          rw
            (
              fct-row (stride / 2) (omega arith),
              something,
              pos2cidr-level (63 - clz 64 ret) (
                  within_table ret (ground arith) (
                    omega (
                      arith,
                      bit_and-le (row 6 (stride / 2)) bitmap,
                      row_below 6 stride (omega arith) lt,
                    ))),
            )
            refl
    ]

pub tree_function-tree_levels :
    (bitmap stride : ℕ)
    → stride < 64
    → tree_function tables bitmap stride ≡ some (deeper (tree_levels 6 bitmap stride))
tree_function-tree_levels bitmap stride lt =
    tree_function-highest bitmap stride lt
    ∙ ap some (highest-tree_levels 6 bitmap stride (omega arith) (omega arith))

tree_levels-zero : (j stride : ℕ) → tree_levels j 0 stride ≡ miss
unfolding tree_levels
tree_levels-zero zero stride = refl
tree_levels-zero (suc j) stride =
    rw (zero_bit_and (2 ^ count_inl_bitmap (stride / 2) j)) (tree_levels-zero j (stride / 2))

-- Whatever the bitmap and the stride of six bits, the table-driven tree_function on the tables that
-- fast_lookup_init makes reads within them, finds a prefix exactly if the loop over the levels finds
-- one, and it is at the same place; the count of bits that it gives is one more than the loop's.
pub tree_function-tree_function_loop :
    (bitmap stride : ℕ)
    → stride < 64
    → (fast_lookup_init >>= λ t. tree_function t bitmap stride)
      ≡ some (deeper (tree_function_loop bitmap stride))
unfolding tree_function_loop
tree_function-tree_function_loop bitmap stride lt =
    rw (fast_lookup_init-tables, tree_function-tree_levels bitmap stride lt)
      (elim (Bool-cases (bitmap == 0)) [
        | inl empty ↦ let e : bitmap ≡ 0 = ground arith in rw (e, tree_levels-zero 6 stride) refl
        | inr ones ↦ rw ones refl
      ])
