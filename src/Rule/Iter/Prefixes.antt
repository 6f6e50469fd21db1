-- ===== src/Rule/Iter/Prefixes.antt =====
-- A block as a prefix, and back.
use choose_cut.Base.{ℕ, ◌-◌, ◌^◌, ◌≤◌, ◌<◌, ◌≡◌, arith, ctz, add64, sub32}
use choose_cut.Base.{◌==◌, inl, inr, Bool-cases}
use choose_cut.Base.Pow.{pow_pos, pow_le_pow, pow-eq-one, ctz-pow}
use choose_cut.Rule.Iter.{PrefixIter, get_prefix, prefix_to_range, range_to_prefix}
use choose_cut.Rule.Iter.Blocks.{IsBlock}

module _ (b : PrefixIter) (k : IsBlock b) (small : b.end < 2 ^ 32) where
  offset_of_block : sub32 b.end b.start ≡ 2 ^ k.order - 1
  offset_of_block = omega (arith, pow_pos k.order, pow_le_pow k.order 32 k.small)

  ctz_of_block : ctz 64 (add64 (sub32 b.end b.start) 1) ≡ k.order
  ctz_of_block =
      let e : add64 (sub32 b.end b.start) 1 ≡ 2 ^ k.order =
        omega (arith, offset_of_block, pow_pos k.order, pow_le_pow k.order 32 k.small) in
      rw e (ctz-pow 64 k.order (omega arith))

  module _ (bits : ℕ) (fits : k.order ≤ bits) (width : bits ≤ 32) where
    range_to_prefix_of_block :
        range_to_prefix (record { low = b.start; high = b.end }) bits
        ≡ record { prefix = b.start; len = bits - k.order }
    unfolding range_to_prefix
    range_to_prefix_of_block = rw ctz_of_block (ground arith)

    pub get_prefix_of_block : get_prefix b bits ≡ record { prefix = b.start; len = bits - k.order }
    unfolding get_prefix
    get_prefix_of_block = elim (Bool-cases (sub32 b.end b.start == 0)) [
      | inl single ↦
          rw single (ground (arith, offset_of_block, pow_pos k.order, pow-eq-one k.order))
      | inr several ↦ rw (several, ctz_of_block) (ground arith)
    ]

    prefix_to_range_of_block :
        prefix_to_range (record { prefix = b.start; len = bits - k.order }) bits
        ≡ record { low = b.start; high = b.end }
    unfolding prefix_to_range
    prefix_to_range_of_block =
        let e : sub32 bits (bits - k.order) ≡ k.order = omega arith in
        rw e (ground (arith, pow_pos k.order, pow_le_pow k.order 32 k.small))

-- A block below 2 ^ 32 of at most 2 ^ bits numbers is one prefix, the one that both get_prefix
-- and range_to_prefix give; it has no more than `bits` leading bits, and prefix_to_range turns it
-- back into the block.
pub prefix_to_range-get_prefix :
    (b : PrefixIter) (k : IsBlock b) (bits : ℕ)
    → b.end < 2 ^ 32
    → k.order ≤ bits
    → bits ≤ 32
    → (prefix_to_range (get_prefix b bits) bits ≡ record { low = b.start; high = b.end })
      × (range_to_prefix (record { low = b.start; high = b.end }) bits ≡ get_prefix b bits)
      × ((get_prefix b bits).len ≤ bits)
prefix_to_range-get_prefix b k bits small fits width =
    rw (get_prefix_of_block b k small bits fits width) (
      prefix_to_range_of_block b k small bits fits width,
      range_to_prefix_of_block b k small bits fits width,
      omega arith,
    )
