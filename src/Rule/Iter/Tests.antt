-- ===== src/Rule/Iter/Tests.antt =====
-- Runs of the prefix iteration, and its theorems at inputs.
use choose_cut.Base.{◌^◌, ◌≤◌, ◌-◌, ◌≡◌, refl, arith, some, List, [], ◌∷◌, ctz, clz}
use choose_cut.Rule.{Range}
use choose_cut.Rule.Iter.{
  PrefixIter, leap, block_at, range_to_prefix_iter, is_empty_prefix_iter, get_next_prefix_iter,
  get_prefix, prefix_to_range, range_to_prefix, iterate, prefix_iters,
}
use choose_cut.Rule.Iter.Blocks.{IsBlock}
use choose_cut.Rule.Iter.Tiling.{hits, Tiles, prefix_iters-Tiles, prefix_iters-hits}
use choose_cut.Rule.Iter.Prefixes.{prefix_to_range-get_prefix}

program : Unit {0}
unfolding ctz clz leap block_at range_to_prefix_iter is_empty_prefix_iter get_next_prefix_iter
    iterate prefix_iters get_prefix prefix_to_range range_to_prefix
program = tt

abbrev one_to_four : Range
one_to_four = record { low = 1; high = 4 }

abbrev one_to_four_blocks : List PrefixIter
one_to_four_blocks =
    record { start = 1; end = 1; last = 4; left = 3 }
    ∷ record { start = 2; end = 3; last = 4; left = 1 }
    ∷ record { start = 4; end = 4; last = 4; left = 0 }
    ∷ []

-- test1 of test.c
prefix_iters-one_to_four : prefix_iters 4 one_to_four ≡ some one_to_four_blocks
unfolding program
prefix_iters-one_to_four = refl

-- test2 of test.c
prefix_iters-whole :
    prefix_iters 4 (record { low = 0; high = 2 ^ 32 - 1 })
    ≡ some (record { start = 0; end = 2 ^ 32 - 1; last = 2 ^ 32 - 1; left = 0 } ∷ [])
unfolding program
prefix_iters-whole = refl

prefix_iters-Tiles_example :
    (bs : List PrefixIter) × (prefix_iters 4 one_to_four ≡ some bs) × Tiles 1 4 bs
prefix_iters-Tiles_example =
    prefix_iters-Tiles one_to_four 4 (omega arith) (omega arith) (omega arith)

prefix_iters-hits_example :
    (bs : List PrefixIter) × (prefix_iters 4 one_to_four ≡ some bs) × (hits 3 bs ≡ 1)
prefix_iters-hits_example =
    prefix_iters-hits one_to_four 4 3 (omega arith) (omega arith) (omega arith)

abbrev block : PrefixIter
block = record { start = 0x1000; end = 0x10ff; last = 0xffff; left = 0 }

abbrev block-IsBlock : IsBlock block
block-IsBlock = record { order = 8; index = 16; small = omega arith; aligned = refl; long = refl }

prefix_to_range-get_prefix_example :
    (prefix_to_range (get_prefix block 16) 16 ≡ record { low = 0x1000; high = 0x10ff })
    × (range_to_prefix (record { low = 0x1000; high = 0x10ff }) 16 ≡ get_prefix block 16)
    × ((get_prefix block 16).len ≤ 16)
prefix_to_range-get_prefix_example =
    prefix_to_range-get_prefix block block-IsBlock 16 (omega arith) (omega arith) (omega arith)
