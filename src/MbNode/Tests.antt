-- ===== src/MbNode/Tests.antt =====
-- Runs of the multi-bit node, and its theorem at an input.
use choose_cut.Base.{◌≡◌, refl, arith, some, ◌>>=◌}
use choose_cut.MbNode.{hit, miss, tree_function_loop, fast_lookup_init, tree_function}
use choose_cut.MbNode.Lookup.{deeper, tree_function-tree_function_loop}

-- The empty prefix and the prefix 10 are set; the stride 101010 finds the longer one.
loop_run : tree_function_loop 33 42 ≡ hit 5 2
unfolding tree_function_loop
loop_run = refl

loop_miss : tree_function_loop 32 0 ≡ miss
unfolding tree_function_loop
loop_miss = refl

tree_function-tree_function_loop_example :
    (fast_lookup_init >>= λ t. tree_function t 33 42) ≡ some (deeper (tree_function_loop 33 42))
tree_function-tree_function_loop_example = tree_function-tree_function_loop 33 42 (omega arith)
