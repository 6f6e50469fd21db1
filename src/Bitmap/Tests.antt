-- ===== src/Bitmap/Tests.antt =====
-- Runs of the bitmap cut, and its theorems at an input.
use choose_cut.Base.{
  ℕ, ◌≡◌, ◌≢◌, ◌<◌, refl, arith, Option, some, List, [], ◌∷◌, ◌==◌, if◌then◌else◌, ◌>>=◌,
}
use choose_cut.Base.{true, get_elem?, ctz, clz, popcount}
use choose_cut.Rule.{in_range}
use choose_cut.Rule.Iter.{
  get_prefix, prefix_to_range, prefix_iters, iterate, range_to_prefix_iter, get_next_prefix_iter,
  is_empty_prefix_iter, block_at, leap,
}
use choose_cut.RuleSet.{RuleSet, append_rules, rule_set_init}
use choose_cut.MbNode.{MbNode}
use choose_cut.Bitmap.{even_search_lshift, next_inl, next_exl}
use choose_cut.Bitmap.Push.{push_rules_even, child_prefix}
use choose_cut.Bitmap.Narrow.{in_range-child_prefix}
use choose_cut.Rule.{Rule, Flow}
use choose_cut.MbNode.{fast_lookup_init}
use choose_cut.Bitmap.{
  RuleHist, cell_of, first_parent, even_mark, even_mem_quant, get_rule_hist, sum_cell, even_search,
  child_at,
}
use choose_cut.Bitmap.Slots.{child_at-even_mark}
use choose_cut.Bitmap.Search.{Finds, nearest, lowest_cell, even_search-even_mark}
use choose_cut.Bitmap.Count.{even_mem_quant-get_rule_hist}

-- Rules in the root cell, in cell 5 (the prefix 10) and in cell 105 (the prefix 101010).
abbrev counts : ℕ → ℕ
counts i = if i == 0 then 1 else (if i == 5 then 2 else (if i == 105 then 3 else 0))

abbrev hist : RuleHist
hist = record { child_rulecount = counts; childs = 3; rules = 6 }

-- A protocol is a key of eight bits.
abbrev protocol : ℕ → Flow
protocol k = record { key = λ i. k }

cell_of_long : cell_of (record { prefix = 168; len = 7 }) 8 ≡ 105
unfolding cell_of
cell_of_long = refl

cell_of_short : cell_of (record { prefix = 128; len = 2 }) 8 ≡ 5
unfolding cell_of
cell_of_short = refl

first_parent_run : first_parent 7 counts 105 ≡ some 5
unfolding first_parent
first_parent_run = refl

sum_cell_run : (sum_cell 105 hist).rules ≡ 11
unfolding sum_cell first_parent
sum_cell_run = refl

child_at-even_mark_example :
    (p : ℕ) × (q : ℕ) × (child_at (even_mark hist).0 5 ≡ some p)
    × (child_at (even_mark hist).0 105 ≡ some q)
    × (p ≢ q)
    × (p < (even_mark hist).1)
    × (q < (even_mark hist).1)
child_at-even_mark_example =
    child_at-even_mark hist 5 105 (omega arith) (omega arith) refl refl (omega arith)

even_search-even_mark_example :
    (found : Option ℕ) × (f' : Flow) × ((fast_lookup_init >>= λ t.
    even_search t (even_mark hist).0 4 (protocol 170))
      ≡ some (found, f'))
    × Finds (even_mark hist).0 (nearest hist.child_rulecount (lowest_cell 4 (protocol 170))) found
    × ((d : ℕ) → d ≢ 4 → f'.key d ≡ 170)
even_search-even_mark_example = even_search-even_mark hist 4 (protocol 170) (omega arith)

abbrev two_protocols : List Rule
two_protocols =
    record { pri = 0; range = λ i. record { low = 6; high = 6 } }
    ∷ record { pri = 1; range = λ i. record { low = 0; high = 255 } }
    ∷ []

even_mem_quant-get_rule_hist_example :
    (h : RuleHist) × (get_rule_hist 256 4 two_protocols ≡ some h)
    × (even_mem_quant h ≡ (even_mark h).1)
even_mem_quant-get_rule_hist_example =
    even_mem_quant-get_rule_hist 256 4 two_protocols
      ((omega arith, omega arith, omega arith), ((omega arith, omega arith, omega arith), tt))

-- The counts of these two rules, in the root cell and in cell 64, and the node that they make.
abbrev two_counts : ℕ → ℕ
two_counts i = if i == 0 then 1 else (if i == 64 then 2 else 0)

abbrev two_children : List RuleSet
two_children = record { cap = 0; list = [] } ∷ record { cap = 0; list = [] } ∷ []

abbrev two_node : MbNode
two_node = record { external = 2; internal = 1; child_ptr = 1 }

-- The second child has the rest of the first rule, the numbers from 128 to 191.
push_run :
    (push_rules_even (λ _. true) 256 4 two_node two_counts two_protocols two_children
      >>= λ children.
          get_elem? children 1 >>= λ child. get_elem? child.list 0 >>= λ r. some (r.range 4))
    ≡ some (record { low = 128; high = 191 })
unfolding push_rules_even child_at next_inl next_exl cell_of get_prefix prefix_to_range prefix_iters
    iterate range_to_prefix_iter get_next_prefix_iter is_empty_prefix_iter block_at leap ctz clz
    popcount append_rules rule_set_init
push_run = refl

cell_of_seven : cell_of (record { prefix = 4; len = 7 }) 8 ≡ 64
unfolding cell_of
cell_of_seven = refl

in_range-child_prefix_example :
    in_range
      (even_search_lshift 6 8 6)
      (prefix_to_range (child_prefix (record { prefix = 4; len = 7 }) 8) 8)
    ≡ in_range 6 (prefix_to_range (record { prefix = 4; len = 7 }) 8)
in_range-child_prefix_example =
    in_range-child_prefix 4 (record { prefix = 4; len = 7 }) 6
      (record {
        long = omega arith;
        short = omega arith;
        block = 2;
        start = omega arith;
        below = omega arith;
      })
      (omega arith) (rw cell_of_seven (omega arith))
