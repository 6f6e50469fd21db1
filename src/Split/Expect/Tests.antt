-- ===== src/Split/Expect/Tests.antt =====
-- Runs of the sweep and the estimates, and their theorems at an input.
use choose_cut.Base.{ℕ, ◌≡◌, ◌⊎◌, refl, arith, true, false, some, List, [], ◌∷◌, All, get_elem?}
use choose_cut.Rule.{Range, Rule, Flow}
use choose_cut.Ranges.{Range1d}
use choose_cut.Double.Fixed.{fixed, fixed-IsReflexive}
use choose_cut.Double.{double_equals}
use choose_cut.Heap.Sorted.{sorted_heap, sorted_heap-IsLawful}
use choose_cut.RuleSet.{RuleSet, lsearch}
use choose_cut.Split.{split_aux_init, Snode, Stree, SpNode, split_cut, split_search}
use choose_cut.Split.Cut.{Cuts, IsTree, IsSide}
use choose_cut.Split.Sweep.{split_match_expect_1d, split_match_expect_heuristic}
use choose_cut.Split.Sweep.Fits.{split_match_expect_1d-Cuts}
use choose_cut.Split.Expect.{split_match_build_childs, split_match_expect}
use choose_cut.Split.Expect.Init.{Explains, split_aux_init-Explains}
use choose_cut.Split.Expect.Sides.{IsBox, split_match_build_childs-IsSide}
use choose_cut.Split.Expect.Fits.{split_match_expect-IsTree}
use choose_cut.Split.Expect.Search.{split_search-split_match_expect}

abbrev span : ℕ → ℕ → Range
span low high = record { low = low; high = high }

abbrev rule : ℕ → ℕ → ℕ → Rule
rule p low high = record { pri = p; range = λ i. span low high }

abbrev rules : RuleSet
rules = record { cap = 4; list = rule 0 0 4 ∷ rule 1 3 9 ∷ rule 2 6 12 ∷ rule 3 10 20 ∷ [] }

abbrev blank : Range1d
blank = record { low = 0; high = 0; weight = 0 }

abbrev snode : RuleSet → Snode
snode s = record { dim = 0; flags = 1; r0 = blank; r1 = blank; rule_set = s }

-- The cut is behind 4, with two rules on the left and three on the right.
split_match_expect_1d_run :
    split_match_expect_1d fixed sorted_heap (snode rules) 0
    ≡ some (
      26000,
      record (snode rules) {
        r0 = record { low = 0; high = 4; weight = 2 };
        r1 = record { low = 5; high = 20; weight = 3 };
      },
    )
unfolding split_match_expect_1d sorted_heap split_match_expect_heuristic
    choose_cut.Ranges.unique_ranges choose_cut.Ranges.sort_ranges
split_match_expect_1d_run = refl

split_match_expect_1d-Cuts_example :
    (me : ℕ) × (r0 : Range1d) × (r1 : Range1d) × (split_match_expect_1d fixed sorted_heap
        (snode rules)
        0
      ≡ some (me, record (snode rules) { r0 = r0; r1 = r1 }))
    × ((me ≡ 40000)
        ⊎ (Cuts 0 r0 r1 rules.list × (me ≡ split_match_expect_heuristic fixed r0.weight r1.weight)))
split_match_expect_1d-Cuts_example =
    split_match_expect_1d-Cuts fixed sorted_heap sorted_heap-IsLawful (snode rules) 0 (omega arith)
      (omega arith) (omega arith)

boxes : All IsBox rules.list
boxes =
    (λ j lt. omega arith, (λ j lt. omega arith, (λ j lt. omega arith, (λ j lt. omega arith, tt))))

split_match_build_childs-IsSide_example :
    (side : Snode) × (split_match_build_childs fixed sorted_heap false (snode rules) ≡ some side)
    × (side.rule_set ≡ rules)
    × IsSide side rules.list
split_match_build_childs-IsSide_example =
    split_match_build_childs-IsSide fixed sorted_heap sorted_heap-IsLawful false fixed-IsReflexive
      (snode rules) (omega arith) boxes

abbrev tree : Stree
tree = record { root = snode rules; left = snode rules; right = snode rules }

split_match_expect-IsTree_example :
    (me : ℕ) × (tree' : Stree) × (split_match_expect fixed sorted_heap false rules 4 4 0 tree
      ≡ some (me, tree'))
    × ((double_equals fixed me 40000 ≡ true) ⊎ IsTree 0 tree' rules.list)
split_match_expect-IsTree_example =
    split_match_expect-IsTree fixed sorted_heap sorted_heap-IsLawful false fixed-IsReflexive rules 4
      4 0 tree (omega arith) (omega arith) boxes (omega arith) (omega arith)

abbrev node : SpNode
node = record {
  dim_left = 0;
  dim_right = 0;
  shape = 0;
  root_split = 0;
  left_split = 0;
  right_split = 0;
}

abbrev seven : Flow
seven = record { key = λ i. 7 }

split_search-split_match_expect_example :
    (me : ℕ) × (tree' : Stree) × (split_match_expect fixed sorted_heap false rules 4 4 0 tree
      ≡ some (me, tree'))
    × ((double_equals fixed me 40000 ≡ true)
        ⊎ ((n : SpNode) × (children : List RuleSet) × (child : RuleSet) × (split_cut
                (λ _. true)
                node
                0
                rules
                4
                4
                tree'
              ≡ some (n, children))
            × (get_elem? children (split_search n 0 seven) ≡ some child)
            × (lsearch child.list seven ≡ lsearch rules.list seven)))
split_search-split_match_expect_example =
    split_search-split_match_expect fixed sorted_heap sorted_heap-IsLawful false fixed-IsReflexive
      (λ _. true) (λ _. refl) rules 4 4 0 tree (omega arith) (omega arith) boxes (omega arith)
      (omega arith) node seven refl

-- All memory is granted.
split_aux_init-Explains_example :
    Explains fixed sorted_heap false rules 0 tree true
      (λ _. true)
      (λ _. true)
      (split_aux_init true (λ _. true) (λ _. true) rules)
split_aux_init-Explains_example =
    split_aux_init-Explains fixed sorted_heap sorted_heap-IsLawful false fixed-IsReflexive rules 0
      tree (omega arith) (omega arith) boxes true (λ _. true) (λ _. true)
