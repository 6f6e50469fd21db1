-- ===== src/Split/Tests.antt =====
-- Runs of the split cut, and its theorem at an input.
use choose_cut.Base.{
  ℕ, ◌+◌, ◌≡◌, refl, arith, true, ◌&&◌, some, none, List, [], ◌∷◌, get_elem?, leb, length,
  if◌then◌else◌,
}
use choose_cut.Rule.{Rule, Flow}
use choose_cut.Ranges.{Range1d}
use choose_cut.RuleSet.{RuleSet, num, lsearch}
use choose_cut.Split.{
  Snode, Stree, SpNode, split_search, split_cut, split_fill, split_rules_1d, split_mem_quant,
  split_fits_bs,
}
use choose_cut.RuleSet.Clip.{IsPart}
use choose_cut.Split.Parts.{as_range, part, with_rules, split_rules_1d-IsPart}
use choose_cut.Split.Cut.{IsTree}
use choose_cut.Split.Search.{split_search-split_cut}

abbrev cube : ℕ → ℕ → ℕ → Rule
cube p low high = record { pri = p; range = λ i. record { low = low; high = high } }

abbrev three : RuleSet
three = record { cap = 3; list = cube 0 0 10 ∷ cube 1 5 20 ∷ cube 2 15 30 ∷ [] }

abbrev range : ℕ → ℕ → ℕ → Range1d
range low high weight = record { low = low; high = high; weight = weight }

abbrev empty_set : RuleSet
empty_set = record { cap = 0; list = [] }

abbrev snode : ℕ → ℕ → Range1d → Range1d → Snode
snode dim flags r0 r1 = record { dim = dim; flags = flags; r0 = r0; r1 = r1; rule_set = empty_set }

-- Cut at 12 in dimension 0; the left side again at 4 in dimension 1, the right one not.
abbrev tree : Stree
tree = record {
  root = snode 0 1 (range 0 12 2) (range 13 30 2);
  left = snode 1 1 (range 0 4 1) (range 5 20 2);
  right = snode 0 0 (range 0 0 0) (range 0 0 0);
}

abbrev node : SpNode
node = record {
  dim_left = 0;
  dim_right = 0;
  shape = 0;
  root_split = 0;
  left_split = 0;
  right_split = 0;
}

abbrev seven : Flow
seven = record { key = λ i. 7 }

tree-IsTree : IsTree 0 tree three.list
unfolding part
tree-IsTree = record {
  root = omega arith;
  left = record { cuts = λ e. omega arith };
  right = record { cuts = λ e. ground arith };
}

split_search-split_cut_example :
    (n : SpNode) × (children : List RuleSet) × (child : RuleSet) × (split_cut
        (λ _. true)
        node
        0
        three
        3
        3
        tree
      ≡ some (n, children))
    × (get_elem? children (split_search n 0 seven) ≡ some child)
    × (lsearch child.list seven ≡ lsearch three.list seven)
split_search-split_cut_example =
    split_search-split_cut (λ _. true) (λ _. refl) node 0 three 3 3 tree seven refl tree-IsTree
      (omega arith) (omega arith)

-- The left side has two children, and 7 lies in the second.
split_search_run : split_search (split_fill node tree).1 0 seven ≡ 1
unfolding split_search split_fill
split_search_run = refl

split_fits_run : split_fits_bs tree ≡ true
unfolding split_fits_bs
split_fits_run = refl

split_mem_quant_run : split_mem_quant tree ≡ 3
unfolding split_mem_quant
split_mem_quant_run = refl

abbrev room : RuleSet
room = record { cap = 2; list = [] }

split_rules_1d-IsPart_example :
    (lefts : List Rule) × (rights : List Rule) × IsPart 0 (as_range (range 0 12 2)) three.list lefts
    × IsPart 0 (as_range (range 13 30 2)) three.list rights
    × (split_rules_1d three.list 0 (range 0 12 2) (range 13 30 2) room room ≡ (
        if leb (num room + length lefts) room.cap && leb (num room + length rights) room.cap
        then some (with_rules room lefts, with_rules room rights)
        else none))
split_rules_1d-IsPart_example =
    split_rules_1d-IsPart three.list 0 (range 0 12 2) (range 13 30 2) room room (omega arith)
      (omega arith)
