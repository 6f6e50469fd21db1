-- ===== src/Tree/Traverse/Tests.antt =====
-- Runs of the traversals, and their theorems at an input.
use choose_cut.Base.{ℕ, ◌≡◌, refl, arith, some, [], ◌∷◌, length, ◌-◌, ◌+◌, ◌++◌, map, popcount}
use choose_cut.Base.Visit.{upto}
use choose_cut.Ranges.{Range1d}
use choose_cut.Split.{Snode, Stree, SpNode, split_fill}
use choose_cut.Hi.{HiAux, HiNode, hi_set_node}
use choose_cut.MbNode.{MbNode}
use choose_cut.Tree.Traverse.{split_traverse, hi_traverse, even_traverse}
use choose_cut.Tree.Traverse.Visited.{
  split_traverse-split_fill, hi_traverse-hi_set_node, even_traverse-upto,
}

abbrev range : ℕ → ℕ → Range1d
range low high = record { low = low; high = high; weight = 1 }

abbrev snode : ℕ → Snode
snode flags = record {
  dim = 0;
  flags = flags;
  r0 = range 0 4;
  r1 = range 5 9;
  rule_set = record { cap = 0; list = [] };
}

-- The right side is cut again.
abbrev tree : Stree
tree = record { root = snode 1; left = snode 0; right = snode 1 }

abbrev node : SpNode
node = record {
  dim_left = 0;
  dim_right = 0;
  shape = 0;
  root_split = 0;
  left_split = 0;
  right_split = 0;
}

split_traverse-split_fill_example :
    split_traverse (split_fill node tree).1 ≡ some (upto (split_fill node tree).0)
split_traverse-split_fill_example = split_traverse-split_fill node tree refl

abbrev three_segs : HiAux
three_segs = record {
  start = 8;
  shift = 2;
  segs =
      record { first = 0; last = 0; count = 1 }
      ∷ record { first = 1; last = 1; count = 2 }
      ∷ record { first = 2; last = 3; count = 1 }
      ∷ [];
}

abbrev blank : HiNode
blank = record { start = 0; shift = 0; bitmap = 0 }

hi_traverse-hi_set_node_example :
    hi_traverse (hi_set_node blank three_segs) ≡ some (upto (length three_segs.segs - 1))
hi_traverse-hi_set_node_example =
    hi_traverse-hi_set_node blank three_segs 3 refl (omega arith) (omega arith)

-- Two internal children and one external one.
abbrev mb : MbNode
mb = record { external = 8; internal = 5; child_ptr = 2 }

even_traverse-upto_example :
    even_traverse mb
    ≡ some (
        map (λ i. some (2 - i - 1)) (upto (popcount 64 5))
        ++ map (λ i. some (2 + i)) (upto (popcount 64 8)))
unfolding popcount
even_traverse-upto_example = even_traverse-upto mb (omega arith) (omega arith) refl
