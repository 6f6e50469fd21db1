-- ===== src/Split/Expect/Search.antt =====
-- From the estimate to the search: split_match_expect, split_cut on the tree that it leaves, and split_search.
use choose_cut.Base.{
  ℕ, ◌^◌, ◌≤◌, ◌<◌, ◌≡◌, arith, ◌⊎◌, inl, inr, Bool, true, some, List, All, get_elem?,
}
use choose_cut.Rule.{dims, Flow}
use choose_cut.Heap.{HeapOps, IsLawful}
use choose_cut.Double.{IsReflexive, Doubles, double_equals}
use choose_cut.RuleSet.{RuleSet, num, lsearch}
use choose_cut.Split.{Stree, SpNode, split_cut, split_search}
use choose_cut.Split.Search.{split_search-split_cut}
use choose_cut.Split.Expect.{split_match_expect}
use choose_cut.Split.Expect.Sides.{IsBox}
use choose_cut.Split.Expect.Fits.{length-part, split_match_expect-IsTree}

module _ (F : Doubles) (H : HeapOps) (law : IsLawful H) (memory_constraints : Bool)
    (reflexive : IsReflexive F) (grants : ℕ → Bool) (all_granted : (n : ℕ) → grants n ≡ true) where
  module _ (rules : RuleSet) (left_cap right_cap dim : ℕ) (tree : Stree) (in_dims : dim < dims)
      (word : num rules < 2 ^ 32) (boxes : All IsBox rules.list) (lroom : num rules ≤ left_cap)
      (rroom : num rules ≤ right_cap) where
    -- With memory granted, a heap that keeps its promises, floating point in which every integer equals
    -- itself, fewer than 2 ^ 32 rules, each with low <= high < 2 ^ 32 in all five dimensions, room for the
    -- rules on both sides and a node whose shape is 0: split_match_expect passes its assertions, and either
    -- what it returns equals the number of rules as the program compares, or split_cut on the tree that it
    -- leaves passes all its assertions, and for every flow split_search goes to a child in which the flow
    -- finds the priority that it finds in the rules of the node.
    pub split_search-split_match_expect :
        (sp : SpNode) (f : Flow)
        → sp.shape ≡ 0
        → (me : F.Double) × (tree' : Stree) × (split_match_expect F H memory_constraints rules
              left_cap right_cap dim tree
            ≡ some (me, tree'))
          × ((double_equals F me (F.from_int (num rules)) ≡ true)
              ⊎ ((n : SpNode) × (children : List RuleSet) × (child : RuleSet) × (split_cut grants sp
                      dim rules left_cap right_cap tree'
                    ≡ some (n, children))
                  × (get_elem? children (split_search n dim f) ≡ some child)
                  × (lsearch child.list f ≡ lsearch rules.list f)))
    split_search-split_match_expect sp f empty =
        let (me, tree', run, fits) =
          split_match_expect-IsTree F H law memory_constraints reflexive rules left_cap right_cap
            dim tree in_dims word boxes lroom rroom in
        (
          me,
          tree',
          run,
          elim fits [
            | inl no_gain ↦ inl no_gain
            | inr t ↦ inr (
                split_search-split_cut grants all_granted sp dim rules left_cap right_cap tree' f
                  empty t (omega (arith, t.root.weight0, length-part dim tree'.root.r0 rules.list))
                  (omega (arith, t.root.weight1, length-part dim tree'.root.r1 rules.list)))
          ],
        )
