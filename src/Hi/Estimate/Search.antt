-- ===== src/Hi/Estimate/Search.antt =====
-- From the estimate to the search: hi_get_rule_hist, hi_cut on what it leaves, and hi_search.
use choose_cut.Base.{
  ℕ, ◌^◌, ◌≤◌, ◌<◌, ◌≡◌, ◌⊎◌, inl, inr, Bool, true, some, List, All, ltb, arith, Bool-cases,
}
use choose_cut.Rule.{dims, Flow}
use choose_cut.Heap.{HeapOps, IsLawful}
use choose_cut.Double.{Doubles}
use choose_cut.RuleSet.{RuleSet, num}
use choose_cut.Split.Sweep.Rules.{IsRange}
use choose_cut.Hi.{HiAux, HiNode, segment, hi_cut, hi_set_node, hi_search}
use choose_cut.Hi.Search.{Answers, hi_search-hi_cut}
use choose_cut.Hi.Estimate.{hi_get_rule_hist}
use choose_cut.Hi.Estimate.Fits.{hi_get_rule_hist-IsHiCut}

module _ (F : Doubles) (H : HeapOps) (law : IsLawful H) (grants : ℕ → Bool)
    (all_granted : (n : ℕ) → grants n ≡ true) where
  -- With memory granted, a heap that keeps its promises, at least one and fewer than 2 ^ 32 rules, whose ranges
  -- in one of the five dimensions have low <= high < 2 ^ 32, an empty bitmap and a flow whose key there is below
  -- 2 ^ 32: hi_get_rule_hist answers the number of rules and leaves the dimension as it was, or the key does not
  -- come before the start of what it leaves and lies behind segment 63 of it, or hi_cut on that passes all its
  -- assertions, and hi_search on the node goes nowhere only if no rule of the node matches the flow, and otherwise to a
  -- child in which the flow finds the priority that it finds in the node.
  pub hi_search-hi_get_rule_hist :
      (rules : RuleSet) (dim : ℕ)
      → dim < dims
      → num rules < 2 ^ 32
      → 0 < num rules
      → All (IsRange dim) rules.list
      → (aux : HiAux) (hist_rules : ℕ) (n : HiNode) (f : Flow) → n.bitmap ≡ 0
      → f.key dim < 2 ^ 32
      → (me : F.Double) × (aux' : HiAux) × (total : ℕ) × (hi_get_rule_hist F H rules dim aux
            hist_rules
          ≡ some (me, aux', total))
        × (((me ≡ F.from_int (num rules)) × (aux' ≡ aux))
            ⊎ ((aux'.start ≤ f.key dim) × (64 ≤ segment aux' (f.key dim)))
            ⊎ ((childs : List RuleSet) × (hi_cut grants n dim rules.list aux'
                  ≡ some (hi_set_node n aux', childs))
                × Answers childs rules.list f (hi_search (hi_set_node n aux') dim f)))
  hi_search-hi_get_rule_hist rules dim in_dims word some_rule fit aux hist_rules n f empty
        key_word =
      let (me, aux', total, run, fits) =
        hi_get_rule_hist-IsHiCut F H law rules dim in_dims word some_rule fit aux hist_rules in
      (
        me,
        aux',
        total,
        run,
        elim fits [
          | inl same ↦ inl same
          | inr cut ↦
              let searched =
                hi_search-hi_cut grants all_granted n dim rules.list aux' cut.top f empty in_dims
                  cut.top_small cut.is_cut cut.placed key_word in
              elim (Bool-cases (ltb (f.key dim) aux'.start)) [
                | inl before ↦ inr (inr (searched (λ comes. absurd (ground arith))))
                | inr comes ↦ elim (Bool-cases (ltb (segment aux' (f.key dim)) 64)) [
                  | inl near ↦ inr (inr (searched (λ _. ground arith)))
                  | inr far ↦ inr (inl (ground arith, ground arith))
                ]
              ]
        ],
      )
