-- ===== src/Hi/Estimate/Tests.antt =====
-- Runs of the estimate of a hi cut, and its theorems at an input.
use choose_cut.Base.{
  ℕ, ◌*◌, ◌≤◌, ◌<◌, ◌≡◌, ◌⊎◌, refl, arith, Bool, true, some, none, Option, List, [], ◌∷◌, All,
}
use choose_cut.Rule.{Rule, Flow}
use choose_cut.Double.Fixed.{fixed}
use choose_cut.Heap.Sorted.{sorted_heap, sorted_heap-IsLawful}
use choose_cut.RuleSet.{RuleSet}
use choose_cut.Hi.{HiAux, HiNode, segment, hi_cut, hi_set_node, hi_search}
use choose_cut.Hi.Search.{Answers}
use choose_cut.Hi.Sweep.{hi_get_segs}
use choose_cut.Hi.Estimate.{roundup_log2, hi_get_rule_hist}
use choose_cut.Hi.Estimate.Rounding.{Rounded, roundup_log2-Rounded}
use choose_cut.Hi.Estimate.Tries.{Fitting}
use choose_cut.Hi.Estimate.Fits.{hi_get_rule_hist-IsHiCut}
use choose_cut.Hi.Estimate.Search.{hi_search-hi_get_rule_hist}
use choose_cut.Ranges.{Range1d}

abbrev rule : ℕ → ℕ → ℕ → Rule
rule p low high = record { pri = p; range = λ i. record { low = low; high = high } }

abbrev rules : RuleSet
rules = record { cap = 3; list = rule 0 8 13 ∷ rule 1 14 23 ∷ rule 2 16 39 ∷ [] }

abbrev blank_aux : HiAux
blank_aux = record { start = 0; shift = 0; segs = [] }

abbrev one : ℕ → ℕ → Range1d
one low high = record { low = low; high = high; weight = 1 }

-- Four segments of 8: three children, of which the last has two segments.
hi_get_segs_run :
    hi_get_segs sorted_heap (one 8 13) (one 14 23 ∷ one 16 39 ∷ []) 8 8 4
    ≡ some (
      record { first = 0; last = 0; count = 2 }
          ∷ record { first = 1; last = 1; count = 2 }
          ∷ record { first = 2; last = 3; count = 1 }
          ∷ [],
      5,
    )
unfolding hi_get_segs sorted_heap
hi_get_segs_run = refl

roundup_log2_run : roundup_log2 9 ≡ some 4
unfolding roundup_log2 choose_cut.Base.clz
roundup_log2_run = refl

roundup_log2-Rounded_example : Rounded 9
roundup_log2-Rounded_example = roundup_log2-Rounded 9 (omega arith) (omega arith)

hi_get_rule_hist-IsHiCut_example :
    (me : ℕ) × (aux' : HiAux) × (total : ℕ) × (hi_get_rule_hist fixed sorted_heap rules 0 blank_aux
        0
      ≡ some (me, aux', total))
    × (((me ≡ 30000) × (aux' ≡ blank_aux))
        ⊎ Fitting fixed sorted_heap sorted_heap-IsLawful rules 0
            (omega arith)
            (omega arith)
            (omega arith)
            (omega arith)
            aux')
hi_get_rule_hist-IsHiCut_example =
    hi_get_rule_hist-IsHiCut fixed sorted_heap sorted_heap-IsLawful rules 0 (omega arith)
      (omega arith) (omega arith) (omega arith) blank_aux 0

abbrev blank : HiNode
blank = record { start = 0; shift = 0; bitmap = 0 }

abbrev flow : Flow
flow = record { key = λ i. 15 }

hi_search-hi_get_rule_hist_example :
    (me : ℕ) × (aux' : HiAux) × (total : ℕ) × (hi_get_rule_hist fixed sorted_heap rules 0 blank_aux
        0
      ≡ some (me, aux', total))
    × (((me ≡ 30000) × (aux' ≡ blank_aux))
        ⊎ ((aux'.start ≤ 15) × (64 ≤ segment aux' 15))
        ⊎ ((childs : List RuleSet) × (hi_cut (λ _. true) blank 0 rules.list aux'
              ≡ some (hi_set_node blank aux', childs))
            × Answers childs rules.list flow (hi_search (hi_set_node blank aux') 0 flow)))
hi_search-hi_get_rule_hist_example =
    hi_search-hi_get_rule_hist fixed sorted_heap sorted_heap-IsLawful (λ _. true) (λ _. refl) rules
      0 (omega arith) (omega arith) (omega arith) (omega arith) blank_aux 0 blank flow refl
      (omega arith)
