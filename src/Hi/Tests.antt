-- ===== src/Hi/Tests.antt =====
-- Runs of the hi cut, and its theorems at an input.
use mathlib.Core.Option
use choose_cut.Base.{
  ℕ, zero, suc, ◌+◌, ◌≡◌, ◌≤◌, ◌<◌, ◌^◌, refl, subst, arith, true, false, some, List, [], ◌∷◌, All,
  get_elem?, length, popcount,
}
use choose_cut.Rule.{Rule, Flow}
use choose_cut.RuleSet.{RuleSet, num}
use choose_cut.Hi.{
  Seg, HiAux, HiNode, hi_set_node, hi_cut, hi_next, hi_search, hi_count_childs, hi_mem_quant,
  hi_fits_bs, child, null, undefined,
}
use choose_cut.Hi.Cut.{IsHiCut, seg_part}
use choose_cut.Hi.Parts.{hi_cut-IsPart}
use choose_cut.Hi.Bounds.{IsPlaced, seg_range}
use choose_cut.RuleSet.Clip.{IsPart}
use choose_cut.Hi.Segments.{place}
use choose_cut.Hi.Search.{Answers, hi_search-hi_cut}
use choose_cut.Hi.Index.{hi_next-place, hi_count_childs-hi_set_node}

abbrev cube : ℕ → ℕ → ℕ → Rule
cube p low high = record { pri = p; range = λ i. record { low = low; high = high } }

-- From 8 on, segments of 4 numbers: rule 0 in the segments 0 to 1, rule 1 in 1 to 3.
abbrev rules : List Rule
rules = cube 0 8 13 ∷ cube 1 14 23 ∷ []

-- Children for the segment 0, for 1, and for 2 and 3.
abbrev three_segs : HiAux
three_segs = record {
  start = 8;
  shift = 2;
  segs =
      record { first = 0; last = 0; count = 1 }
      ∷ record { first = 1; last = 1; count = 2 }
      ∷ record { first = 2; last = 3; count = 1 }
      ∷ [];
}

abbrev blank : HiNode
blank = record { start = 0; shift = 0; bitmap = 0 }

abbrev flow : ℕ → Flow
flow k = record { key = λ i. k }

three_segs-IsHiCut : IsHiCut three_segs 0 rules 3
unfolding seg_part
three_segs-IsHiCut = record { tiled = ground arith; fits = ground arith; counts = at_each }
  where
    Counted : Seg → Type 0
    Counted g = g.count ≡ length (seg_part three_segs 0 g rules)

    at_each :
        (j : ℕ) (g : Seg)
        → get_elem? three_segs.segs j ≡ some g
        → g.count ≡ length (seg_part three_segs 0 g rules)
    at_each zero g e = subst Counted (Option.some_inj.0 e) refl
    at_each (suc zero) g e = subst Counted (Option.some_inj.0 e) refl
    at_each (suc (suc zero)) g e = subst Counted (Option.some_inj.0 e) refl
    at_each (suc (suc (suc j))) g e = cc

placed :
    (low high : ℕ)
    → 8 ≤ low
    → low ≤ high
    → high < 2 ^ 32
    → IsPlaced three_segs 3 (record { low = low; high = high })
placed low high start le word = record {
  start_small = omega arith;
  shift_small = omega arith;
  top_small = omega arith;
  from_start = start;
  ordered = le;
  word = word;
}

rules-IsPlaced : All (λ r. IsPlaced three_segs 3 (r.range 0)) rules
rules-IsPlaced = (
  placed 8 13 (omega arith) (omega arith) (omega arith),
  (placed 14 23 (omega arith) (omega arith) (omega arith), tt),
)

hi_cut-IsPart_example :
    (childs : List RuleSet) × (hi_cut (λ _. true) blank 0 rules three_segs
      ≡ some (hi_set_node blank three_segs, childs))
    × ((j : ℕ) (g : Seg)
        → get_elem? three_segs.segs j ≡ some g
        → (c : RuleSet) × (get_elem? childs j ≡ some c)
          × IsPart 0 (seg_range three_segs g) rules c.list
          × (num c ≡ g.count)
          × (c.cap ≡ g.count))
hi_cut-IsPart_example =
    hi_cut-IsPart (λ _. true) (λ _. refl) blank 0 rules three_segs 3 three_segs-IsHiCut
      rules-IsPlaced

hi_search-hi_cut_example :
    (childs : List RuleSet) × (hi_cut (λ _. true) blank 0 rules three_segs
      ≡ some (hi_set_node blank three_segs, childs))
    × Answers childs rules (flow 15) (hi_search (hi_set_node blank three_segs) 0 (flow 15))
hi_search-hi_cut_example =
    hi_search-hi_cut (λ _. true) (λ _. refl) blank 0 rules three_segs 3 (flow 15) refl (omega arith)
      (omega arith) three_segs-IsHiCut
      (
        placed 8 13 (omega arith) (omega arith) (omega arith),
        (placed 14 23 (omega arith) (omega arith) (omega arith), tt),
      )
      (omega arith) (λ _. omega arith)

hi_next-place_example : hi_next (hi_set_node blank three_segs) 3 ≡ place three_segs.segs 3
hi_next-place_example =
    hi_next-place blank three_segs 3 3 refl (omega arith) (omega arith) (omega arith)

hi_count_childs-hi_set_node_example :
    hi_count_childs false (hi_set_node blank three_segs) + 1 ≡ length three_segs.segs
hi_count_childs-hi_set_node_example =
    hi_count_childs-hi_set_node blank three_segs 3 refl (omega arith) (omega arith)

search_in_last : hi_search (hi_set_node blank three_segs) 0 (flow 19) ≡ child 2
unfolding hi_search hi_set_node hi_next popcount
search_in_last = refl

search_before : hi_search (hi_set_node blank three_segs) 0 (flow 7) ≡ null
unfolding hi_search hi_set_node
search_before = refl

search_far : hi_search (hi_set_node blank three_segs) 0 (flow 264) ≡ undefined
unfolding hi_search hi_set_node
search_far = refl

hi_mem_quant_run : hi_mem_quant three_segs ≡ 3
unfolding hi_mem_quant
hi_mem_quant_run = refl

hi_fits_bs_run : hi_fits_bs (16 ∷ 17 ∷ []) ≡ false
unfolding hi_fits_bs
hi_fits_bs_run = refl
