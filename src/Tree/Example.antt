-- ===== src/Tree/Example.antt =====
-- A tree that is cut from two rules.
use mathlib.Core.Option
use choose_cut.Base.{
  ℕ, zero, suc, ◌≡◌, ◌≤◌, ◌<◌, ◌^◌, refl, subst, arith, true, some, List, [], ◌∷◌, get_elem?,
  length,
}
use choose_cut.Rule.{Rule, Flow, rule_contained}
use choose_cut.RuleSet.{RuleSet, rule_set_init, append_rules}
use choose_cut.Redund.{remove_redund}
use choose_cut.Hi
use choose_cut.Hi.{Seg, HiAux, HiNode, hi_search, hi_set_node}
use choose_cut.Hi.Bounds.{IsPlaced}
use choose_cut.Hi.Cut.{IsHiCut, child_set, seg_part}
use choose_cut.Tree.{Tree, leaf, hi_node}
use choose_cut.Tree.Walk.{Cuts, Kept, at_leaf, by_hi}

abbrev pub cube : ℕ → ℕ → ℕ → Rule
cube p low high = record { pri = p; range = λ i. record { low = low; high = high } }

abbrev pub rules : List Rule
rules = cube 0 8 13 ∷ cube 1 14 23 ∷ []

abbrev pub first_seg : Seg
first_seg = record { first = 0; last = 0; count = 1 }

abbrev pub second_seg : Seg
second_seg = record { first = 1; last = 3; count = 2 }

abbrev pub two_segs : HiAux
two_segs = record { start = 8; shift = 2; segs = first_seg ∷ second_seg ∷ [] }

abbrev pub blank : HiNode
blank = record { start = 0; shift = 0; bitmap = 0 }

abbrev pub children : List RuleSet
children = child_set two_segs 0 rules first_seg ∷ child_set two_segs 0 rules second_seg ∷ []

two_segs-IsHiCut : IsHiCut two_segs 0 rules 3
unfolding seg_part
two_segs-IsHiCut = record { tiled = ground arith; fits = ground arith; counts = at_each }
  where
    Counted : Seg → Type 0
    Counted g = g.count ≡ length (seg_part two_segs 0 g rules)

    at_each :
        (j : ℕ) (g : Seg)
        → get_elem? two_segs.segs j ≡ some g
        → g.count ≡ length (seg_part two_segs 0 g rules)
    at_each zero g e = subst Counted (Option.some_inj.0 e) refl
    at_each (suc zero) g e = subst Counted (Option.some_inj.0 e) refl
    at_each (suc (suc j)) g e = cc

placed :
    (low high : ℕ)
    → 8 ≤ low
    → low ≤ high
    → high < 2 ^ 32
    → IsPlaced two_segs 3 (record { low = low; high = high })
placed low high start le word = record {
  start_small = omega arith;
  shift_small = omega arith;
  top_small = omega arith;
  from_start = start;
  ordered = le;
  word = word;
}

-- Neither child has a rule to lose.
abbrev pub out : ℕ → List Rule
out zero = seg_part two_segs 0 first_seg rules
out (suc j) = seg_part two_segs 0 second_seg rules

cut_run : Hi.hi_cut (λ _. true) blank 0 rules two_segs ≡ some (hi_set_node blank two_segs, children)
unfolding Hi.hi_cut Hi.init_childs Hi.push_rules Hi.counts_hold Hi.hi_push_rule Hi.push_between
    Hi.find_ends seg_part rule_set_init append_rules
cut_run = refl

kept : (j : ℕ) (c : RuleSet) → get_elem? children j ≡ some c → Kept c.list (out j)
unfolding seg_part remove_redund rule_contained
kept zero c e =
    subst (λ c. Kept c.list (out 0)) (Option.some_inj.0 e) ((λ e. absurd (omega arith), tt), refl)
kept (suc zero) c e =
    subst (λ c. Kept c.list (out 1)) (Option.some_inj.0 e)
      ((λ e. absurd (omega arith), (λ e. absurd (omega arith), tt)), refl)
kept (suc (suc j)) c e = cc

-- The tree: a node with two leaves.
abbrev pub tree : Tree
tree = hi_node (hi_set_node blank two_segs) 0 (λ j. leaf (out j))

pub tree-Cuts : (f : Flow) → f.key 0 ≤ 23 → Cuts f tree rules
tree-Cuts f near =
    by_hi blank (hi_set_node blank two_segs) 0 rules two_segs 3 children (λ j. leaf (out j)) out
      refl (omega arith) (omega arith) two_segs-IsHiCut
      (
        placed 8 13 (omega arith) (omega arith) (omega arith),
        (placed 14 23 (omega arith) (omega arith) (omega arith), tt),
      )
      (λ from. omega (arith, near)) cut_run kept (λ j c e. at_leaf (out j))
