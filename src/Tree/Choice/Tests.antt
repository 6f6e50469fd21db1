-- ===== src/Tree/Choice/Tests.antt =====
-- Runs of the choice of a cut, and its theorems at an input.
use choose_cut.Base.{
  ℕ, zero, suc, ◌+◌, ◌-◌, ◌<◌, ◌≡◌, refl, arith, true, false, some, List, [], ◌∷◌, All, ltb,
  if◌then◌else◌, length, get_elem?,
}
use choose_cut.Rule.{dims, Rule}
use choose_cut.Double.Fixed.{fixed, fixed-IsOrdered}
use choose_cut.RuleSet.{RuleSet}
use choose_cut.Tree.Choice.{CutMethod, Least, cut_by, scan_method, cut_node}
use choose_cut.Tree.Choice.Minima.{IsNotLess, IsTotal, Estimates, scan_method-Estimates}
use choose_cut.Tree.Choice.Chosen.{Answered, AreCounts, IsCheapest, IsBest, cut_node-IsBest}

abbrev rule : ℕ → Rule
rule p = record { pri = p; range = λ i. record { low = 0; high = p } }

abbrev numbered : ℕ → List Rule
numbered zero = []
numbered (suc p) = rule p ∷ numbered p

abbrev rules : RuleSet
rules = record { cap = 17; list = numbered 17 }

-- The state counts the calls. The methods are best in dimension 3 and in dimension 0; the second has the
-- fewer children.
abbrev first_method : CutMethod fixed ℕ
first_method = record {
  match_expect = λ set i calls. some (100 - (if ltb 3 i then 0 else i), calls + 1);
  mem_quant = λ calls dim. 4;
  all_fits_bs = λ calls dim. false;
}

abbrev second_method : CutMethod fixed ℕ
second_method = record {
  match_expect = λ set i calls. some (200 + i, calls + 1);
  mem_quant = λ calls dim. 3;
  all_fits_bs = λ calls dim. true;
}

abbrev methods : List (CutMethod fixed ℕ)
methods = first_method ∷ second_method ∷ []

cut_node_run : cut_node fixed true methods rules 0 ≡ some (cut_by 1 0 10)
unfolding cut_node
cut_node_run = refl

cut_node_run_expect : cut_node fixed false methods rules 0 ≡ some (cut_by 0 3 10)
unfolding cut_node
cut_node_run_expect = refl

first-IsTotal : IsTotal fixed fixed-IsOrdered first_method rules
first-IsTotal i calls lt = (100 - (if ltb 3 i then 0 else i), calls + 1, refl)

second-IsTotal : IsTotal fixed fixed-IsOrdered second_method rules
second-IsTotal i calls lt = (200 + i, calls + 1, refl)

scan_method-Estimates_example :
    (least : Least fixed) × (last : ℕ) × (mes : List ℕ) × (scan_method fixed first_method rules 0
      ≡ some (least, last))
    × Estimates fixed fixed-IsOrdered first_method rules 0 0 mes last
    × (length mes ≡ dims)
    × (get_elem? mes least.dim ≡ some least.min)
    × (least.dim < dims)
    × All (λ me. IsNotLess fixed fixed-IsOrdered me least.min) mes
scan_method-Estimates_example =
    scan_method-Estimates fixed fixed-IsOrdered first_method rules first-IsTotal 0

cut_node-IsBest_example :
    (ls : List (Least fixed)) × (last : ℕ) × (counts : List ℕ) × (by_expect : ℕ) × (t : ℕ)
    × (l : Least fixed) × Answered fixed fixed-IsOrdered rules 0 methods ls last
    × AreCounts fixed fixed-IsOrdered last methods ls counts
    × IsCheapest fixed fixed-IsOrdered ls 170000 by_expect
    × IsBest counts by_expect t
    × (t < 2)
    × (get_elem? ls t ≡ some l)
    × (cut_node fixed true methods rules 0 ≡ some (cut_by t l.dim last))
cut_node-IsBest_example =
    cut_node-IsBest fixed fixed-IsOrdered methods rules 0 (omega arith)
      (first-IsTotal, (second-IsTotal, tt)) (omega arith)
