-- ===== src/Rule/Tests.antt =====
-- Runs of the tests on rules, and their theorems at inputs.
use choose_cut.Base.{ℕ, ◌≡◌, ◌<◌, ◌↔◌, refl, arith, true, false}
use choose_cut.Base.Int.{negsuc}
use choose_cut.Rule.{Rule, Flow, rule_contained, rule_pri_compare, range_overlap, matches}
use choose_cut.Rule.Matching.{
  Around, Inside, rule_contained_iff, rule_contained-matches, matches_iff, range_overlap_iff,
}

abbrev cube : ℕ → ℕ → ℕ → Rule
cube p low high = record { pri = p; range = λ i. record { low = low; high = high } }

abbrev seven : Flow
seven = record { key = λ i. 7 }

contains : rule_contained (cube 0 0 10) (cube 1 5 8) ≡ true
unfolding rule_contained
contains = refl

not_contains : rule_contained (cube 0 0 10) (cube 1 5 11) ≡ false
unfolding rule_contained
not_contains = refl

rule_pri_compare_run : rule_pri_compare (cube 0 0 10) (cube 1 5 8) ≡ negsuc 0
unfolding rule_pri_compare
rule_pri_compare_run = refl

range_overlap_run :
    range_overlap (record { low = 0; high = 4 }) (record { low = 5; high = 6 }) ≡ false
unfolding range_overlap
range_overlap_run = refl

rule_contained_iff_example :
    (rule_contained (cube 0 0 10) (cube 1 5 8) ≡ true)
    ↔ ((i : ℕ) → i < 5 → Around (record { low = 0; high = 10 }) (record { low = 5; high = 8 }))
rule_contained_iff_example = rule_contained_iff (cube 0 0 10) (cube 1 5 8)

matches_iff_example :
    (matches (cube 0 0 10) seven ≡ true)
    ↔ ((i : ℕ) → i < 5 → Inside 7 (record { low = 0; high = 10 }))
matches_iff_example = matches_iff (cube 0 0 10) seven

seven-matches : matches (cube 1 5 8) seven ≡ true
unfolding matches
seven-matches = refl

rule_contained-matches_example : matches (cube 0 0 10) seven ≡ true
rule_contained-matches_example =
    rule_contained-matches (cube 0 0 10) (cube 1 5 8) seven contains seven-matches

range_overlap_iff_example :
    (range_overlap (record { low = 0; high = 4 }) (record { low = 3; high = 6 }) ≡ true)
    ↔ ((x : ℕ) × Inside x (record { low = 0; high = 4 }) × Inside x (record { low = 3; high = 6 }))
range_overlap_iff_example =
    range_overlap_iff (record { low = 0; high = 4 }) (record { low = 3; high = 6 }) (omega arith)
      (omega arith)
