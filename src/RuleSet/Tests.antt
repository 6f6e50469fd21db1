-- ===== src/RuleSet/Tests.antt =====
-- Runs of the rule sets, and the theorem on the linear search at an input.
use choose_cut.Base.{ℕ, ◌≡◌, refl, false, none, List, [], ◌∷◌}
use choose_cut.Rule.{Rule, Flow, matches}
use choose_cut.RuleSet.{lsearch, append_rules, rule_set_init}
use choose_cut.RuleSet.Laws.{IsFirstMatch, lsearch-IsFirstMatch}

abbrev cube : ℕ → ℕ → ℕ → Rule
cube p low high = record { pri = p; range = λ i. record { low = low; high = high } }

abbrev seven : Flow
seven = record { key = λ i. 7 }

abbrev two : List Rule
two = cube 4 0 5 ∷ cube 9 6 8 ∷ []

lsearch_run : lsearch two seven ≡ 9
unfolding lsearch matches
lsearch_run = refl

append_rules_full : append_rules (record { cap = 2; list = two }) (cube 1 0 1) ≡ none
unfolding append_rules
append_rules_full = refl

rule_set_init_refused : rule_set_init (λ n. false) 3 ≡ none
unfolding rule_set_init
rule_set_init_refused = refl

lsearch-IsFirstMatch_example : IsFirstMatch two seven 9
unfolding lsearch matches
lsearch-IsFirstMatch_example = lsearch-IsFirstMatch two seven
