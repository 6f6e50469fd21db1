-- ===== src/Redund/Tests.antt =====
-- Runs of remove_redund, and its theorems at inputs.
use choose_cut.Base.{ℕ, ◌≡◌, arith, some, List, [], ◌∷◌, All, In}
use choose_cut.Rule.{Rule, Flow}
use choose_cut.RuleSet.{lsearch}
use choose_cut.Redund.{remove_redund}
use choose_cut.Redund.Search.{IsLive, lsearch-remove_redund}
use choose_cut.Redund.Minimal.{NoneContained, remove_redund-NoneContained}

-- The range from `low` to `high` in each dimension.
abbrev cube : ℕ → ℕ → ℕ → Rule
cube p low high = record { pri = p; range = λ i. record { low = low; high = high } }

abbrev five : Flow
five = record { key = λ i. 5 }

abbrev later : List Rule
later = cube 1 2 8 ∷ cube 2 0 20 ∷ cube 3 3 12 ∷ []

later-IsLive : All IsLive (cube 0 0 10 ∷ later)
later-IsLive = omega arith

lsearch-remove_redund_example :
    (out : List Rule) × (remove_redund (cube 0 0 10 ∷ later) ≡ some out)
    × (lsearch out five ≡ lsearch (cube 0 0 10 ∷ later) five)
lsearch-remove_redund_example = lsearch-remove_redund (cube 0 0 10) later five later-IsLive

remove_redund-NoneContained_example :
    (out : List Rule) × (remove_redund (cube 0 0 10 ∷ later) ≡ some out)
    × NoneContained out
    × All (λ s. In s (cube 0 0 10 ∷ later)) out
remove_redund-NoneContained_example = remove_redund-NoneContained (cube 0 0 10) later later-IsLive
