-- ===== src/Redund.antt =====
-- remove_redund of cut-inl.c.
pub mod Search
pub mod Minimal
mod Tests
use choose_cut.Base.{ℕ, ◌-◌, ◌^◌, Option, none, some, List, [], ◌∷◌, ◌++◌, ◌==◌, if◌then◌else◌}
use choose_cut.Rule.{Rule, rule_contained}

-- `UINT32_MAX`, the mark of a rule that goes.
abbrev pub max_pri : ℕ
max_pri = 2 ^ 32 - 1

-- The inner loop: the rule is marked if one of those before it contains it.
pub mark_against : List Rule → Rule → Rule
mark_against [] r = r
mark_against (s ∷ seen) r =
    mark_against seen (if rule_contained s r then record r { pri = max_pri } else r)

-- The outer loop: `seen` are the cells before the one at hand, as they stand.
pub mark : List Rule → List Rule → List Rule
mark seen [] = []
mark seen (r ∷ rs) = mark_against seen r ∷ mark (seen ++ (mark_against seen r ∷ [])) rs

-- The second loop: the rules with no mark move up.
pub keep : List Rule → List Rule
keep [] = []
keep (r ∷ rs) = let rest = keep rs in if r.pri == max_pri then rest else r ∷ rest

-- Both loops start at the second cell, and the count starts at 1. So of an empty set the count
-- becomes 1 although no rule is stored: that is the `none`.
unfoldable pub remove_redund : List Rule → Option (List Rule)
unfolding mark_against mark keep
remove_redund [] = none
remove_redund (r ∷ rs) = some (r ∷ keep (mark (r ∷ []) rs))
