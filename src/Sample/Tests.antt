-- ===== src/Sample/Tests.antt =====
-- Runs of the samples, and their theorems at an input.
use choose_cut.Base.{List, ℕ, ◌+◌, ◌*◌, ◌≤◌, ◌≡◌, refl, subst, arith, inl, inr, some, [], All, In}
use choose_cut.Rule.{Rule, Flow}
use choose_cut.RuleSet.{RuleSet}
use choose_cut.MbNode.{Tables}
use choose_cut.Split.Expect.Sides.{IsBox}
use choose_cut.Tree.Example.{rules, tree, tree-Cuts}
use choose_cut.Tree.Walk.{Cuts}
use choose_cut.Sample.{Line, sample_key, sample_rules, sample_testing}
use choose_cut.Sample.Matches.{
  IsSample, AreSamples, NoError, sample_rules-AreSamples, sample_testing-Cuts,
}

-- The answers of `rand`.
abbrev drawn : ℕ → ℕ
drawn n = n * 7 + 3

abbrev set : RuleSet
set = record { cap = 2; list = rules }

abbrev no_tables : Tables
no_tables = record { fct = []; pos2cidr = [] }

sample_key_run : sample_key 100 (record { low = 8; high = 13 }) ≡ 12
sample_key_run = refl

boxes : All IsBox rules
boxes = (λ j lt. omega arith, (λ j lt. omega arith, tt))

sample_rules-AreSamples_example : AreSamples rules 3 (sample_rules drawn 0 rules 3)
sample_rules-AreSamples_example = sample_rules-AreSamples drawn 0 rules 3 boxes

high_of : (r : Rule) → In r rules → (r.range 0).high ≤ 23
high_of r (inl e) = subst (λ (r : Rule). (r.range 0).high ≤ 23) e (omega arith)
high_of r (inr (inl e)) = subst (λ (r : Rule). (r.range 0).high ≤ 23) e (omega arith)
high_of r (inr (inr e)) = absurd e

fitting_tree : (f : Flow) → IsSample rules f → Cuts f tree rules
fitting_tree f (r, member, (word, covers)) =
    let inside = covers 0 (omega arith) in tree-Cuts f (omega (arith, inside, high_of r member))

sample_testing-Cuts_example :
    (lines : List Line) × (sample_testing drawn no_tables tree set ≡ some lines) × All NoError lines
sample_testing-Cuts_example = sample_testing-Cuts drawn no_tables tree set boxes fitting_tree
