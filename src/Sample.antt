-- ===== src/Sample.antt =====
-- The samples of main.c: sample_rules, which draws flows from the rules, and sample_testing, which compares
-- the search of the tree with the linear search on them.
pub mod Matches
mod Tests
use choose_cut.Base.{
  ℕ, zero, suc, ◌+◌, ◌*◌, ◌/◌, ◌%◌, Bool, true, false, not, Option, some, none, List, [], ◌∷◌, ◌++◌,
  ◌==◌, if◌then◌else◌, ◌>>=◌, u32, add64, sub64,
}
use choose_cut.Rule.{dims, Range, Rule, Flow}
use choose_cut.RuleSet.{RuleSet, num, lsearch}
use choose_cut.MbNode.{Tables}
use choose_cut.Tree.{Tree, search}

-- The key that is drawn from a range with the answer of `rand`.
abbrev pub sample_key : ℕ → Range → ℕ
sample_key drawn r = u32 (add64 (drawn % add64 (sub64 r.high r.low) 1) r.low)

-- A line that is printed: the one of LOG, or `pri`, `lpri`, the rule and `i` of a flow that the searches
-- disagree on.
pub data Line : Type 0 where
  hello : Line
  error : ℕ → ℕ → ℕ → ℕ → Line

-- The first of the flows.
pub take : ℕ → List Flow → List Flow
take zero flows = []
take (suc n) [] = []
take (suc n) (f ∷ flows) = f ∷ take n flows

-- `rand` gives the answers to its calls, of which `calls` have been made.
module _ (rand : ℕ → ℕ) where
  abbrev pub sample_flow : ℕ → Rule → Flow
  sample_flow calls r = record { key = λ k. sample_key (rand (calls + k)) (r.range k) }

  pub sample_rule : ℕ → ℕ → Rule → List Flow
  sample_rule calls zero r = []
  sample_rule calls (suc left) r = sample_flow calls r ∷ sample_rule (calls + dims) left r

  -- `sample_rules`, with the memory that it asks for.
  unfoldable pub sample_rules : ℕ → List Rule → ℕ → List Flow
  unfolding sample_rule
  sample_rules calls [] samples_cnt = []
  sample_rules calls (r ∷ rules) samples_cnt =
      sample_rule calls samples_cnt r ++ sample_rules (calls + samples_cnt * dims) rules samples_cnt

  -- One flow after the other, from number `i` on, with what is printed. `none` is a search that fails.
  pub test_flows : Tables → Tree → List Rule → ℕ → List Flow → Option (List Line)
  test_flows t root rules i [] = some []
  test_flows t root rules i (f ∷ flows) = do
    pri ← search t root f
    lines ← test_flows t root rules (i + 1) flows
    let lpri = lsearch rules f
    let report = if not (pri == lpri) then error pri lpri (i / 100) i ∷ [] else []
    some ((if i == 47028 then hello ∷ [] else []) ++ (report ++ lines))

  -- The bound of the loop, the number of rules times 100, is an unsigned int and wraps.
  unfoldable pub sample_testing : Tables → Tree → RuleSet → Option (List Line)
  unfolding sample_rules test_flows
  sample_testing t root rules =
      test_flows t root rules.list 0 (take (u32 (num rules * 100)) (sample_rules 0 rules.list 100))
