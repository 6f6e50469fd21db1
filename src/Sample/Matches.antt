-- ===== src/Sample/Matches.antt =====
-- The flows that are drawn match their rules, and on a tree of cuts the test finds no error.
use native.Mathlib.Nat.{mod-lt}
use choose_cut.Base.{
  ℕ, zero, suc, ◌+◌, ◌-◌, ◌*◌, ◌%◌, ◌^◌, ◌≤◌, ◌<◌, ◌≡◌, refl, arith, inl, inr, true, some, List, [],
  ◌∷◌, ◌++◌, u32, Bool-cases, All, All-map, All-append, In, length, ◌==◌, ==_iff, add64, sub64,
}
use choose_cut.Rule.{dims, Range, Rule, Flow}
use choose_cut.RuleSet.{RuleSet, num, lsearch}
use choose_cut.RuleSet.Laws.{Covers}
use choose_cut.MbNode.{Tables}
use choose_cut.Split.Expect.Sides.{IsBox}
use choose_cut.Tree.{Tree, search}
use choose_cut.Tree.Walk.{Cuts, search-Cuts}
use choose_cut.Sample.{
  Line, hello, error, take, sample_key, sample_rule, sample_rules, test_flows, sample_testing,
}

-- A flow whose keys are words and lie, each, between the bounds of the rule's range.
abbrev pub IsSampleOf : Rule → Flow → Type 0
IsSampleOf r f = ((d : ℕ) → f.key d < 2 ^ 32) × Covers r f

abbrev pub IsSample : List Rule → Flow → Type 0
IsSample rules f = (r : Rule) × In r rules × IsSampleOf r f

-- As many flows of the first rule as are asked for, then as many of the second, and so on.
abbrev pub AreSamples : List Rule → ℕ → List Flow → Type 0
AreSamples [] samples_cnt flows = flows ≡ []
AreSamples (r ∷ rules) samples_cnt flows =
    (own : List Flow) × (others : List Flow) × (flows ≡ own ++ others)
    × (length own ≡ samples_cnt)
    × All (IsSampleOf r) own
    × AreSamples rules samples_cnt others

AreSamples-All :
    (rules : List Rule) (samples_cnt : ℕ) (flows : List Flow)
    → AreSamples rules samples_cnt flows
    → All (IsSample rules) flows
AreSamples-All [] samples_cnt flows e = rw e tt
AreSamples-All (r ∷ rules) samples_cnt flows (own, others, e, count, all, rest) = rw e (
    All-append (IsSample (r ∷ rules)) own others (All-map own (λ f s. (r, inl refl, s)) all)
      (All-map others (λ f s. (s.0, inr s.1, s.2)) (AreSamples-All rules samples_cnt others rest)))

All-take : (P : Flow → Type 0) (n : ℕ) (flows : List Flow) → All P flows → All P (take n flows)
unfolding take
All-take P zero flows all = tt
All-take P (suc n) [] all = tt
All-take P (suc n) (f ∷ flows) all = (all.0, All-take P n flows all.1)

-- A line that is not an error.
abbrev pub NoError : Line → Type 0
NoError hello = Unit
NoError (error pri lpri rule i) = ⊥

sample_key-inside :
    (drawn : ℕ) (r : Range)
    → r.low ≤ r.high
    → r.high < 2 ^ 32
    → (r.low ≤ sample_key drawn r) × (sample_key drawn r ≤ r.high)
sample_key-inside drawn r le word =
    let width : add64 (sub64 r.high r.low) 1 ≡ r.high - r.low + 1 = omega arith in
    let lt : drawn % (r.high - r.low + 1) < r.high - r.low + 1 = mod-lt drawn (omega arith) in
    rw width (omega (arith, lt), omega (arith, lt))

sample_key-word : (drawn : ℕ) (r : Range) → sample_key drawn r < 2 ^ 32
sample_key-word drawn r = omega arith

module _ (rand : ℕ → ℕ) where
  sample_rule-IsSampleOf :
      (calls left : ℕ) (r : Rule) → IsBox r → All (IsSampleOf r) (sample_rule rand calls left r)
  unfolding sample_rule
  sample_rule-IsSampleOf calls zero r box = tt
  sample_rule-IsSampleOf calls (suc left) r box = (
    (
      λ d. sample_key-word (rand (calls + d)) (r.range d),
      λ i lt. (let b = box i lt in sample_key-inside (rand (calls + i)) (r.range i) b.0 b.1),
    ),
    sample_rule-IsSampleOf (calls + dims) left r box,
  )

  length-sample_rule : (calls left : ℕ) (r : Rule) → length (sample_rule rand calls left r) ≡ left
  unfolding sample_rule
  length-sample_rule calls zero r = refl
  length-sample_rule calls (suc left) r = omega (arith, length-sample_rule (calls + dims) left r)

  -- Whatever rand answers, if each rule has low <= high < 2 ^ 32 in all five dimensions, sample_rules gives as
  -- many flows as asked for of the first rule, then as many of the second, and so on to the last. Each has keys
  -- below 2 ^ 32, and in all five dimensions its key lies between the bounds of the range of its rule.
  pub sample_rules-AreSamples :
      (calls : ℕ) (rules : List Rule) (samples_cnt : ℕ)
      → All IsBox rules
      → AreSamples rules samples_cnt (sample_rules rand calls rules samples_cnt)
  unfolding sample_rules
  sample_rules-AreSamples calls [] samples_cnt boxes = refl
  sample_rules-AreSamples calls (r ∷ rules) samples_cnt boxes = (
    sample_rule rand calls samples_cnt r,
    sample_rules rand (calls + samples_cnt * dims) rules samples_cnt,
    refl,
    length-sample_rule calls samples_cnt r,
    sample_rule-IsSampleOf calls samples_cnt r boxes.0,
    sample_rules-AreSamples (calls + samples_cnt * dims) rules samples_cnt boxes.1,
  )

  test_flows-agree :
      (t : Tables) (root : Tree) (rules : List Rule) (i : ℕ) (flows : List Flow)
      → All (λ f. search t root f ≡ some (lsearch rules f)) flows
      → (lines : List Line) × (test_flows rand t root rules i flows ≡ some lines)
        × All NoError lines
  unfolding test_flows
  test_flows-agree t root rules i [] same = ([], refl, tt)
  test_flows-agree t root rules i (f ∷ flows) same =
      let (lines, run, clean) = test_flows-agree t root rules (i + 1) flows same.1 in
      let agrees : (lsearch rules f == lsearch rules f) ≡ true =
        (==_iff (lsearch rules f) (lsearch rules f)).1 refl in
      elim (Bool-cases (i == 47028)) [
        | inl greets ↦ (hello ∷ lines, rw (same.0, run, agrees, greets) refl, (tt, clean))
        | inr other ↦ (lines, rw (same.0, run, agrees, other) refl, clean)
      ]

  -- Whatever rand answers: let each rule have low <= high < 2 ^ 32 in all five dimensions, and let the tree, for
  -- every flow with keys below 2 ^ 32 that lie in the ranges of a rule, be cut from the rules as Cuts says (its
  -- inner nodes on the way are split and hi nodes, no child there is empty, no priority there is the mark of
  -- remove_redund, and no key lies behind segment 63 of a hi node). Then sample_testing comes to an end, and
  -- none of the lines that it prints is an error.
  pub sample_testing-Cuts :
      (t : Tables) (root : Tree) (rules : RuleSet)
      → All IsBox rules.list
      → ((f : Flow) → IsSample rules.list f → Cuts f root rules.list)
      → (lines : List Line) × (sample_testing rand t root rules ≡ some lines) × All NoError lines
  unfolding sample_testing
  sample_testing-Cuts t root rules boxes cut =
      let flows = sample_rules rand 0 rules.list 100 in
      let drawn =
        AreSamples-All rules.list 100 flows (sample_rules-AreSamples 0 rules.list 100 boxes) in
      let near = take (u32 (num rules * 100)) flows in
      test_flows-agree t root rules.list 0 near (
        All-map near (λ f s. search-Cuts t f root rules.list s.2.0 (cut f s))
          (All-take (IsSample rules.list) (u32 (num rules * 100)) flows drawn))
