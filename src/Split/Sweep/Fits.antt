-- ===== src/Split/Sweep/Fits.antt =====
-- What split_match_expect_1d returns fits the rules of the node.
use choose_cut.Base.{
  ℕ, ◌+◌, ◌^◌, ◌≤◌, ◌<◌, ◌≡◌, refl, sym, ◌∙◌, ap, subst, arith, ◌⊎◌, inl, inr, Bool, false, none,
  some, List, [], ◌∷◌, All, All-map, map, ltb, add32,
}
use choose_cut.Rule.{dims, Rule}
use choose_cut.Ranges.{Range1d, sort_ranges, unique_ranges}
use choose_cut.Ranges.Sort.{
  weight_where, weight_where-sort_ranges, sort_ranges-IsSorted, sort_ranges-All, IsSorted,
}
use choose_cut.Ranges.Unique.{WeighsOne, IsRising, unique_ranges-Merged}
use choose_cut.Heap.{HeapOps, IsLawful}
use choose_cut.Double.{Doubles}
use choose_cut.RuleSet.{num}
use choose_cut.Split.{Snode, reaches}
use choose_cut.Split.Cut.{Cuts}
use choose_cut.Split.Sweep.{rule_range, split_match_expect_1d, split_match_expect_heuristic, sweep}
use choose_cut.Split.Sweep.Pops.{all}
use choose_cut.Split.Sweep.State.{begun, reaching, IsCutAt}
use choose_cut.Split.Sweep.Whole.{LowsRise, Rising-LowsRise}
use choose_cut.Split.Sweep.Outcome.{ending_behind, Outcome, sweep-Outcome}
use choose_cut.Split.Sweep.Rules.{
  IsRange, before, weight_where-none, weight_where-all, ranges-WeighsOne, All-ranges,
  weight_where-part, left_test, right_test, All-both, low_behind, comes_of,
}

module _ (F : Doubles) (H : HeapOps) (law : IsLawful H) (n : Snode) (dim : ℕ) (in_dims : dim < dims)
    (word : num n.rule_set < 2 ^ 32) (fit : All (IsRange dim) n.rule_set.list) where
  abbrev rules : List Rule
  rules = n.rule_set.list

  abbrev sorted : List Range1d
  sorted = sort_ranges (map (rule_range dim) rules)

  -- Ranges that weigh, for every test, what those of the rules weigh.
  abbrev Weighs : List Range1d → Type 0
  Weighs out = (p : ℕ → ℕ → Bool) → weight_where p out ≡ weight_where p (map (rule_range dim) rules)

  abbrev Fitting : F.Double → Range1d → Range1d → Type 0
  Fitting me r0 r1 =
      (me ≡ F.from_int (num n.rule_set))
      ⊎ (Cuts dim r0 r1 rules × (me ≡ split_match_expect_heuristic F r0.weight r1.weight))

  abbrev Found : Type 0
  Found =
      (me : F.Double) × (r0 : Range1d) × (r1 : Range1d) × (split_match_expect_1d F H n dim
        ≡ some (me, record n { r0 = r0; r1 = r1 }))
      × Fitting me r0 r1

  module _ (first : Range1d) (rs : List Range1d) (weighs : Weighs (first ∷ rs))
      (rise : LowsRise (first ∷ rs)) (total : weight_where all (first ∷ rs) ≡ num n.rule_set)
      (o : Outcome F H law n first rs word total) where
    all_from : All (λ r. ltb (r.range dim).low first.low ≡ false) rules
    all_from =
        weight_where-none dim (before first.low) rules (
          sym (weighs (before first.low)) ∙ low_behind first.low (first ∷ rs) (omega arith, rise.0))

    all_to : All (λ r. ltb o.end.r1_high (r.range dim).high ≡ false) rules
    all_to =
        weight_where-none dim (ending_behind o.end.r1_high) rules
          (sym (weighs (ending_behind o.end.r1_high)) ∙ o.to_high)

    outcome-Cuts :
        IsCutAt F (first ∷ rs) (num n.rule_set) word total o.end.best
        → Cuts dim
            (record { low = first.low; high = o.end.best.split; weight = o.end.best.weight0 })
            (record {
              low = add32 o.end.best.split 1;
              high = o.end.r1_high;
              weight = o.end.best.weight1;
            })
            rules
    outcome-Cuts (w0, w1, small, me) =
        let b = o.end.best in
        let next : add32 b.split 1 ≡ b.split + 1 = omega arith in
        let r0 : Range1d = record { low = first.low; high = b.split; weight = b.weight0 } in
        let r1 : Range1d = record { low = b.split + 1; high = o.end.r1_high; weight = b.weight1 } in
        rw next (record {
          in_dims = in_dims;
          adjacent = refl;
          from_low = All-map rules (λ r le. ground arith) all_from;
          to_high = All-map rules (λ r le. ground arith) all_to;
          weight0 =
              w0
              ∙ weighs (begun b.split)
              ∙ weight_where-part dim (begun b.split) r0 rules (
                  All-both (IsRange dim) (λ r. ltb (r.range dim).low first.low ≡ false)
                    (λ r.
                      reaches (r.range dim) r0 ≡ begun b.split (r.range dim).low (r.range dim).high)
                    rules
                    (λ r f from.
                      left_test first.low o.end.r1_high b.split b.weight0 (r.range dim).low
                        (r.range dim).high f.0 from)
                    fit all_from);
          weight1 =
              w1
              ∙ weighs (reaching b.split)
              ∙ weight_where-part dim (reaching b.split) r1 rules (
                  All-both (IsRange dim) (λ r. ltb o.end.r1_high (r.range dim).high ≡ false)
                    (λ r.
                      reaches (r.range dim) r1
                      ≡ reaching b.split (r.range dim).low (r.range dim).high)
                    rules
                    (λ r f to.
                      right_test b.split o.end.r1_high b.weight1 (r.range dim).low
                        (r.range dim).high f.0 to)
                    fit all_to);
        })

  outcome-Fitting :
      (first : Range1d) (rs : List Range1d)
      → Weighs (first ∷ rs)
      → LowsRise (first ∷ rs)
      → (total : weight_where all (first ∷ rs) ≡ num n.rule_set)
      → (o : Outcome F H law n first rs word total)
      → Fitting o.end.best.min_me
          (record { low = first.low; high = o.end.best.split; weight = o.end.best.weight0 })
          (record {
            low = add32 o.end.best.split 1;
            high = o.end.r1_high;
            weight = o.end.best.weight1;
          })
  outcome-Fitting first rs weighs rise total o = elim o.good [
    | inl same ↦ inl same
    | inr cut ↦ inr (outcome-Cuts first rs weighs rise total o cut, cut.3)
  ]

  unmerged :
      unique_ranges sorted ≡ none
      → split_match_expect_1d F H n dim ≡ some (F.from_int (num n.rule_set), n)
  unfolding split_match_expect_1d
  unmerged e = rw (e, split_match_expect_1d) refl

  merged_empty :
      unique_ranges sorted ≡ some []
      → split_match_expect_1d F H n dim ≡ some (F.from_int (num n.rule_set), n)
  unfolding split_match_expect_1d
  merged_empty e = rw (e, split_match_expect_1d) refl

  merged_one :
      (only : Range1d)
      → unique_ranges sorted ≡ some (only ∷ [])
      → split_match_expect_1d F H n dim ≡ some (F.from_int (num n.rule_set), n)
  unfolding split_match_expect_1d
  merged_one only e = rw (e, split_match_expect_1d) refl

  merged_more :
      (first second : Range1d) (more : List Range1d)
      → unique_ranges sorted ≡ some (first ∷ second ∷ more)
      → split_match_expect_1d F H n dim ≡ sweep F H n first (second ∷ more)
  unfolding split_match_expect_1d
  merged_more first second more e = rw (e, split_match_expect_1d) refl

  unchanged : split_match_expect_1d F H n dim ≡ some (F.from_int (num n.rule_set), n) → Found
  unchanged e = (F.from_int (num n.rule_set), n.r0, n.r1, e, inl refl)

  swept :
      (out : List Range1d)
      → unique_ranges sorted ≡ some out
      → IsRising out
      → Weighs out
      → All (λ r. (r.low ≤ r.high) × (r.high < 2 ^ 32)) out
      → Found
  swept [] run rising weighs bounds = unchanged (merged_empty run)
  swept (only ∷ []) run rising weighs bounds = unchanged (merged_one only run)
  swept (first ∷ second ∷ more) run rising weighs bounds =
      let rs = second ∷ more in
      let rise = Rising-LowsRise first rs rising in
      let total = weighs all ∙ weight_where-all dim rules in
      let o =
        sweep-Outcome F H law n first rs word total bounds.0.0 bounds.0.1
          (comes_of first.low rs rise.0 bounds.1) rise.1 in
      (
        o.end.best.min_me,
        record { low = first.low; high = o.end.best.split; weight = o.end.best.weight0 },
        record {
          low = add32 o.end.best.split 1;
          high = o.end.r1_high;
          weight = o.end.best.weight1;
        },
        merged_more first second more run ∙ o.run,
        outcome-Fitting first rs weighs rise total o,
      )

  found : (rs : List Range1d) → sorted ≡ rs → Found
  unfolding unique_ranges
  found [] e = unchanged (unmerged (rw e refl))
  found (r ∷ rs) e =
      let m =
        unique_ranges-Merged r rs
          (subst IsSorted e (sort_ranges-IsSorted (map (rule_range dim) rules)))
          (subst (All WeighsOne) e (
            sort_ranges-All WeighsOne (map (rule_range dim) rules) (ranges-WeighsOne dim rules))) in
      swept m.out (ap unique_ranges e ∙ m.run) m.rising
        (λ p.
          m.weights p
          ∙ ap (weight_where p) (sym e)
          ∙ weight_where-sort_ranges p (map (rule_range dim) rules))
        (m.bounds (λ l h. (l ≤ h) × (h < 2 ^ 32))
          (subst (All (λ r. (r.low ≤ r.high) × (r.high < 2 ^ 32))) e (
            sort_ranges-All (λ r. (r.low ≤ r.high) × (r.high < 2 ^ 32)) (map (rule_range dim) rules)
              (All-ranges dim (λ l h. (l ≤ h) × (h < 2 ^ 32)) rules fit))))

  -- With a heap that keeps its promises and fewer than 2 ^ 32 rules, whose ranges in one of the five
  -- dimensions have low <= high < 2 ^ 32, split_match_expect_1d in that dimension comes to an end and
  -- passes its assertion. It changes nothing of the node but the two ranges, and either returns the number
  -- of rules, or the ranges fit the rules: they lie side by side and around the ranges of all of them,
  -- weigh as many rules as reach into them, and what it returns is the expectation of those two weights.
  pub split_match_expect_1d-Cuts :
      (me : F.Double) × (r0 : Range1d) × (r1 : Range1d) × (split_match_expect_1d F H n dim
        ≡ some (me, record n { r0 = r0; r1 = r1 }))
      × ((me ≡ F.from_int (num n.rule_set))
          ⊎ (Cuts dim r0 r1 n.rule_set.list
              × (me ≡ split_match_expect_heuristic F r0.weight r1.weight)))
  split_match_expect_1d-Cuts = found sorted refl
