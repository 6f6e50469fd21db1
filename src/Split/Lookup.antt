-- ===== src/Split/Lookup.antt =====
-- A lookup among the rules that reach into a half.
use choose_cut.Base.{
  ℕ, ◌≤◌, ◌<◌, ◌≡◌, refl, arith, ◌⊎◌, inl, inr, true, false, List, [], ◌∷◌, All, ◌==◌, Bool-cases,
  ==_iff,
}
use choose_cut.Rule.{dims, Range, Rule, Flow, in_range, matches}
use choose_cut.Rule.Matching.{matches_iff, matches-congr}
use choose_cut.Ranges.{Range1d}
use choose_cut.RuleSet.{lsearch}
use choose_cut.RuleSet.Laws.{lsearch-cons}
use choose_cut.Split.{reaches, trim, trim_rule}
use choose_cut.Split.Parts.{part}

-- On either side, the key lies within the half or the range does not go beyond it.
abbrev pub Catches : ℕ → Range1d → Range → Type 0
Catches key half r =
    ((half.low ≤ key) ⊎ (half.low ≤ r.low)) × ((key ≤ half.high) ⊎ (r.high ≤ half.high))

trim-in_range :
    (key : ℕ) (half : Range1d) (r : Range)
    → Catches key half r
    → reaches r half ≡ true
    → in_range key (trim r half) ≡ in_range key r
trim-in_range key half r c e = ground arith

out_of_reach :
    (key : ℕ) (half : Range1d) (r : Range)
    → Catches key half r
    → reaches r half ≡ false
    → in_range key r ≡ false
out_of_reach key half r c e = ground arith

module _ (dim : ℕ) (half : Range1d) (f : Flow) (small : dim < dims) where
  abbrev pub CatchesRule : Rule → Type 0
  CatchesRule rule = Catches (f.key dim) half (rule.range dim)

  matches-trim_rule :
      (rule : Rule)
      → CatchesRule rule
      → reaches (rule.range dim) half ≡ true
      → matches (trim_rule dim half rule) f ≡ matches rule f
  matches-trim_rule rule c e = matches-congr (trim_rule dim half rule) rule f λ i lt.
      elim (Bool-cases (i == dim)) [
        | inl here ↦
            rw here
              (rw ((==_iff i dim).0 here) (trim-in_range (f.key dim) half (rule.range dim) c e))
        | inr other ↦ rw other refl
      ]

  matches_out_of_reach :
      (rule : Rule)
      → CatchesRule rule
      → reaches (rule.range dim) half ≡ false
      → matches rule f ≡ false
  matches_out_of_reach rule c e = elim (Bool-cases (matches rule f)) [
    | inr no_match ↦ no_match
    | inl match ↦
        let inside = (matches_iff rule f).0 match dim small in
        absurd (ground (arith, out_of_reach (f.key dim) half (rule.range dim) c e))
  ]

  pub lsearch-part :
      (rules : List Rule)
      → All CatchesRule rules
      → lsearch (part dim half rules) f ≡ lsearch rules f
  unfolding part
  lsearch-part [] all = refl
  lsearch-part (rule ∷ rules) all = elim (Bool-cases (reaches (rule.range dim) half)) [
    | inl e ↦
        rw (e, part)
          (ground (
            arith,
            lsearch-cons (trim_rule dim half rule) (part dim half rules) f,
            lsearch-cons rule rules f,
            matches-trim_rule rule all.0 e,
            lsearch-part rules all.1,
          ))
    | inr e ↦
        rw (e, part)
          (ground (
            arith,
            lsearch-cons rule rules f,
            matches_out_of_reach rule all.0 e,
            lsearch-part rules all.1,
          ))
  ]
