-- ===== src/Split/Sweep/Rules.antt =====
-- The ranges of the rules in a dimension, and what their weights say of the rules.
use choose_cut.Base.{
  ℕ, ◌+◌, ◌^◌, ◌≤◌, ◌<◌, ◌≡◌, refl, ◌∙◌, arith, inl, inr, Bool, false, List, [], ◌∷◌, All, All-map,
  map, ltb, length, Bool-cases,
}
use choose_cut.Rule.{Rule}
use choose_cut.Ranges.{Range1d}
use choose_cut.Ranges.Sort.{weight_where}
use choose_cut.Ranges.Unique.{WeighsOne}
use choose_cut.Split.{reaches}
use choose_cut.Split.Parts.{part}
use choose_cut.Split.Sweep.{rule_range}
use choose_cut.Split.Sweep.Pops.{all}
use choose_cut.Split.Sweep.State.{begun, reaching, weight_where-false}
use choose_cut.Split.Sweep.Ends.{Comes}

-- The range of a rule in a dimension: no upper bound below the lower, and both in a word.
abbrev pub IsRange : ℕ → Rule → Type 0
IsRange dim r = ((r.range dim).low ≤ (r.range dim).high) × ((r.range dim).high < 2 ^ 32)

-- The ranges that begin before a number.
abbrev pub before : ℕ → ℕ → ℕ → Bool
before b low high = ltb low b

module _ (dim : ℕ) where
  abbrev pub ranges_of : List Rule → List Range1d
  ranges_of rules = map (rule_range dim) rules

  pub weight_where-none :
      (p : ℕ → ℕ → Bool) (rules : List Rule)
      → weight_where p (ranges_of rules) ≡ 0
      → All (λ r. p (r.range dim).low (r.range dim).high ≡ false) rules
  weight_where-none p [] e = tt
  weight_where-none p (r ∷ rules) e = elim (Bool-cases (p (r.range dim).low (r.range dim).high)) [
    | inl yes_p ↦ absurd (let e' = rw yes_p at e in omega (arith, e'))
    | inr no_p ↦ (no_p, weight_where-none p rules (let e' = rw no_p at e in omega (arith, e')))
  ]

  pub weight_where-all : (rules : List Rule) → weight_where all (ranges_of rules) ≡ length rules
  weight_where-all [] = refl
  weight_where-all (r ∷ rules) = omega (arith, weight_where-all rules)

  pub ranges-WeighsOne : (rules : List Rule) → All WeighsOne (ranges_of rules)
  ranges-WeighsOne [] = tt
  ranges-WeighsOne (r ∷ rules) = (refl, ranges-WeighsOne rules)

  pub All-ranges :
      (P : ℕ → ℕ → Type 0) (rules : List Rule)
      → All (λ r. P (r.range dim).low (r.range dim).high) rules
      → All (λ r. P r.low r.high) (ranges_of rules)
  All-ranges P [] h = tt
  All-ranges P (r ∷ rules) h = (h.0, All-ranges P rules h.1)

  -- The weight of the ranges that a test takes is the number of rules in a half.
  pub weight_where-part :
      (p : ℕ → ℕ → Bool) (half : Range1d) (rules : List Rule)
      → All (λ r. reaches (r.range dim) half ≡ p (r.range dim).low (r.range dim).high) rules
      → weight_where p (ranges_of rules) ≡ length (part dim half rules)
  unfolding part
  weight_where-part p half [] h = refl
  weight_where-part p half (r ∷ rules) h =
      elim (Bool-cases (p (r.range dim).low (r.range dim).high)) [
        | inl yes_p ↦
            (let here = h.0 ∙ yes_p in
              rw (yes_p, here) (omega (arith, weight_where-part p half rules h.1)))
        | inr no_p ↦
            (let here = h.0 ∙ no_p in
              rw (no_p, here) (omega (arith, weight_where-part p half rules h.1)))
      ]

pub left_test :
    (low high split w l h : ℕ)
    → l ≤ h
    → ltb l low ≡ false
    → reaches (record { low = l; high = h }) (record { low = low; high = split; weight = w })
      ≡ begun split l h
left_test low high split w l h le from = ground arith

pub right_test :
    (split high w l h : ℕ)
    → l ≤ h
    → ltb high h ≡ false
    → reaches (record { low = l; high = h }) (record { low = split + 1; high = high; weight = w })
      ≡ reaching split l h
right_test split high w l h le to = ground arith

pub All-both :
    (P Q R : Rule → Type 0) (rules : List Rule)
    → ((r : Rule) → P r → Q r → R r)
    → All P rules
    → All Q rules
    → All R rules
All-both P Q R [] f p q = tt
All-both P Q R (r ∷ rules) f p q = (f r p.0 q.0, All-both P Q R rules f p.1 q.1)

pub low_behind :
    (b : ℕ) (rs : List Range1d) → All (λ r. b ≤ r.low) rs → weight_where (before b) rs ≡ 0
low_behind b rs h = weight_where-false (before b) rs (All-map rs (λ r le. ground arith) h)

pub comes_of :
    (s : ℕ) (rs : List Range1d)
    → All (λ r. s ≤ r.low) rs
    → All (λ r. (r.low ≤ r.high) × (r.high < 2 ^ 32)) rs
    → All (Comes s) rs
comes_of s [] later fit = tt
comes_of s (r ∷ rs) later fit = ((later.0, fit.0.0, fit.0.1), comes_of s rs later.1 fit.1)
