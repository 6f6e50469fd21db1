-- ===== src/RuleSet/Laws.antt =====
-- Laws of the linear search and of adding a rule.
use choose_cut.Base.{
  ℕ, ◌≤◌, ◌<◌, ◌≡◌, refl, ap, ◌⊎◌, inl, inr, true, false, List, [], ◌∷◌, ◌++◌, All, if◌then◌else◌,
  Bool-cases,
}
use choose_cut.Rule.{dims, Rule, Flow, matches}
use choose_cut.Rule.Matching.{matches_iff}
use choose_cut.RuleSet.{not_found, lsearch}

pub lsearch-cons :
    (r : Rule) (rs : List Rule) (f : Flow)
    → lsearch (r ∷ rs) f ≡ (if matches r f then r.pri else lsearch rs f)
unfolding lsearch
lsearch-cons r rs f = refl

-- Each of the five keys of the flow lies between the bounds of the rule's range, both included.
abbrev pub Covers : Rule → Flow → Type 0
Covers r f = (i : ℕ) → i < dims → ((r.range i).low ≤ f.key i) × (f.key i ≤ (r.range i).high)

abbrev pub Misses : Flow → Rule → Type 0
Misses f r = ¬ Covers r f

-- No rule covers the flow, or the priority is the one of a rule that does, and no rule before it
-- does.
abbrev pub IsFirstMatch : List Rule → Flow → ℕ → Type 0
IsFirstMatch rules f p =
    (All (Misses f) rules × (p ≡ not_found))
    ⊎ ((before : List Rule) × (r : Rule) × (behind : List Rule) × (rules ≡ before ++ (r ∷ behind))
        × All (Misses f) before
        × Covers r f
        × (p ≡ r.pri))

matches-Covers : (r : Rule) (f : Flow) → matches r f ≡ true → Covers r f
matches-Covers r f hit i lt = let inside = (matches_iff r f).0 hit i lt in (inside.0, inside.1)

not_matches-Misses : (r : Rule) (f : Flow) → matches r f ≡ false → Misses f r
not_matches-Misses r f miss covers =
    let hit = (matches_iff r f).1 (λ i lt. (let c = covers i lt in (c.0, c.1))) in cc

-- The linear search finds the priority of the first rule whose ranges hold the keys of the flow in
-- all five dimensions, bounds included, or -1 if there is none.
pub lsearch-IsFirstMatch : (rules : List Rule) (f : Flow) → IsFirstMatch rules f (lsearch rules f)
unfolding lsearch
lsearch-IsFirstMatch [] f = inl (tt, refl)
lsearch-IsFirstMatch (r ∷ rules) f = elim (Bool-cases (matches r f)) [
  | inl hit ↦ rw hit (inr ([], r, rules, refl, tt, matches-Covers r f hit, refl))
  | inr miss ↦ rw miss (elim (lsearch-IsFirstMatch rules f) [
    | inl (all, e) ↦ inl ((not_matches-Misses r f miss, all), e)
    | inr (before, s, behind, e, all, hit, p) ↦
        inr (r ∷ before, s, behind, ap (◌∷◌ r) e, (not_matches-Misses r f miss, all), hit, p)
  ])
]
