-- ===== src/Rule/Matching.antt =====
-- When one rule contains another, and when a rule matches a flow.
use choose_cut.Base.{ℕ, zero, suc, ◌+◌, max, ◌≤◌, ◌<◌, ◌≡◌, refl, arith, ◌↔◌, true}
use choose_cut.Base.{◌==◌, inl, inr, Bool-cases, ==_iff, subst}
use choose_cut.Rule.{
  Range, Rule, Flow, dims, count_around, rule_contained, in_range, matches, range_overlap,
}

-- One range lies around the other.
abbrev pub Around : Range → Range → Type 0
Around a b = (a.low ≤ b.low) × (b.high ≤ a.high)

module _ (a b : Rule) where
  count_around-le : (left i count : ℕ) → count_around a b left i count ≤ count + left
  unfolding count_around
  count_around-le zero i count = omega arith
  count_around-le (suc left) i count =
      ground (arith, count_around-le left (i + 1) count, count_around-le left (i + 1) (count + 1))

  -- A full count passes the test at hand, and the rest of the count is full too.
  count_around-suc :
      (left i count : ℕ)
      → count_around a b (suc left) i count ≡ count + suc left
      → Around (a.range i) (b.range i)
        × (count_around a b left (i + 1) (count + 1) ≡ count + 1 + left)
  unfolding count_around
  count_around-suc left i count e = let low = count_around-le left (i + 1) count in ground arith

  -- The loop counts every dimension if and only if every one passes the test.
  count_around-all :
      (left i count : ℕ)
      → count_around a b left i count ≡ count + left
      → (j : ℕ) → i ≤ j
      → j < i + left
      → Around (a.range j) (b.range j)
  count_around-all zero i count e j lo hi = absurd (omega arith)
  count_around-all (suc left) i count e j lo hi = elim (Bool-cases (i == j)) [
    | inl here ↦
        subst (λ k. Around (a.range k) (b.range k)) ((==_iff i j).0 here)
          (count_around-suc left i count e).0
    | inr later ↦
        count_around-all left (i + 1) (count + 1) (count_around-suc left i count e).1 j
          (ground arith) (omega arith)
  ]

  all-count_around :
      (left i count : ℕ)
      → ((j : ℕ) → i ≤ j → j < i + left → Around (a.range j) (b.range j))
      → count_around a b left i count ≡ count + left
  unfolding count_around
  all-count_around zero i count h = omega arith
  all-count_around (suc left) i count h =
      let here = h i (omega arith) (omega arith) in
      let rest =
        all-count_around left (i + 1) (count + 1) (λ j p q. h j (omega arith) (omega arith)) in
      ground arith

  -- `rule_contained` answers 1 exactly when the range of `a` lies around the range of `b` in each
  -- of the five dimensions.
  pub rule_contained_iff :
      (rule_contained a b ≡ true) ↔ ((i : ℕ) → i < dims → Around (a.range i) (b.range i))
  unfolding rule_contained
  rule_contained_iff = (
    λ e i lt.
        count_around-all dims 0 0 ((==_iff (count_around a b dims 0 0) dims).0 e) i (omega arith)
          lt,
    λ h. (==_iff (count_around a b dims 0 0) dims).1 (all-count_around dims 0 0 (λ j p q. h j q)),
  )

-- A key lies in a range.
abbrev pub Inside : ℕ → Range → Type 0
Inside x r = (r.low ≤ x) × (x ≤ r.high)

matches-Inside :
    (r : Rule) (f : Flow) (i : ℕ) → matches r f ≡ true → i < dims → Inside (f.key i) (r.range i)
unfolding matches
matches-Inside r f zero e lt = ground arith
matches-Inside r f (suc zero) e lt = ground arith
matches-Inside r f (suc (suc zero)) e lt = ground arith
matches-Inside r f (suc (suc (suc zero))) e lt = ground arith
matches-Inside r f (suc (suc (suc (suc zero)))) e lt = ground arith
matches-Inside r f (suc (suc (suc (suc (suc i))))) e lt = absurd (omega arith)

-- The test in `lsearch` is passed exactly when the key of each of the five dimensions lies in
-- the range of the rule.
pub matches_iff :
    (r : Rule) (f : Flow)
    → (matches r f ≡ true) ↔ ((i : ℕ) → i < dims → Inside (f.key i) (r.range i))
unfolding matches
matches_iff r f = (
  λ e i lt. matches-Inside r f i e lt,
  λ h. ground (
    arith,
    h 0 (omega arith),
    h 1 (omega arith),
    h 2 (omega arith),
    h 3 (omega arith),
    h 4 (omega arith),
  ),
)

-- A rule that contains another matches every flow that the other matches.
pub rule_contained-matches :
    (a b : Rule) (f : Flow) → rule_contained a b ≡ true → matches b f ≡ true → matches a f ≡ true
rule_contained-matches a b f c m = (matches_iff a f).1 λ i lt.
    let around = (rule_contained_iff a b).0 c i lt in
    let inside = (matches_iff b f).0 m i lt in omega arith

-- Rules whose ranges hold the same keys of a flow match it alike.
pub matches-congr :
    (a b : Rule) (f : Flow)
    → ((i : ℕ) → i < dims → in_range (f.key i) (a.range i) ≡ in_range (f.key i) (b.range i))
    → matches a f ≡ matches b f
unfolding matches
matches-congr a b f h =
    rw (
      h 0 (omega arith),
      h 1 (omega arith),
      h 2 (omega arith),
      h 3 (omega arith),
      h 4 (omega arith),
    )

-- Neither test looks at the priority.
pub matches-pri : (r : Rule) (p : ℕ) (f : Flow) → matches (record r { pri = p }) f ≡ matches r f
unfolding matches
matches-pri r p f = refl

pub rule_contained-pri :
    (a b : Rule) (p : ℕ) → rule_contained a (record b { pri = p }) ≡ rule_contained a b
unfolding rule_contained count_around
rule_contained-pri a b p = refl

pub pri-rule_contained :
    (a b : Rule) (p : ℕ) → rule_contained (record a { pri = p }) b ≡ rule_contained a b
unfolding rule_contained count_around
pri-rule_contained a b p = refl

-- Of two ranges that are not empty, `range_overlap` answers 1 exactly when they share a number.
pub range_overlap_iff :
    (a b : Range)
    → a.low ≤ a.high
    → b.low ≤ b.high
    → (range_overlap a b ≡ true) ↔ ((x : ℕ) × Inside x a × Inside x b)
unfolding range_overlap
range_overlap_iff a b ha hb =
    (λ e. (max a.low b.low, ground arith, ground arith), λ s. let (x, p, q) = s in ground arith)
