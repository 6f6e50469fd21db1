-- ===== src/RuleSet/Clip.antt =====
-- What a cut should leave of the rules for a part of a dimension, said without the code of the cuts: it is
-- what _split_cut_1d of cut-split.c and hi_push_rule of cut-hi.c are measured by.
use choose_cut.Base.{
  ℕ, ◌≤◌, ◌≡◌, ◌≢◌, refl, ◌⊎◌, ◌↔◌, inl, inr, true, List, [], ◌∷◌, ◌==◌, ==_iff, update, Bool-cases,
}
use choose_cut.Rule.{Range, Rule}

-- A number lies in a range.
abbrev pub Holds : Range → ℕ → Type 0
Holds r x = (r.low ≤ x) × (x ≤ r.high)

module _ (dim : ℕ) (part : Range) where
  -- The range of the rule begins not behind the part and ends not before it: if both are in order, they
  -- share a number.
  abbrev pub Meets : Rule → Type 0
  Meets r = ((r.range dim).low ≤ part.high) × (part.low ≤ (r.range dim).high)

  -- The second rule is the first with only the numbers of the part left in the dimension.
  pub record IsClipped (r r' : Rule) : Type 0 where
    pub same_pri : r'.pri ≡ r.pri
    pub others : (i : ℕ) → i ≢ dim → r'.range i ≡ r.range i
    pub inside : (x : ℕ) → Holds (r'.range dim) x ↔ (Holds (r.range dim) x × Holds part x)

  -- The rules that meet the part, clipped to it, in their order, and no others.
  abbrev pub IsPart : List Rule → List Rule → Type 0
  IsPart [] out = out ≡ []
  IsPart (r ∷ rules) out =
      ((¬ Meets r) × IsPart rules out)
      ⊎ (Meets r
          × ((r' : Rule) × (out' : List Rule) × (out ≡ r' ∷ out')
              × IsClipped r r'
              × IsPart rules out'))

  -- A rule with a new range in the dimension.
  pub update-IsClipped :
      (r : Rule) (now : Range)
      → ((x : ℕ) → Holds now x ↔ (Holds (r.range dim) x × Holds part x))
      → IsClipped r (record r { range = update r.range dim now })
  update-IsClipped r now h =
      let here : (dim == dim) ≡ true = (==_iff dim dim).1 refl in
      record {
        same_pri = refl;
        others = λ i ne. elim (Bool-cases (i == dim)) [
          | inl e ↦ absurd (ne ((==_iff i dim).0 e))
          | inr e ↦ rw e refl
        ];
        inside = λ x. rw here (h x);
      }
