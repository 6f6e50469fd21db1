-- ===== src/Hi/Search.antt =====
-- hi_search goes to a child that finds what the node finds.
use choose_cut.Base.{
  ℕ, ◌^◌, ◌≤◌, ◌<◌, ◌≡◌, refl, ap, arith, ◌⊎◌, inl, inr, Bool, true, false, some, List, [], ◌∷◌,
  All, ltb, ◌==◌, ==_iff, get_elem?, Bool-cases,
}
use choose_cut.Rule.{dims, Rule, Flow, matches}
use choose_cut.Rule.Matching.{matches_iff, matches-congr}
use choose_cut.RuleSet.{RuleSet, not_found, lsearch}
use choose_cut.RuleSet.Laws.{lsearch-cons}
use choose_cut.Hi.{
  Seg, HiAux, HiNode, segment, trim_to, hi_set_node, hi_cut, hi_search, Found, null, child,
  undefined,
}
use choose_cut.Hi.Segments.{get_elem?-place, place, Tiled, Tiled-bounds}
use choose_cut.Hi.Push.{reaches}
use choose_cut.Hi.Cut.{IsHiCut, Fits, seg_part, child_set, hi_cut-IsHiCut}
use choose_cut.Hi.Bounds.{IsPlaced, in_range-trim_range, in_range-not_reached}
use choose_cut.Hi.Index.{hi_next-place}

abbrev pub Placed : HiAux → ℕ → ℕ → Rule → Type 0
Placed aux dim top rule = IsPlaced aux top (rule.range dim)

module _ (aux : HiAux) (dim top : ℕ) (small : dim < dims) (f : Flow) where
  -- A key that lies in or behind the range of the cut.
  abbrev pub Comes : Type 0
  Comes = (aux.start ≤ f.key dim) × (f.key dim < 2 ^ 32)

  -- A child that takes the key: it holds the segment of the key, or is the last one.
  abbrev Takes : Seg → Type 0
  Takes g =
      (g.first ≤ segment aux (f.key dim))
      × ((segment aux (f.key dim) ≤ g.last) ⊎ (g.last ≡ top))
      × (g.first ≤ g.last)
      × (g.last ≤ top)

  module _ (comes : Comes) (g : Seg) (takes : Takes g) where
    matches-trim_to :
        (rule : Rule)
        → Placed aux dim top rule
        → Fits aux dim top rule
        → matches (trim_to aux dim g rule) f ≡ matches rule f
    matches-trim_to rule p fits = matches-congr (trim_to aux dim g rule) rule f λ i lt.
        elim (Bool-cases (i == dim)) [
          | inl here ↦ rw here (
              rw ((==_iff i dim).0 here) (
                in_range-trim_range aux top g (rule.range dim) p takes.2 takes.3 (f.key dim) comes.0
                  comes.1 takes.0 takes.1 fits.1))
          | inr other ↦ rw other refl
        ]

    matches-not_reached :
        (rule : Rule)
        → Placed aux dim top rule
        → Fits aux dim top rule
        → reaches aux dim rule g ≡ false
        → matches rule f ≡ false
    matches-not_reached rule p fits miss = elim (Bool-cases (matches rule f)) [
      | inr no_match ↦ no_match
      | inl match ↦
          let inside = (matches_iff rule f).0 match dim small in
          absurd (
            ground (
              arith,
              in_range-not_reached aux top g (rule.range dim) p takes.2 takes.3 (f.key dim) comes.0
                  comes.1 takes.0 takes.1 fits.1 miss,
            ))
    ]

    lsearch-seg_part :
        (rules : List Rule)
        → All (Placed aux dim top) rules
        → All (Fits aux dim top) rules
        → lsearch (seg_part aux dim g rules) f ≡ lsearch rules f
    unfolding seg_part
    lsearch-seg_part [] placed fits = refl
    lsearch-seg_part (rule ∷ rules) placed fits = elim (Bool-cases (reaches aux dim rule g)) [
      | inl hit ↦
          rw (hit, seg_part)
            (ground (
              arith,
              lsearch-cons (trim_to aux dim g rule) (seg_part aux dim g rules) f,
              lsearch-cons rule rules f,
              matches-trim_to rule placed.0 fits.0,
              lsearch-seg_part rules placed.1 fits.1,
            ))
      | inr miss ↦
          rw (miss, seg_part)
            (ground (
              arith,
              lsearch-cons rule rules f,
              matches-not_reached rule placed.0 fits.0 miss,
              lsearch-seg_part rules placed.1 fits.1,
            ))
    ]

  -- A key before all rules is found in none.
  behind_key :
      (rules : List Rule)
      → All (Placed aux dim top) rules
      → f.key dim < aux.start
      → lsearch rules f ≡ not_found
  unfolding lsearch
  behind_key [] placed lt = refl
  behind_key (rule ∷ rules) placed lt =
      ground (arith, lsearch-cons rule rules f, misses, behind_key rules placed.1 lt)
    where
      misses : matches rule f ≡ false
      misses = elim (Bool-cases (matches rule f)) [
        | inr no_match ↦ no_match
        | inl match ↦
            let inside = (matches_iff rule f).0 match dim small in
            let start = placed.0.from_start in absurd (ground arith)
      ]

-- Where the search of a node goes answers what its rules answer: nowhere where no rule is found,
-- or to a child that finds the same.
abbrev pub Answers : List RuleSet → List Rule → Flow → Found → Type 0
Answers childs rules f null = lsearch rules f ≡ not_found
Answers childs rules f (child j) =
    (c : RuleSet) × (get_elem? childs j ≡ some c) × (lsearch c.list f ≡ lsearch rules f)
Answers childs rules f undefined = ⊥

module _ (n : HiNode) (aux : HiAux) (dim : ℕ) where
  goes_nowhere :
      (f : Flow) → ltb (f.key dim) aux.start ≡ true → hi_search (hi_set_node n aux) dim f ≡ null
  unfolding hi_search hi_set_node
  goes_nowhere f before = rw before refl

  goes_on :
      (top : ℕ) (f : Flow)
      → n.bitmap ≡ 0
      → top < 64
      → Tiled 0 top aux.segs
      → ltb (f.key dim) aux.start ≡ false
      → segment aux (f.key dim) < 64
      → hi_search (hi_set_node n aux) dim f ≡ child (place aux.segs (segment aux (f.key dim)))
  unfolding hi_search hi_set_node
  goes_on top f empty few tiled comes near =
      let to = hi_next-place n aux top (segment aux (f.key dim)) empty tiled few near in
      let yes : ltb (segment aux (f.key dim)) 64 ≡ true = ground arith in
      rw (comes, yes) (ap child to)

module _ (grants : ℕ → Bool) (all_granted : (n : ℕ) → grants n ≡ true) where
  -- Where memory is granted, the bitmap of the node is empty, there are at most 64 segments, the cut
  -- fits the rules of the node, and these are words, in order and not before the start of the cut,
  -- hi_cut passes all its assertions, and hi_search on the node that it makes, for a key that is a
  -- word and lies not behind segment 63, goes nowhere only if no rule of the node matches the flow,
  -- and otherwise to a child in which the flow finds the priority that it finds in the node.
  pub hi_search-hi_cut :
      (n : HiNode) (dim : ℕ) (rules : List Rule) (aux : HiAux) (top : ℕ) (f : Flow)
      → n.bitmap ≡ 0
      → dim < dims
      → top < 64
      → IsHiCut aux dim rules top
      → All (Placed aux dim top) rules
      → f.key dim < 2 ^ 32
      → (aux.start ≤ f.key dim → segment aux (f.key dim) < 64)
      → (childs : List RuleSet) × (hi_cut grants n dim rules aux ≡ some (hi_set_node n aux, childs))
        × Answers childs rules f (hi_search (hi_set_node n aux) dim f)
  hi_search-hi_cut n dim rules aux top f empty small few cut placed word near =
      let (childs, run, got) = hi_cut-IsHiCut grants all_granted n dim rules aux top cut in
      (
        childs,
        run,
        elim (Bool-cases (ltb (f.key dim) aux.start)) [
          | inl before ↦
              rw (goes_nowhere n aux dim f before)
                (behind_key aux dim top small f rules placed (ground arith))
          | inr comes ↦
              let (g, eg, first, last) =
                get_elem?-place 0 top (segment aux (f.key dim)) aux.segs cut.tiled (omega arith) in
              let b =
                Tiled-bounds 0 top (place aux.segs (segment aux (f.key dim))) aux.segs g cut.tiled
                  eg in
              rw (goes_on n aux dim top f empty few cut.tiled comes (near (ground arith))) (
                child_set aux dim rules g,
                got _ g eg,
                lsearch-seg_part aux dim top small f (ground arith, word) g (first, last, b.1, b.2)
                    rules placed cut.fits,
              )
        ],
      )
