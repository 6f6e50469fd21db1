-- ===== src/Hi/Parts.antt =====
-- What the children of hi_cut hold, said by their numbers.
use choose_cut.Base.{
  ℕ, ◌≤◌, ◌≡◌, refl, sym, inl, inr, Bool, true, some, List, [], ◌∷◌, All, get_elem?, Bool-cases,
}
use choose_cut.Rule.{Rule}
use choose_cut.RuleSet.{RuleSet, num}
use choose_cut.RuleSet.Clip.{IsPart, update-IsClipped}
use choose_cut.Hi.{Seg, HiAux, HiNode, trim_range, trim_to, hi_set_node, hi_cut}
use choose_cut.Hi.Segments.{Tiled-bounds}
use choose_cut.Hi.Push.{reaches}
use choose_cut.Hi.Bounds.{IsPlaced, seg_range, reached-meets, meets-reached, trim_range-Holds}
use choose_cut.Hi.Cut.{IsHiCut, seg_part, child_set, hi_cut-IsHiCut}

module _ (aux : HiAux) (dim top : ℕ) where
  abbrev pub PlacedIn : Rule → Type 0
  PlacedIn r = IsPlaced aux top (r.range dim)

  module _ (g : Seg) (proper : g.first ≤ g.last) (within : g.last ≤ top) where
    -- What the loops store in a child are the rules that have a number of the child, clipped to its numbers.
    seg_part-IsPart :
        (rules : List Rule)
        → All PlacedIn rules
        → IsPart dim (seg_range aux g) rules (seg_part aux dim g rules)
    unfolding seg_part
    seg_part-IsPart [] placed = refl
    seg_part-IsPart (r ∷ rules) placed = elim (Bool-cases (reaches aux dim r g)) [
      | inr miss ↦
          rw (miss, seg_part)
            (inl (
              λ meets.
                  (let hit =
                      meets-reached aux top g (r.range dim) placed.0 proper within meets.0
                        meets.1 in
                    cc),
              seg_part-IsPart rules placed.1,
            ))
      | inl hit ↦
          rw (hit, seg_part)
            (inr (
              reached-meets aux top g (r.range dim) placed.0 proper within hit,
              (
                trim_to aux dim g r,
                seg_part aux dim g rules,
                refl,
                update-IsClipped dim (seg_range aux g) r (trim_range aux g (r.range dim))
                    (λ x. trim_range-Holds aux top g (r.range dim) placed.0 proper within x hit),
                seg_part-IsPart rules placed.1,
              ),
            ))
    ]

module _ (grants : ℕ → Bool) (all_granted : (n : ℕ) → grants n ≡ true) where
  -- With memory granted, a cut that fits the rules of the node, and rules whose ranges in the dimension are in
  -- order, below 2 ^ 32 and not before the start of the cut: hi_cut passes all its assertions and makes a child
  -- for each run of segments. The child holds the rules that have a number of these segments in the dimension,
  -- each with just its numbers in them left there and the rest of it unchanged, in their order; they are as many
  -- as the cut counts for the child, and as many as it has room for.
  pub hi_cut-IsPart :
      (n : HiNode) (dim : ℕ) (rules : List Rule) (aux : HiAux) (top : ℕ)
      → IsHiCut aux dim rules top
      → All (PlacedIn aux dim top) rules
      → (childs : List RuleSet) × (hi_cut grants n dim rules aux ≡ some (hi_set_node n aux, childs))
        × ((j : ℕ) (g : Seg)
            → get_elem? aux.segs j ≡ some g
            → (c : RuleSet) × (get_elem? childs j ≡ some c)
              × IsPart dim (seg_range aux g) rules c.list
              × (num c ≡ g.count)
              × (c.cap ≡ g.count))
  hi_cut-IsPart n dim rules aux top cut placed =
      let (childs, run, got) = hi_cut-IsHiCut grants all_granted n dim rules aux top cut in
      (
        childs,
        run,
        λ j g at.
            (let b = Tiled-bounds 0 top j aux.segs g cut.tiled at in
              (
                child_set aux dim rules g,
                got j g at,
                seg_part-IsPart aux dim top g b.1 b.2 rules placed,
                sym (cut.counts j g at),
                refl,
              )),
      )
