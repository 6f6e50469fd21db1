-- ===== src/Hi/Cut.antt =====
-- hi_cut: every child gets the rules that reach into it.
use mathlib.Core.List.{append_assoc, append-nil}
use mathlib.Core.Option
use choose_cut.Base.{
  ℕ, suc, ◌+◌, ◌≤◌, ◌<◌, ◌≡◌, refl, sym, ◌∙◌, ap, arith, inl, inr, Bool, true, some, List, [], ◌∷◌,
  ◌++◌, map, All, if◌then◌else◌, get_elem?, get_elem?-map, length, length-append, Bool-cases,
}
use choose_cut.Rule.{Rule}
use choose_cut.RuleSet.{RuleSet, num, rule_set_init}
use choose_cut.Hi.{
  Seg, HiAux, HiNode, segment, trim_to, init_childs, push_rules, counts_hold, hi_set_node, hi_cut,
}
use choose_cut.Hi.Segments.{Tiled}
use choose_cut.Hi.Push.{reaches, with_rule, hi_push_rule-reaches}

module _ (aux : HiAux) (dim : ℕ) where
  -- The rules that reach into a child, trimmed to it, in their order.
  unfoldable pub seg_part : Seg → List Rule → List Rule
  seg_part g [] = []
  seg_part g (r ∷ rules) =
      let rest = seg_part g rules in
      if reaches aux dim r g then trim_to aux dim g r ∷ rest else rest

  -- The ends of a rule lie in segments of the cut.
  abbrev pub Fits : ℕ → Rule → Type 0
  Fits top r =
      (segment aux (r.range dim).low ≤ segment aux (r.range dim).high)
      × (segment aux (r.range dim).high ≤ top)

  -- The set with the part of these rules behind its own.
  abbrev with_part : Seg → List Rule → RuleSet → RuleSet
  with_part g rules c = record c { list = c.list ++ seg_part g rules }

  abbrev Enough : List RuleSet → List Rule → Type 0
  Enough childs rules =
      (j : ℕ) (g : Seg)
      → get_elem? aux.segs j ≡ some g
      → (c : RuleSet) × (get_elem? childs j ≡ some c) × (num c + length (seg_part g rules) ≤ c.cap)

  -- One rule, and then the others.
  seg_part-cons :
      (g : Seg) (r : Rule) (rules : List Rule) (c : RuleSet)
      → let c' = if reaches aux dim r g then with_rule c (trim_to aux dim g r) else c in
        (with_part g rules c' ≡ with_part g (r ∷ rules) c)
        × (num c' + length (seg_part g rules) ≡ num c + length (seg_part g (r ∷ rules)))
        × (c'.cap ≡ c.cap)
  unfolding seg_part
  seg_part-cons g r rules c = elim (Bool-cases (reaches aux dim r g)) [
    | inl hit ↦ rw hit (rw append_assoc refl, rw length-append (omega arith), refl)
    | inr miss ↦ rw miss (refl, refl, refl)
  ]

  room :
      (r : Rule) (rules : List Rule) (childs : List RuleSet)
      → Enough childs (r ∷ rules)
      → (j : ℕ) (g : Seg) → get_elem? aux.segs j ≡ some g
      → (c : RuleSet) × (get_elem? childs j ≡ some c) × (reaches aux dim r g ≡ true → num c < c.cap)
  unfolding seg_part
  room r rules childs enough j g eg =
      let (c, ec, fit) = enough j g eg in (c, ec, λ hit. let fit' = rw hit at fit in omega arith)

  room_later :
      (r : Rule) (rules : List Rule) (childs mid : List RuleSet)
      → Enough childs (r ∷ rules)
      → ((j : ℕ) (g : Seg) (c : RuleSet)
          → get_elem? aux.segs j ≡ some g
          → get_elem? childs j ≡ some c
          → get_elem? mid j
            ≡ some (if reaches aux dim r g then with_rule c (trim_to aux dim g r) else c))
      → Enough mid rules
  room_later r rules childs mid enough got j g eg =
      let (c, ec, fit) = enough j g eg in
      let one = seg_part-cons g r rules c in
      (
        if reaches aux dim r g then with_rule c (trim_to aux dim g r) else c,
        got j g c eg ec,
        omega (arith, one.1, one.2),
      )

  push_rules-parts :
      (top : ℕ) (rules : List Rule) (childs : List RuleSet)
      → Tiled 0 top aux.segs
      → All (Fits top) rules
      → Enough childs rules
      → (after : List RuleSet) × (push_rules aux dim rules childs ≡ some after)
        × ((j : ℕ) (g : Seg) (c : RuleSet)
            → get_elem? aux.segs j ≡ some g
            → get_elem? childs j ≡ some c
            → get_elem? after j ≡ some (with_part g rules c))
  unfolding push_rules
  push_rules-parts top [] childs t fits enough =
      (childs, refl, λ j g c eg ec. unfold seg_part in (ec ∙ ap some (rw append-nil)))
  push_rules-parts top (r ∷ rules) childs t fits enough =
      let (mid, run, got) =
        hi_push_rule-reaches aux dim r top childs t fits.0.0 fits.0.1
          (room r rules childs enough) in
      let (after, run', got') =
        push_rules-parts top rules mid t fits.1 (room_later r rules childs mid enough got) in
      (
        after,
        rw run run',
        λ j g c eg ec. got' j g _ eg (got j g c eg ec) ∙ ap some (seg_part-cons g r rules c).0,
      )

-- The cut fits the rules of the node: the children cover the segments up to `top`, every rule lies
-- in these, and the counts are the numbers of rules that reach into the children.
pub record IsHiCut (aux : HiAux) (dim : ℕ) (rules : List Rule) (top : ℕ) : Type 0 where
  pub tiled : Tiled 0 top aux.segs
  pub fits : All (Fits aux dim top) rules
  pub counts :
      (j : ℕ) (g : Seg)
      → get_elem? aux.segs j ≡ some g
      → g.count ≡ length (seg_part aux dim g rules)

abbrev empty_set : Seg → RuleSet
empty_set g = record { cap = g.count; list = [] }

init_childs-map :
    (grants : ℕ → Bool) (segs : List Seg)
    → ((n : ℕ) → grants n ≡ true)
    → init_childs grants segs ≡ map empty_set segs
unfolding init_childs rule_set_init
init_childs-map grants [] all = refl
init_childs-map grants (g ∷ segs) all = rw (all, init_childs-map grants segs all) refl

counts_hold_all :
    (segs : List Seg) (childs : List RuleSet)
    → ((j : ℕ) (g : Seg)
        → get_elem? segs j ≡ some g
        → (c : RuleSet) × (get_elem? childs j ≡ some c) × (num c ≡ g.count))
    → counts_hold segs childs ≡ true
unfolding counts_hold
counts_hold_all [] childs h = refl
counts_hold_all (g ∷ segs) [] h = let (c, e, n) = h 0 g refl in cc
counts_hold_all (g ∷ segs) (child ∷ childs) h =
    let (c, e, n) = h 0 g refl in ground (arith, counts_hold_all segs childs (λ j. h (suc j)))

-- The set of a child, full of the rules that reach into it.
abbrev pub child_set : HiAux → ℕ → List Rule → Seg → RuleSet
child_set aux dim rules g = record { cap = g.count; list = seg_part aux dim g rules }

module _ (grants : ℕ → Bool) (all_granted : (n : ℕ) → grants n ≡ true) where
  -- With memory granted and a cut that fits the rules of the node, hi_cut passes all its
  -- assertions, and each child gets the rules that reach into it, trimmed to it and in their order.
  pub hi_cut-IsHiCut :
      (n : HiNode) (dim : ℕ) (rules : List Rule) (aux : HiAux) (top : ℕ)
      → IsHiCut aux dim rules top
      → (childs : List RuleSet) × (hi_cut grants n dim rules aux ≡ some (hi_set_node n aux, childs))
        × ((j : ℕ) (g : Seg)
            → get_elem? aux.segs j ≡ some g
            → get_elem? childs j ≡ some (child_set aux dim rules g))
  unfolding hi_cut
  hi_cut-IsHiCut n dim rules aux top c =
      let (childs, run, got) =
        push_rules-parts aux dim top rules (map empty_set aux.segs) c.tiled c.fits
          (λ j g eg. (empty_set g, empty_at j g eg, omega (arith, c.counts j g eg))) in
      let filled = λ (j : ℕ) (g : Seg) (eg : get_elem? aux.segs j ≡ some g).
        got j g (empty_set g) eg (empty_at j g eg) in
      let hold =
        counts_hold_all aux.segs childs
          (λ j g eg. (child_set aux dim rules g, filled j g eg, sym (c.counts j g eg))) in
      (
        childs,
        rw (all_granted, init_childs-map grants aux.segs all_granted, run, hold) refl,
        filled,
      )
    where
      empty_at :
          (j : ℕ) (g : Seg)
          → get_elem? aux.segs j ≡ some g
          → get_elem? (map empty_set aux.segs) j ≡ some (empty_set g)
      empty_at j g eg = get_elem?-map empty_set aux.segs j ∙ ap (Option.map empty_set) eg
