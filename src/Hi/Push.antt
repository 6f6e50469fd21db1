-- ===== src/Hi/Push.antt =====
-- Pushing one rule to the children that it reaches.
use choose_cut.Base.{
  ℕ, zero, suc, ◌+◌, ◌-◌, ◌≤◌, ◌<◌, ◌≡◌, refl, ◌∙◌, arith, ◌⊎◌, ◌↔◌, inl, inr, Bool, true, false,
  ◌&&◌, none, some, List, [], ◌∷◌, ◌++◌, leb, if◌then◌else◌, get_elem?, set, Bool-cases, ◌==◌,
  ==_iff, lt→ltb, get_elem?-set_self, get_elem?-set_ne, get_elem?-before,
}
use choose_cut.Rule.{Rule}
use choose_cut.RuleSet.{RuleSet, num, append_rules}
use choose_cut.Hi.{Seg, HiAux, segment, find_ends, trim_to, push_between, hi_push_rule}
use choose_cut.Hi.Segments.{Tiled, place, find_ends-place, place-bounds, get_elem?-place}

-- The set with one more rule.
abbrev pub with_rule : RuleSet → Rule → RuleSet
with_rule s r = record s { list = s.list ++ (r ∷ []) }

append_rules_room :
    (s : RuleSet) (r : Rule) → num s < s.cap → append_rules s r ≡ some (with_rule s r)
unfolding append_rules
append_rules_room s r room = rw (lt→ltb _ _ room) refl

module _ (aux : HiAux) (dim : ℕ) (r : Rule) where
  -- The children from `i` on have got the rule, `left` of them; the others are as they were.
  record Pushed (i left : ℕ) (childs after : List RuleSet) : Type 0 where
    got :
        (j : ℕ) (g : Seg) (c : RuleSet)
        → i ≤ j
        → j < i + left
        → get_elem? aux.segs j ≡ some g
        → get_elem? childs j ≡ some c
        → get_elem? after j ≡ some (with_rule c (trim_to aux dim g r))
    same : (j : ℕ) → (j < i) ⊎ (i + left ≤ j) → get_elem? after j ≡ get_elem? childs j

  -- Each of the children has room for one more rule.
  abbrev Room : ℕ → ℕ → List RuleSet → Type 0
  Room i left childs =
      (j : ℕ)
      → i ≤ j
      → j < i + left
      → (g : Seg) × (c : RuleSet) × (get_elem? aux.segs j ≡ some g)
        × (get_elem? childs j ≡ some c)
        × (num c < c.cap)

  Room-set :
      (left i : ℕ) (childs : List RuleSet) (new : RuleSet)
      → Room i (suc left) childs
      → Room (i + 1) left (set childs i new)
  Room-set left i childs new room j lo hi =
      let (g, c, eg, ec, has_room) = room j (omega arith) (omega arith) in
      (g, c, eg, get_elem?-set_ne childs i j new (omega arith) ∙ ec, has_room)

  Pushed-set :
      (left i : ℕ) (childs after : List RuleSet) (g : Seg) (c : RuleSet)
      → get_elem? aux.segs i ≡ some g
      → get_elem? childs i ≡ some c
      → Pushed (i + 1) left (set childs i (with_rule c (trim_to aux dim g r))) after
      → Pushed i (suc left) childs after
  Pushed-set left i childs after g c eg ec p = record { got = new_got; same = new_same }
    where
      new : RuleSet
      new = with_rule c (trim_to aux dim g r)

      new_same : (j : ℕ) → (j < i) ⊎ (i + suc left ≤ j) → get_elem? after j ≡ get_elem? childs j
      new_same j h = p.same j (ground arith) ∙ get_elem?-set_ne childs i j new (ground arith)

      new_got :
          (j : ℕ) (h : Seg) (d : RuleSet)
          → i ≤ j
          → j < i + suc left
          → get_elem? aux.segs j ≡ some h
          → get_elem? childs j ≡ some d
          → get_elem? after j ≡ some (with_rule d (trim_to aux dim h r))
      new_got j h d lo hi eh ed = elim (Bool-cases (i == j)) [
        | inl here ↦
            let e : i ≡ j = (==_iff i j).0 here in
            let first : get_elem? after i ≡ some new =
              p.same i (inl (omega arith)) ∙ get_elem?-set_self childs i new c ec in
            let eg' = rw e at eg in
            let ec' = rw e at ec in let first' = rw e at first in ground arith
        | inr later ↦
            p.got j h d (ground arith) (omega arith) eh
              (get_elem?-set_ne childs i j new (ground arith) ∙ ed)
      ]

  push_between-Pushed :
      (left i : ℕ) (childs : List RuleSet)
      → Room i left childs
      → (after : List RuleSet) × (push_between aux dim r left i childs ≡ some after)
        × Pushed i left childs after
  unfolding push_between
  push_between-Pushed zero i childs room =
      (childs, refl, record { got = λ j g c lo hi. absurd (omega arith); same = λ j h. refl })
  push_between-Pushed (suc left) i childs room =
      let (g, c, eg, ec, has_room) = room i (omega arith) (omega arith) in
      let new = with_rule c (trim_to aux dim g r) in
      let (after, run, p) =
        push_between-Pushed left (i + 1) (set childs i new) (Room-set left i childs new room) in
      let e = append_rules_room c (trim_to aux dim g r) has_room in
      (after, rw (eg, ec, e) run, Pushed-set left i childs after g c eg ec p)

  -- The rule reaches into the child: it begins not behind it and ends not before it.
  abbrev pub reaches : Seg → Bool
  reaches g =
      leb (segment aux (r.range dim).low) g.last && leb g.first (segment aux (r.range dim).high)

  -- The ends of the loop, as places.
  module _ (s e top : ℕ) (t : Tiled 0 top aux.segs) (le : s ≤ e) (hi : e ≤ top) where
    abbrev from_child : ℕ
    from_child = place aux.segs s

    abbrev to_child : ℕ
    to_child = place aux.segs e

    find_ends-places : find_ends s e aux.segs 0 none none ≡ (some from_child, some to_child)
    find_ends-places = find_ends-place 0 top s e 0 aux.segs t (omega arith) le hi ∙ ground arith

    from-le-to : from_child ≤ to_child
    from-le-to =
        let (g, eg, first, last) = get_elem?-place 0 top e aux.segs t (omega arith) in
        (place-bounds 0 top s to_child aux.segs g t (omega arith) (omega arith) eg).0.1
          (ground arith)

    -- A child stands between the ends exactly if the two numbers reach into it.
    between_iff :
        (j : ℕ) (g : Seg)
        → get_elem? aux.segs j ≡ some g
        → (from_child ≤ j × j ≤ to_child) ↔ ((leb s g.last && leb g.first e) ≡ true)
    between_iff j g eg =
        let low = place-bounds 0 top s j aux.segs g t (omega arith) (omega arith) eg in
        let high = place-bounds 0 top e j aux.segs g t (omega arith) hi eg in
        (
          λ h. let p = low.0.0 h.0 in let q = high.1.0 h.1 in ground arith,
          λ h. (low.0.1 (ground arith), high.1.1 (ground arith)),
        )

    child_between : (j : ℕ) → j ≤ to_child → (g : Seg) × (get_elem? aux.segs j ≡ some g)
    child_between j h =
        let (g, eg, first, last) = get_elem?-place 0 top e aux.segs t (omega arith) in
        get_elem?-before aux.segs j to_child g h eg

    -- Pushing from end to end.
    push_places :
        (childs : List RuleSet)
        → ((j : ℕ) (g : Seg)
            → get_elem? aux.segs j ≡ some g
            → (c : RuleSet) × (get_elem? childs j ≡ some c)
              × ((leb s g.last && leb g.first e) ≡ true → num c < c.cap))
        → (after : List RuleSet) × (push_between aux dim r
              (to_child + 1 - from_child)
              from_child
              childs
            ≡ some after)
          × Pushed from_child (to_child + 1 - from_child) childs after
    push_places childs room =
        push_between-Pushed (to_child + 1 - from_child) from_child childs λ j lo up.
          let below : j ≤ to_child = omega (arith, from-le-to) in
          let (g, eg) = child_between j below in
          let (c, ec, has_room) = room j g eg in
          (g, c, eg, ec, has_room ((between_iff j g eg).0 (lo, below)))

    Pushed-places :
        (childs after : List RuleSet) (j : ℕ) (g : Seg) (c : RuleSet)
        → Pushed from_child (to_child + 1 - from_child) childs after
        → get_elem? aux.segs j ≡ some g
        → get_elem? childs j ≡ some c
        → get_elem? after j
          ≡ some (if leb s g.last && leb g.first e then with_rule c (trim_to aux dim g r) else c)
    Pushed-places childs after j g c p eg ec = elim (Bool-cases (leb s g.last && leb g.first e)) [
      | inl hit ↦ let b = (between_iff j g eg).1 hit in rw hit (p.got j g c b.0 (omega arith) eg ec)
      | inr miss ↦ rw miss (p.same j (outside j g eg miss) ∙ ec)
    ]
      where
        outside :
            (j : ℕ) (g : Seg)
            → get_elem? aux.segs j ≡ some g
            → (leb s g.last && leb g.first e) ≡ false
            → (j < from_child) ⊎ (from_child + (to_child + 1 - from_child) ≤ j)
        outside j g eg miss = elim (Bool-cases (leb from_child j && leb j to_child)) [
          | inl in_between ↦ let b = (between_iff j g eg).0 (ground arith, ground arith) in cc
          | inr not_between ↦ ground (arith, from-le-to)
        ]

  -- The children that the rule reaches get it, trimmed; the others are as they were.
  pub hi_push_rule-reaches :
      (top : ℕ) (childs : List RuleSet)
      → Tiled 0 top aux.segs
      → segment aux (r.range dim).low ≤ segment aux (r.range dim).high
      → segment aux (r.range dim).high ≤ top
      → ((j : ℕ) (g : Seg)
          → get_elem? aux.segs j ≡ some g
          → (c : RuleSet) × (get_elem? childs j ≡ some c) × (reaches g ≡ true → num c < c.cap))
      → (after : List RuleSet) × (hi_push_rule aux dim r childs ≡ some after)
        × ((j : ℕ) (g : Seg) (c : RuleSet)
            → get_elem? aux.segs j ≡ some g
            → get_elem? childs j ≡ some c
            → get_elem? after j ≡ some (if reaches g then with_rule c (trim_to aux dim g r) else c))
  unfolding hi_push_rule
  hi_push_rule-reaches top childs t le hi room =
      let s = segment aux (r.range dim).low in
      let e = segment aux (r.range dim).high in
      let (after, run, p) = push_places s e top t le hi childs room in
      let ordered : leb (place aux.segs s) (place aux.segs e) ≡ true =
        ground (arith, from-le-to s e top t le hi) in
      (
        after,
        rw (find_ends-places s e top t le hi, ordered) run,
        λ j g c eg ec. Pushed-places s e top t le hi childs after j g c p eg ec,
      )
