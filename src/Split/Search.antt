-- ===== src/Split/Search.antt =====
-- split_search goes to a child that finds what the node finds.
use mathlib.Core.List.{append-nil}
use mathlib.Core.Option
use choose_cut.Base.{
  ℕ, suc, ◌+◌, ◌≤◌, ◌≡◌, ◌≢◌, refl, sym, ◌∙◌, ap, arith, Bool, true, some, inl, inr, List, [], ◌++◌,
  map, All-map, ltb, if◌then◌else◌, Bool-cases, ltb→lt, get_elem?, get_elem?-map,
}
use choose_cut.Rule.{dims, Rule, Flow}
use choose_cut.Ranges.{Range1d}
use choose_cut.RuleSet.{RuleSet, lsearch}
use choose_cut.Split.{
  Snode, Stree, SpNode, split_snode_enabled, split_fill, split_search, split_cut,
}
use choose_cut.Split.Parts.{part}
use choose_cut.Split.Lookup.{lsearch-part}
use choose_cut.Split.Cut.{Cuts, IsSide, IsTree, side_rules, full, split_cut-IsTree}
use choose_cut.Split.Index.{side_count, side_index, split_search-index}

-- Of a cut, the half on the side of the key finds what all the rules find.
pub lsearch-Cuts :
    (dim : ℕ) (r0 r1 : Range1d) (rules : List Rule) (f : Flow)
    → Cuts dim r0 r1 rules
    → lsearch (if ltb r0.high (f.key dim) then part dim r1 rules else part dim r0 rules) f
      ≡ lsearch rules f
lsearch-Cuts dim r0 r1 rules f c = elim (Bool-cases (ltb r0.high (f.key dim))) [
  | inl side ↦
      let behind = ltb→lt _ _ side in
      rw side (
        lsearch-part dim r1 f c.in_dims rules
          (All-map rules (λ r h. (inl (omega (arith, c.adjacent)), inr h)) c.to_high))
  | inr side ↦
      let front : f.key dim ≤ r0.high = ground arith in
      rw side (
        lsearch-part dim r0 f c.in_dims rules
          (All-map rules (λ r h. (inr h, inl front)) c.from_low))
]

-- The rules of the child on a side that a flow belongs to.
abbrev side_pick : Snode → List Rule → Flow → List Rule
side_pick side rules f =
    if split_snode_enabled side
    then (if ltb side.r0.high (f.key side.dim)
        then part side.dim side.r1 rules
        else part side.dim side.r0 rules)
    else rules

lsearch-side_pick :
    (side : Snode) (rules : List Rule) (f : Flow)
    → IsSide side rules
    → lsearch (side_pick side rules f) f ≡ lsearch rules f
lsearch-side_pick side rules f s = elim (Bool-cases (split_snode_enabled side)) [
  | inr off ↦ rw off refl
  | inl on ↦ rw on (lsearch-Cuts side.dim side.r0 side.r1 rules f (s.cuts on))
]

module _ (side : Snode) (rules : List Rule) (rest : List (List Rule)) where
  get_elem?-side_index :
      (f : Flow)
      → get_elem? (side_rules side rules ++ rest) (side_index side f)
        ≡ some (side_pick side rules f)
  unfolding side_rules
  get_elem?-side_index f = elim (Bool-cases (split_snode_enabled side)) [
    | inr off ↦ rw off refl
    | inl on ↦ rw on (elim (Bool-cases (ltb side.r0.high (f.key side.dim))) [
      | inl behind ↦ rw behind refl
      | inr front ↦ rw front refl
    ])
  ]

  get_elem?-side_count :
      (i : ℕ) → get_elem? (side_rules side rules ++ rest) (side_count side + i) ≡ get_elem? rest i
  unfolding side_rules
  get_elem?-side_count i = elim (Bool-cases (split_snode_enabled side)) [
    | inr off ↦ let e : 1 + i ≡ suc i = omega arith in rw (off, e) refl
    | inl on ↦ let e : 2 + i ≡ suc (suc i) = omega arith in rw (on, e) refl
  ]

dim_ne : (side : Snode) (rules : List Rule) → Cuts side.dim side.r0 side.r1 rules → side.dim ≢ dims
dim_ne side rules c = omega (arith, c.in_dims)

-- The rules of the child that a flow belongs to.
abbrev child_pick : Stree → List Rule → ℕ → Flow → List Rule
child_pick tree rules dim f =
    if ltb tree.root.r0.high (f.key dim)
    then side_pick tree.right (part dim tree.root.r1 rules) f
    else side_pick tree.left (part dim tree.root.r0 rules) f

module _ (dim : ℕ) (tree : Stree) (rules : List Rule) (f : Flow) (t : IsTree dim tree rules) where
  abbrev all_rules : List (List Rule)
  all_rules =
      side_rules tree.left (part dim tree.root.r0 rules)
      ++ side_rules tree.right (part dim tree.root.r1 rules)

  get_elem?-child_pick :
      (sp : SpNode)
      → sp.shape ≡ 0
      → get_elem? all_rules (split_search (split_fill sp tree).1 dim f)
        ≡ some (child_pick tree rules dim f)
  get_elem?-child_pick sp empty =
      let lefts = part dim tree.root.r0 rules in
      let rights = part dim tree.root.r1 rules in
      let more = side_rules tree.right rights in
      let ldim =
        λ (e : split_snode_enabled tree.left ≡ true). dim_ne tree.left lefts (t.left.cuts e) in
      let rdim =
        λ (e : split_snode_enabled tree.right ≡ true). dim_ne tree.right rights (t.right.cuts e) in
      rw (split_search-index sp tree dim f empty ldim rdim)
        (elim (Bool-cases (ltb tree.root.r0.high (f.key dim))) [
          | inl side ↦ rw side (
              get_elem?-side_count tree.left lefts more (side_index tree.right f)
              ∙ ap (λ xs. get_elem? xs (side_index tree.right f)) (sym (append-nil more))
              ∙ get_elem?-side_index tree.right rights [] f)
          | inr side ↦ rw side (get_elem?-side_index tree.left lefts more f)
        ])

  lsearch-child_pick : lsearch (child_pick tree rules dim f) f ≡ lsearch rules f
  lsearch-child_pick =
      let whole = lsearch-Cuts dim tree.root.r0 tree.root.r1 rules f t.root in
      elim (Bool-cases (ltb tree.root.r0.high (f.key dim))) [
        | inl side ↦ rw side (
            lsearch-side_pick tree.right (part dim tree.root.r1 rules) f t.right
            ∙ (rw side at whole))
        | inr side ↦ rw side (
            lsearch-side_pick tree.left (part dim tree.root.r0 rules) f t.left ∙ (rw side at whole))
      ]

module _ (grants : ℕ → Bool) (all_granted : (n : ℕ) → grants n ≡ true) where
  -- Where memory is granted, the node has an empty shape, the two sets have room, and the tree cuts
  -- the rules of the node, split_cut passes all its assertions, and split_search on the node that
  -- it makes goes to a child in which the flow finds the priority that it finds in the node.
  pub split_search-split_cut :
      (sp : SpNode) (dim : ℕ) (rules : RuleSet) (left_cap right_cap : ℕ) (tree : Stree) (f : Flow)
      → sp.shape ≡ 0
      → IsTree dim tree rules.list
      → tree.root.r0.weight ≤ left_cap
      → tree.root.r1.weight ≤ right_cap
      → (n : SpNode) × (children : List RuleSet) × (child : RuleSet) × (split_cut grants sp dim
            rules left_cap right_cap tree
          ≡ some (n, children))
        × (get_elem? children (split_search n dim f) ≡ some child)
        × (lsearch child.list f ≡ lsearch rules.list f)
  split_search-split_cut sp dim rules left_cap right_cap tree f empty t lroom rroom =
      let all = all_rules dim tree rules.list f t in
      let pick = child_pick tree rules.list dim f in
      let n = (split_fill sp tree).1 in
      (
        n,
        map full all,
        full pick,
        split_cut-IsTree grants all_granted sp dim rules left_cap right_cap tree t lroom rroom,
        get_elem?-map full all (split_search n dim f)
            ∙ ap (Option.map full) (get_elem?-child_pick dim tree rules.list f t sp empty),
        lsearch-child_pick dim tree rules.list f t,
      )
