-- ===== src/Split/Index.antt =====
-- Which child split_search goes to.
use choose_cut.Base.{
  ℕ, ◌+◌, ◌≡◌, ◌≢◌, refl, arith, Bool, true, false, ltb, if◌then◌else◌, inl, inr, Bool-cases, ◌⊎◌,
}
use choose_cut.Rule.{dims, Flow}
use choose_cut.Split.{
  Snode, Stree, SpNode, split_snode_enabled, split_fill, split_next, split_idx, split_search,
}

-- How many children a side has, and which of them a flow belongs to.
abbrev pub side_count : Snode → ℕ
side_count side = if split_snode_enabled side then 2 else 1

abbrev pub side_index : Snode → Flow → ℕ
side_index side f =
    if split_snode_enabled side then (if ltb side.r0.high (f.key side.dim) then 1 else 0) else 0

-- The shape of a node: a bit for the first child of each side, and one for its second child.
abbrev pub shape_of : Bool → Bool → ℕ
shape_of true true = 15
shape_of true false = 7
shape_of false true = 13
shape_of false false = 5

-- A second child in the shape stands behind the first, and one of the right side behind all of
-- the left side.
pub split_next-shape :
    (n : SpNode) (l r : Bool)
    → n.shape ≡ shape_of l r
    → (split_next n 0 ≡ 0)
      × (split_next n 1 ≡ 1)
      × (split_next n 2 ≡ (if l then 2 else 1))
      × (split_next n 3 ≡ (if l then 3 else 2))
unfolding split_next
split_next-shape n true true e = rw e (refl, refl, refl, refl)
split_next-shape n true false e = rw e (refl, refl, refl, refl)
split_next-shape n false true e = rw e (refl, refl, refl, refl)
split_next-shape n false false e = rw e (refl, refl, refl, refl)

side_index-cases : (side : Snode) (f : Flow) → (side_index side f ≡ 0) ⊎ (side_index side f ≡ 1)
side_index-cases side f = elim (Bool-cases (split_snode_enabled side)) [
  | inr off ↦ rw off (inl refl)
  | inl on ↦ rw on (elim (Bool-cases (ltb side.r0.high (f.key side.dim))) [
    | inl behind ↦ rw behind (inr refl)
    | inr front ↦ rw front (inl refl)
  ])
]

split_next-index :
    (n : SpNode) (left right : Bool) (i : ℕ)
    → n.shape ≡ shape_of left right
    → (i ≡ 0) ⊎ (i ≡ 1)
    → (split_next n i ≡ i) × (split_next n (2 + i) ≡ (if left then 2 else 1) + i)
split_next-index n left right i e (inl z) =
    rw z (let s = split_next-shape n left right e in ground arith)
split_next-index n left right i e (inr o) =
    rw o (let s = split_next-shape n left right e in ground arith)

-- What `split_fill` writes of a side.
record Filled (side : Snode) (dim split : ℕ) : Type 0 where
  on : split_snode_enabled side ≡ true → (dim ≡ side.dim) × (split ≡ side.r0.high)
  off : split_snode_enabled side ≡ false → dim ≡ dims

module _ (sp : SpNode) (tree : Stree) where
  pub split_fill-shape :
      sp.shape ≡ 0
      → (split_fill sp tree).1.shape
        ≡ shape_of (split_snode_enabled tree.left) (split_snode_enabled tree.right)
  unfolding split_fill
  split_fill-shape empty = elim (Bool-cases (split_snode_enabled tree.left)) [
    | inl l ↦ elim (Bool-cases (split_snode_enabled tree.right)) [
      | inl r ↦ rw (l, r, empty) refl
      | inr r ↦ rw (l, r, empty) refl
    ]
    | inr l ↦ elim (Bool-cases (split_snode_enabled tree.right)) [
      | inl r ↦ rw (l, r, empty) refl
      | inr r ↦ rw (l, r, empty) refl
    ]
  ]

  split_fill-root : (split_fill sp tree).1.root_split ≡ tree.root.r0.high
  unfolding split_fill
  split_fill-root = ground arith

  split_fill-left :
      Filled tree.left (split_fill sp tree).1.dim_left (split_fill sp tree).1.left_split
  unfolding split_fill
  split_fill-left = record { on = λ e. ground arith; off = λ e. ground arith }

  split_fill-right :
      Filled tree.right (split_fill sp tree).1.dim_right (split_fill sp tree).1.right_split
  unfolding split_fill
  split_fill-right = record { on = λ e. ground arith; off = λ e. ground arith }

-- The position that the search comes to, on a node that is filled from two sides.
split_idx-Filled :
    (n : SpNode) (left right : Snode) (dim : ℕ) (f : Flow)
    → Filled left n.dim_left n.left_split
    → Filled right n.dim_right n.right_split
    → (split_snode_enabled left ≡ true → left.dim ≢ dims)
    → (split_snode_enabled right ≡ true → right.dim ≢ dims)
    → split_idx n dim f
      ≡ (if ltb n.root_split (f.key dim) then 2 + side_index right f else side_index left f)
unfolding split_idx
split_idx-Filled n left right dim f fl fr ldim rdim =
    elim (Bool-cases (ltb n.root_split (f.key dim))) [
      | inl side ↦ rw side (elim (Bool-cases (split_snode_enabled right)) [
        | inl r ↦ let (d, s) = fr.on r in let h = rdim r in rw (r, d, s) (ground arith)
        | inr r ↦ rw (r, fr.off r) (ground arith)
      ])
      | inr side ↦ rw side (elim (Bool-cases (split_snode_enabled left)) [
        | inl l ↦ let (d, s) = fl.on l in let h = ldim l in rw (l, d, s) (ground arith)
        | inr l ↦ rw (l, fl.off l) (ground arith)
      ])
    ]

split_search_lem :
    (n : SpNode) (dim : ℕ) (f : Flow) → split_search n dim f ≡ split_next n (split_idx n dim f)
unfolding split_search
split_search_lem n dim f = refl

module _ (sp : SpNode) (tree : Stree) (dim : ℕ) (f : Flow) where
  -- On the node that `split_fill` makes of one with an empty shape, the search goes to the child
  -- on the side of the key, behind the children of the left side if it is the right one.
  pub split_search-index :
      sp.shape ≡ 0
      → (split_snode_enabled tree.left ≡ true → tree.left.dim ≢ dims)
      → (split_snode_enabled tree.right ≡ true → tree.right.dim ≢ dims)
      → split_search (split_fill sp tree).1 dim f ≡ (
          if ltb tree.root.r0.high (f.key dim)
          then side_count tree.left + side_index tree.right f
          else side_index tree.left f)
  split_search-index empty ldim rdim =
      let n = (split_fill sp tree).1 in
      let idx =
        split_idx-Filled n tree.left tree.right dim f (split_fill-left sp tree)
          (split_fill-right sp tree) ldim rdim in
      let shape = split_fill-shape sp tree empty in
      let on_left = split_snode_enabled tree.left in
      let on_right = split_snode_enabled tree.right in
      let low =
        split_next-index n on_left on_right (side_index tree.left f) shape
          (side_index-cases tree.left f) in
      let high =
        split_next-index n on_left on_right (side_index tree.right f) shape
          (side_index-cases tree.right f) in
      elim (Bool-cases (ltb tree.root.r0.high (f.key dim))) [
        | inl side ↦ rw (split_search_lem n dim f, idx, split_fill-root sp tree, side) high.1
        | inr side ↦ rw (split_search_lem n dim f, idx, split_fill-root sp tree, side) low.0
      ]
