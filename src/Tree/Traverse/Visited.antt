-- ===== src/Tree/Traverse/Visited.antt =====
-- Which children the traversals go to.
use mathlib.Core.List.{map}
use choose_cut.Base.{
  ℕ, zero, suc, ◌+◌, ◌-◌, ◌/◌, ◌%◌, ◌^◌, ◌≤◌, ◌<◌, ◌≡◌, refl, sym, ◌∙◌, ap, subst, All, arith, Bool,
  true, false, Option, some, none, List, [], ◌∷◌, ◌++◌, ◌>>=◌, length, popcount, bit_and, ltb,
  if◌then◌else◌,
}
use choose_cut.Base.Pow.{pow-suc_two, pow_le_pow}
use choose_cut.Base.Bits.{bit_or_above, popcount-zero}
use choose_cut.Base.Visit.{visit_bits, visit_bits-ones, ones, ones-upto, upto}
use choose_cut.Split.Index.{shape_of, split_next-shape, split_fill-shape}
use choose_cut.Split.{Stree, SpNode, split_snode_enabled, split_fill, split_next}
use choose_cut.Hi.{Seg, HiAux, HiNode, hi_next, hi_set_bitmap, hi_set_node}
use choose_cut.Hi.Segments.{Tiled}
use choose_cut.Hi.Index.{popcount-hi_set_bitmap, place-high}
use choose_cut.MbNode.{MbNode}
use choose_cut.Bitmap.{next_inl, next_exl}
use choose_cut.Tree.Traverse.{split_traverse, hi_traverse, even_traverse}
use native.Mathlib.Nat.{mod-eq_of_lt, zero-mod}

popcount-le : (w n : ℕ) → popcount w n ≤ w
unfolding popcount
popcount-le zero n = omega arith
popcount-le (suc w) n = omega (arith, popcount-le w (n / 2))

-- The ones of the shapes.
abbrev shape_ones : Bool → Bool → List ℕ
shape_ones true true = 0 ∷ 1 ∷ 2 ∷ 3 ∷ []
shape_ones true false = 0 ∷ 1 ∷ 2 ∷ []
shape_ones false true = 0 ∷ 2 ∷ 3 ∷ []
shape_ones false false = 0 ∷ 2 ∷ []

ones-shape_of : (l r : Bool) → ones 32 (shape_of l r) ≡ shape_ones l r
unfolding ones
ones-shape_of true true = refl
ones-shape_of true false = refl
ones-shape_of false true = refl
ones-shape_of false false = refl

shape_of-bound : (l r : Bool) → shape_of l r < 2 ^ 32
shape_of-bound true true = omega arith
shape_of-bound true false = omega arith
shape_of-bound false true = omega arith
shape_of-bound false false = omega arith

-- The ones of a node's shape stand for its children, in their order.
map-shape_ones :
    (n : SpNode) (l r : Bool)
    → n.shape ≡ shape_of l r
    → map (λ idx. split_next n idx) (shape_ones l r)
      ≡ upto (2 + (if l then 1 else 0) + (if r then 1 else 0))
unfolding upto
map-shape_ones n true true e =
    let (a, b, c, d) = split_next-shape n true true e in rw (a, b, c, d) refl
map-shape_ones n true false e =
    let (a, b, c, d) = split_next-shape n true false e in rw (a, b, c) refl
map-shape_ones n false true e =
    let (a, b, c, d) = split_next-shape n false true e in rw (a, c, d) refl
map-shape_ones n false false e =
    let (a, b, c, d) = split_next-shape n false false e in rw (a, c) refl

traverse-shape_of :
    (n : SpNode) (l r : Bool)
    → n.shape ≡ shape_of l r
    → split_traverse n ≡ some (upto (2 + (if l then 1 else 0) + (if r then 1 else 0)))
unfolding split_traverse
traverse-shape_of n l r e =
    let places =
      visit_bits-ones 32 33 (shape_of l r) (shape_of-bound l r)
        (omega (arith, popcount-le 32 (shape_of l r))) in
    let run : visit_bits 32 33 n.shape 0 ≡ some (shape_ones l r) =
      ap (λ s. visit_bits 32 33 s 0) e ∙ places ∙ ap some (ones-shape_of l r) in
    rw (run, ◌>>=◌) (ap some (map-shape_ones n l r e))

fill_count :
    (sp : SpNode) (tree : Stree)
    → some (
        upto (
          2
          + (if split_snode_enabled tree.left then 1 else 0)
          + (if split_snode_enabled tree.right then 1 else 0)))
      ≡ some (upto (split_fill sp tree).0)
unfolding split_fill
fill_count sp tree = refl

-- On the node that split_fill makes of one with an empty shape, split_traverse comes to an end and goes to
-- every child that split_fill counts, once and in their order.
pub split_traverse-split_fill :
    (sp : SpNode) (tree : Stree)
    → sp.shape ≡ 0
    → split_traverse (split_fill sp tree).1 ≡ some (upto (split_fill sp tree).0)
split_traverse-split_fill sp tree empty =
    traverse-shape_of (split_fill sp tree).1 (split_snode_enabled tree.left)
      (split_snode_enabled tree.right) (split_fill-shape sp tree empty)
    ∙ fill_count sp tree

hi_traverse-upto :
    (n : HiNode) → n.bitmap < 2 ^ 64 → hi_traverse n ≡ some (upto (popcount 64 n.bitmap))
unfolding hi_traverse hi_next
hi_traverse-upto n word =
    rw (visit_bits-ones 64 65 n.bitmap word (omega (arith, popcount-le 64 n.bitmap)), ◌>>=◌)
      (ap some (ones-upto 64 n.bitmap))

hi_set_bitmap-bound :
    (n top b : ℕ) (segs : List Seg) → Tiled n top segs → b < 2 ^ n → hi_set_bitmap segs b < 2 ^ top
unfolding hi_set_bitmap
hi_set_bitmap-bound n top b [] t below = absurd t
hi_set_bitmap-bound n top b (g ∷ []) t below = omega (arith, pow_le_pow n top (omega (arith, t)))
hi_set_bitmap-bound n top b (g ∷ h ∷ segs) t below =
    let fits : b < 2 ^ g.last = omega (arith, pow_le_pow n g.last (omega arith)) in
    let next : 2 ^ g.last + b < 2 ^ (g.last + 1) =
      (let e : g.last + 1 ≡ suc g.last = omega arith in rw e (omega (arith, pow-suc_two g.last))) in
    rw (bit_or_above g.last b fits)
      (hi_set_bitmap-bound (g.last + 1) top (2 ^ g.last + b) (h ∷ segs) t.2 next)

-- On the node that hi_set_node makes of one with an empty bitmap, with at most 64 segments, hi_traverse comes
-- to an end and goes to every child but the last, once and in their order.
pub hi_traverse-hi_set_node :
    (n : HiNode) (aux : HiAux) (top : ℕ)
    → n.bitmap ≡ 0
    → Tiled 0 top aux.segs
    → top < 64
    → hi_traverse (hi_set_node n aux) ≡ some (upto (length aux.segs - 1))
unfolding hi_set_node
hi_traverse-hi_set_node n aux top empty t small =
    let b = hi_set_bitmap aux.segs 0 in
    let bound = hi_set_bitmap-bound 0 top 0 aux.segs t (omega arith) in
    let word : b < 2 ^ 64 = omega (arith, bound, pow_le_pow top 64 (omega arith)) in
    let none_before : popcount 64 (0 % 2 ^ 64) ≡ 0 = rw zero-mod (popcount-zero 64) in
    let count : popcount 64 b ≡ length aux.segs - 1 = omega (
      arith,
      ap (popcount 64) (mod-eq_of_lt word),
      popcount-hi_set_bitmap 64 0 top 64 0 aux.segs t small (omega arith),
      none_before,
      place-high 0 top 64 aux.segs t (omega arith),
    ) in
    rw empty (
      hi_traverse-upto (record { start = aux.start; shift = aux.shift; bitmap = b }) word
      ∙ ap (λ k. some (upto k)) count)

-- The places of the internal children, from the last on, and of the external ones.
abbrev inl_at : MbNode → ℕ → Option ℕ
inl_at n offset = if ltb offset n.child_ptr then some (n.child_ptr - offset - 1) else none

abbrev exl_at : MbNode → ℕ → Option ℕ
exl_at n offset = some (n.child_ptr + offset)

map-twice :
    {A : Type 0} (f : ℕ → ℕ) (g : ℕ → A) (is : List ℕ) → map (λ i. g (f i)) is ≡ map g (map f is)
map-twice f g [] = refl
map-twice f g (i ∷ is) = ap (λ rest. g (f i) ∷ rest) (map-twice f g is)

upto-below :
    (n k : ℕ) (is : List ℕ) → All (λ i. i < n) is → All (λ i. i < suc n) (map (λ (i : ℕ). suc i) is)
upto-below n k [] h = tt
upto-below n k (i ∷ is) h = (omega (arith, h.0), upto-below n k is h.1)

All-upto : (n : ℕ) → All (λ i. i < n) (upto n)
unfolding upto
All-upto zero = tt
All-upto (suc n) = (omega arith, upto-below n 0 (upto n) (All-upto n))

map-inl_at :
    (n : MbNode) (is : List ℕ)
    → All (λ i. i < n.child_ptr) is
    → map (inl_at n) is ≡ map (λ i. some (n.child_ptr - i - 1)) is
map-inl_at n [] h = refl
map-inl_at n (i ∷ is) h =
    let yes_i : ltb i n.child_ptr ≡ true = ground (arith, h.0) in
    rw (yes_i, map-inl_at n is h.1) refl

-- On a node whose child pointer stands behind as many children as there are internal bits, even_traverse comes
-- to an end and goes to the internal children from the last to the first place, and then to the external
-- children in their order, to each once.
pub even_traverse-upto :
    (n : MbNode)
    → n.internal < 2 ^ 64
    → n.external < 2 ^ 64
    → n.child_ptr ≡ popcount 64 n.internal
    → even_traverse n
      ≡ some (
          map (λ i. some (n.child_ptr - i - 1)) (upto (popcount 64 n.internal))
          ++ map (λ i. some (n.child_ptr + i)) (upto (popcount 64 n.external)))
unfolding even_traverse next_inl next_exl
even_traverse-upto n word word' ptr =
    let count = λ (bits idx : ℕ). popcount 64 (bit_and bits (2 ^ idx - 1)) in
    let inls = ones 64 n.internal in
    let exls = ones 64 n.external in
    let ins : map (λ idx. inl_at n (count n.internal idx)) inls
        ≡ map (λ i. some (n.child_ptr - i - 1)) (upto (popcount 64 n.internal)) =
      map-twice (count n.internal) (inl_at n) inls
      ∙ ap (map (inl_at n)) (ones-upto 64 n.internal)
      ∙ map-inl_at n (upto (popcount 64 n.internal)) (
          subst (λ k. All (λ i. i < k) (upto (popcount 64 n.internal))) (sym ptr)
            (All-upto (popcount 64 n.internal))) in
    let exs : map (λ idx. exl_at n (count n.external idx)) exls
        ≡ map (λ i. some (n.child_ptr + i)) (upto (popcount 64 n.external)) =
      map-twice (count n.external) (exl_at n) exls
      ∙ ap (map (exl_at n)) (ones-upto 64 n.external) in
    rw
      (
        visit_bits-ones 64 65 n.internal word (omega (arith, popcount-le 64 n.internal)),
        visit_bits-ones 64 65 n.external word' (omega (arith, popcount-le 64 n.external)),
        ◌>>=◌,
      )
      (ap (λ (xs : List (Option ℕ)). some (xs ++ map (λ idx. exl_at n (count n.external idx)) exls))
          ins
        ∙ ap
            (λ (xs : List (Option ℕ)).
              some (map (λ i. some (n.child_ptr - i - 1)) (upto (popcount 64 n.internal)) ++ xs))
            exs)
