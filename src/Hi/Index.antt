-- ===== src/Hi/Index.antt =====
-- The bitmap of a hi node as the places of its children.
use choose_cut.Base.{
  ℕ, suc, ◌+◌, ◌^◌, ◌%◌, ◌≤◌, ◌<◌, ◌≡◌, refl, ◌∙◌, arith, false, List, [], ◌∷◌, length, popcount,
}
use choose_cut.Base.Pow.{pow-suc_two, pow_le_pow}
use choose_cut.Base.Bits.{bit_and_mask, bit_or_above, popcount_below, popcount-zero}
use native.Mathlib.Nat.{zero-mod}
use choose_cut.Hi.{Seg, HiAux, HiNode, hi_set_bitmap, hi_set_node, hi_next, hi_count_childs}
use choose_cut.Hi.Segments.{Tiled, place, Tiled-le}

place-low : (n top x : ℕ) (segs : List Seg) → Tiled n top segs → x ≤ n → place segs x ≡ 0
place-low n top x [] t le = refl
place-low n top x (g ∷ []) t le = refl
place-low n top x (g ∷ h ∷ segs) t le = ground arith

-- The ones below a position are those set before and one for each child that ends below it.
pub popcount-hi_set_bitmap :
    (w n top idx b : ℕ) (segs : List Seg)
    → Tiled n top segs
    → top < w
    → b < 2 ^ n
    → popcount w (hi_set_bitmap segs b % 2 ^ idx) ≡ popcount w (b % 2 ^ idx) + place segs idx
unfolding hi_set_bitmap
popcount-hi_set_bitmap w n top idx b [] t small below = absurd t
popcount-hi_set_bitmap w n top idx b (g ∷ []) t small below = omega arith
popcount-hi_set_bitmap w n top idx b (g ∷ h ∷ segs) t small below =
    let le = Tiled-le (g.last + 1) top (h ∷ segs) t.2 in
    let fits : b < 2 ^ g.last = omega (arith, pow_le_pow n g.last (omega arith)) in
    let next : 2 ^ g.last + b < 2 ^ (g.last + 1) =
      (let e : g.last + 1 ≡ suc g.last = omega arith in rw e (omega (arith, pow-suc_two g.last))) in
    rw (bit_or_above g.last b fits) (
      popcount-hi_set_bitmap w (g.last + 1) top idx (2 ^ g.last + b) (h ∷ segs) t.2 small next
      ∙ ground (
        arith,
        popcount_below w g.last idx b (omega arith) fits,
        place-low (g.last + 1) top idx (h ∷ segs) t.2,
      ))

-- On the node that hi_set_node makes of one with an empty bitmap and of segments below 64, hi_next
-- goes from a segment below 64 to the child of the segment, and to the last child if the segment lies
-- behind all of them.
pub hi_next-place :
    (n : HiNode) (aux : HiAux) (top idx : ℕ)
    → n.bitmap ≡ 0
    → Tiled 0 top aux.segs
    → top < 64
    → idx < 64
    → hi_next (hi_set_node n aux) idx ≡ place aux.segs idx
unfolding hi_next hi_set_node
hi_next-place n aux top idx empty t small near =
    rw (empty, bit_and_mask)
      (popcount-hi_set_bitmap 64 0 top idx 0 aux.segs t small (omega arith)
        ∙ rw (zero-mod, popcount-zero) (omega arith))

pub place-high :
    (n top x : ℕ) (segs : List Seg) → Tiled n top segs → top ≤ x → place segs x + 1 ≡ length segs
place-high n top x [] t le = absurd t
place-high n top x (g ∷ []) t le = omega arith
place-high n top x (g ∷ h ∷ segs) t le =
    let ih = place-high (g.last + 1) top x (h ∷ segs) t.2 le in
    let behind = Tiled-le (g.last + 1) top (h ∷ segs) t.2 in ground arith

-- Of a node that hi_set_node makes of one with an empty bitmap, with segments below 32, and that is
-- not a leaf, hi_count_childs counts one child less than there are.
pub hi_count_childs-hi_set_node :
    (n : HiNode) (aux : HiAux) (top : ℕ)
    → n.bitmap ≡ 0
    → Tiled 0 top aux.segs
    → top < 32
    → hi_count_childs false (hi_set_node n aux) + 1 ≡ length aux.segs
unfolding hi_count_childs hi_set_node
hi_count_childs-hi_set_node n aux top empty t small =
    let ones = popcount-hi_set_bitmap 32 0 top 32 0 aux.segs t small (omega arith) in
    let none_before : popcount 32 (0 % 2 ^ 32) ≡ 0 = rw zero-mod (popcount-zero 32) in
    rw empty (omega (arith, ones, none_before, place-high 0 top 32 aux.segs t (omega arith)))
