-- ===== src/Heap/Contents.antt =====
-- What a permutation of the items keeps.
use mathlib.Core.List.Permᴰ
use mathlib.Core.List.{Permᴰ}
use choose_cut.Base.{
  ℕ, ◌≡◌, ◌≤◌, refl, ◌∙◌, subst, arith, Bool, false, List, ◌∷◌, All, All-map, length,
}
use choose_cut.Ranges.{Range1d, aux_heap_less}
use choose_cut.Ranges.Sort.{weight_where}
use choose_cut.Heap.{HeapOps, IsLawful}

pub weight_where-perm :
    (p : ℕ → ℕ → Bool) (xs ys : List Range1d) → Permᴰ xs ys → weight_where p xs ≡ weight_where p ys
weight_where-perm p _ _ Permᴰ.nil = refl
weight_where-perm p _ _ (Permᴰ.cons {b = b} {l₁ = xs} {l₂ = ys} e q) =
    rw (e, weight_where-perm p xs ys q)
weight_where-perm p _ _ (Permᴰ.swap e f) = rw (e, f) (omega arith)
weight_where-perm p xs ys (Permᴰ.trans {l₂ = zs} q r) =
    weight_where-perm p xs zs q ∙ weight_where-perm p zs ys r

pub length-perm : (xs ys : List Range1d) → Permᴰ xs ys → length xs ≡ length ys
length-perm _ _ Permᴰ.nil = refl
length-perm _ _ (Permᴰ.cons {l₁ = xs} {l₂ = ys} e q) = omega (arith, length-perm xs ys q)
length-perm _ _ (Permᴰ.swap e f) = refl
length-perm xs ys (Permᴰ.trans {l₂ = zs} q r) = length-perm xs zs q ∙ length-perm zs ys r

pub All-perm : (P : Range1d → Type 0) (xs ys : List Range1d) → Permᴰ xs ys → All P xs → All P ys
All-perm P _ _ Permᴰ.nil h = h
All-perm P _ _ (Permᴰ.cons {l₁ = xs} {l₂ = ys} e q) h = (subst P e h.0, All-perm P xs ys q h.1)
All-perm P _ _ (Permᴰ.swap e f) h = (subst P f h.1.0, (subst P e h.0, h.1.1))
All-perm P xs ys (Permᴰ.trans {l₂ = zs} q r) h = All-perm P zs ys r (All-perm P xs zs q h)

not_less : (r top : Range1d) → aux_heap_less r top ≡ false → top.high ≤ r.high
unfolding aux_heap_less
not_less r top e = ground arith

module _ (H : HeapOps) (law : IsLawful H) where
  open H use {heap_push, heap_pop}

  pub All-push :
      (P : Range1d → Type 0) (h : List Range1d) (r : Range1d)
      → P r
      → All P h
      → All P (heap_push h r)
  All-push P h r here all =
      All-perm P (r ∷ h) (heap_push h r) (Permᴰ.symm (law.push_perm h r)) (here, all)

  module _ (top : Range1d) (rest : List Range1d) (is_heap : law.IsHeap (top ∷ rest)) where
    pub All-pop : (P : Range1d → Type 0) → All P rest → All P (heap_pop (top ∷ rest))
    All-pop P all =
        All-perm P rest (heap_pop (top ∷ rest)) (Permᴰ.symm (law.pop_perm top rest is_heap)) all

    -- No item ends before the first.
    pub least : All (λ r. top.high ≤ r.high) rest
    least = All-map rest (λ r e. not_less r top e) (law.root_least top rest is_heap)
