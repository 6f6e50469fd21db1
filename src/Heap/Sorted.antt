-- ===== src/Heap/Sorted.antt =====
-- A heap that meets the interface: a list in the order of the upper bounds.
use mathlib.Core.List.Permᴰ
use mathlib.Core.List.{Permᴰ}
use choose_cut.Base.{
  ◌≡◌, ◌≤◌, refl, arith, inl, inr, false, List, [], ◌∷◌, All, All-map, leb, if◌then◌else◌,
  Bool-cases,
}
use choose_cut.Ranges.{Range1d, aux_heap_less}
use choose_cut.Heap.{HeapOps, IsLawful}

put : List Range1d → Range1d → List Range1d
put [] r = r ∷ []
put (s ∷ h) r = let rest = put h r in if leb s.high r.high then s ∷ rest else r ∷ s ∷ h

abbrev tail : List Range1d → List Range1d
tail [] = []
tail (r ∷ h) = h

unfoldable pub sorted_heap : HeapOps
unfolding put
sorted_heap = record { heap_push = put; heap_pop = tail }

abbrev InOrder : List Range1d → Type 0
InOrder [] = Unit
InOrder (r ∷ h) = All (λ s. r.high ≤ s.high) h × InOrder h

put_All : (P : Range1d → Type 0) (h : List Range1d) (r : Range1d) → P r → All P h → All P (put h r)
unfolding put
put_All P [] r here all = (here, tt)
put_All P (s ∷ h) r here all = elim (Bool-cases (leb s.high r.high)) [
  | inl behind ↦ rw behind (all.0, put_All P h r here all.1)
  | inr before ↦ rw before (here, all)
]

put-InOrder : (h : List Range1d) (r : Range1d) → InOrder h → InOrder (put h r)
unfolding put
put-InOrder [] r o = (tt, tt)
put-InOrder (s ∷ h) r o = elim (Bool-cases (leb s.high r.high)) [
  | inl behind ↦
      rw behind (put_All (λ t. s.high ≤ t.high) h r (ground arith) o.0, put-InOrder h r o.1)
  | inr before ↦ rw before ((ground arith, All-map h (λ t le. ground arith) o.0), o)
]

put-perm : (h : List Range1d) (r : Range1d) → Permᴰ (put h r) (r ∷ h)
unfolding put
put-perm [] r = Permᴰ.cons refl Permᴰ.nil
put-perm (s ∷ h) r = elim (Bool-cases (leb s.high r.high)) [
  | inl behind ↦ rw behind (Permᴰ.trans (Permᴰ.cons refl (put-perm h r)) (Permᴰ.swap refl refl))
  | inr before ↦ rw before (Permᴰ.refl (r ∷ s ∷ h))
]

root_not_less :
    (top : Range1d) (rest : List Range1d)
    → InOrder (top ∷ rest)
    → All (λ r. aux_heap_less r top ≡ false) rest
unfolding aux_heap_less
root_not_less top rest o = All-map rest (λ r le. ground arith) o.0

pub sorted_heap-IsLawful : IsLawful sorted_heap
unfolding sorted_heap
sorted_heap-IsLawful = record {
  IsHeap = InOrder;
  IsHeap-empty = tt;
  IsHeap-push = λ h r o. put-InOrder h r o;
  IsHeap-pop = λ top rest o. o.1;
  push_perm = put-perm;
  pop_perm = λ top rest o. Permᴰ.refl rest;
  root_least = root_not_less;
}
