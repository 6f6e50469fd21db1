-- ===== src/Heap.antt =====
-- The heap that the sweeps use, of ccan: an interface. The program reads `len` and `data` of the
-- struct, so a heap is the list of its items, the one that heap_peek gives first.
pub mod Contents
pub mod Sorted
use mathlib.Core.List.{Permᴰ}
use choose_cut.Base.{◌≡◌, false, List, [], ◌∷◌, All}
use choose_cut.Ranges.{Range1d, aux_heap_less}

-- `heap_push` with enough memory, and `heap_pop` of a heap that is not empty.
pub record HeapOps : Type 0 where
  pub heap_push : List Range1d → Range1d → List Range1d
  pub heap_pop : List Range1d → List Range1d

-- What the documentation promises of a heap that is made with `aux_heap_less`.
pub record IsLawful (H : HeapOps) : Type 1 where
  pub IsHeap : List Range1d → Type 0
  pub IsHeap-empty : IsHeap []
  pub IsHeap-push : (h : List Range1d) (r : Range1d) → IsHeap h → IsHeap (H.heap_push h r)
  pub IsHeap-pop :
      (top : Range1d) (rest : List Range1d) → IsHeap (top ∷ rest) → IsHeap (H.heap_pop (top ∷ rest))
  pub push_perm : (h : List Range1d) (r : Range1d) → Permᴰ (H.heap_push h r) (r ∷ h)
  pub pop_perm :
      (top : Range1d) (rest : List Range1d)
      → IsHeap (top ∷ rest)
      → Permᴰ (H.heap_pop (top ∷ rest)) rest
  pub root_least :
      (top : Range1d) (rest : List Range1d)
      → IsHeap (top ∷ rest)
      → All (λ r. aux_heap_less r top ≡ false) rest
