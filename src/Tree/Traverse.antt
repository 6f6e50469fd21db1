-- ===== src/Tree/Traverse.antt =====
-- split_traverse, hi_traverse and even_traverse: the children that `traverse` of cut.c goes to from a node,
-- as places in the array of its children.
pub mod Visited
mod Tests
use mathlib.Core.List.{map}
use choose_cut.Base.{ℕ, Option, some, none, List, [], ◌++◌, ◌>>=◌}
use choose_cut.Base.Visit.{visit_bits}
use choose_cut.Split.{SpNode, split_next}
use choose_cut.Hi.{HiNode, hi_next}
use choose_cut.MbNode.{MbNode}
use choose_cut.Bitmap.{next_inl, next_exl}

-- The shape has 8 bits, and the loop works on it as an `int`.
unfoldable pub split_traverse : SpNode → Option (List ℕ)
unfolding visit_bits
split_traverse n = do
  places ← visit_bits 32 33 n.shape 0
  some (map (λ idx. split_next n idx) places)

unfoldable pub hi_traverse : HiNode → Option (List ℕ)
unfolding visit_bits
hi_traverse n = do places ← visit_bits 64 65 n.bitmap 0; some (map (λ idx. hi_next n idx) places)

-- A child of `none` is a place before the array.
unfoldable pub even_traverse : MbNode → Option (List (Option ℕ))
unfolding visit_bits
even_traverse n = do
  inl_places ← visit_bits 64 65 n.internal 0
  exl_places ← visit_bits 64 65 n.external 0
  some (map (λ idx. next_inl n idx) inl_places ++ map (λ idx. next_exl n idx) exl_places)
