-- ===== src/Ranges.antt =====
-- `struct range1d` of rule.h with _range_compare and unique_ranges of rule.c, aux_heap_less of
-- cut-inl.c, and the C library's qsort where the program calls it.
pub mod Sort
pub mod Unique
mod Tests
use choose_cut.Base.{
  ℕ, zero, suc, ◌+◌, Bool, true, false, ◌&&◌, ◌||◌, not, List, [], ◌∷◌, Option, none, some, ltb,
  ◌==◌, if◌then◌else◌,
}
use choose_cut.Base.Int.{ℤ, pos, negsuc}

pub record Range1d : Type 0 where
  pub low : ℕ
  pub high : ℕ
  pub weight : ℕ

unfoldable pub range_compare : Range1d → Range1d → ℤ
range_compare a b =
    if not (a.low == b.low)
    then (if ltb a.low b.low then negsuc 0 else pos 1)
    else if not (a.high == b.high)
    then (if ltb a.high b.high then negsuc 0 else pos 1)
    else pos 0

unfoldable pub aux_heap_less : Range1d → Range1d → Bool
aux_heap_less a b = ltb a.high b.high

abbrev pub is_pos : ℤ → Bool
is_pos (pos zero) = false
is_pos (pos (suc n)) = true
is_pos (negsuc n) = false

pub insert : Range1d → List Range1d → List Range1d
insert r [] = r ∷ []
insert r (s ∷ rs) =
    let rest = insert r rs in if is_pos (range_compare r s) then s ∷ rest else r ∷ s ∷ rs

-- `qsort` with `_range_compare`.
unfoldable pub sort_ranges : List Range1d → List Range1d
unfolding insert range_compare
sort_ranges [] = []
sort_ranges (r ∷ rs) = insert r (sort_ranges rs)

abbrev pub same_range : Range1d → Range1d → Bool
same_range a b = not (not (a.low == b.low) || not (a.high == b.high))

-- A cell that is overwritten takes the bounds of `r` and keeps its own weight.
abbrev pub overwrite : List Range1d → Range1d → Range1d
overwrite [] r = r
overwrite (cell ∷ cells) r = record r { weight = cell.weight }

abbrev pub behind : List Range1d → List Range1d
behind [] = []
behind (cell ∷ cells) = cells

-- The loop of `unique_ranges`: `last` is the cell at `unique_num - 1`, `cells` are those from
-- `unique_num` on, and the third argument those from `i` on. The result is the cells that count.
pub unique_loop : Range1d → List Range1d → List Range1d → List Range1d
unique_loop last cells [] = last ∷ []
unique_loop last cells (r ∷ rs) = elim (same_range r last) [
  | true ↦ unique_loop (record last { weight = last.weight + 1 }) cells rs
  | false ↦ last ∷ unique_loop (overwrite cells r) (behind cells) rs
]

-- Of no ranges at all `unique_ranges` counts one, though none is stored: that is the `none`.
unfoldable pub unique_ranges : List Range1d → Option (List Range1d)
unfolding unique_loop
unique_ranges [] = none
unique_ranges (r ∷ rs) = some (unique_loop r rs rs)
