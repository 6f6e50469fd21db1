-- ===== src/Ranges/Sort.antt =====
-- The order of `_range_compare`, and sorting by it.
use choose_cut.Base.{
  ℕ, ◌+◌, ◌<◌, ◌≡◌, refl, arith, ◌⊎◌, ◌↔◌, inl, inr, Bool, true, false, List, [], ◌∷◌, All,
  if◌then◌else◌, Bool-cases,
}
use choose_cut.Base.Int.{pos, negsuc}
use choose_cut.Ranges.{Range1d, range_compare, is_pos, insert, sort_ranges}

-- By the lower bounds, and by the upper ones where those are equal.
abbrev pub Before : Range1d → Range1d → Type 0
Before a b = (a.low < b.low) ⊎ ((a.low ≡ b.low) × (a.high < b.high))

abbrev pub Same : Range1d → Range1d → Type 0
Same a b = (a.low ≡ b.low) × (a.high ≡ b.high)

-- `_range_compare` orders ranges by the lower bounds and then the upper: it answers 0 exactly on
-- equal bounds, -1 exactly if the first comes before, 1 exactly if it comes behind.
pub range_compare_order :
    (a b : Range1d)
    → ((range_compare a b ≡ pos 0) ↔ Same a b)
      × ((range_compare a b ≡ negsuc 0) ↔ Before a b)
      × ((range_compare a b ≡ pos 1) ↔ Before b a)
unfolding range_compare
range_compare_order a b =
    ((ground arith, ground arith), (ground arith, ground arith), (ground arith, ground arith))

is_pos-Before : (a b : Range1d) → is_pos (range_compare a b) ≡ true → Before b a
unfolding range_compare
is_pos-Before a b e = ground arith

-- Before, or with the same bounds.
abbrev pub NotBehind : Range1d → Range1d → Type 0
NotBehind a b = Before a b ⊎ Same a b

is_pos-NotBehind : (a b : Range1d) → is_pos (range_compare a b) ≡ false → NotBehind a b
unfolding range_compare
is_pos-NotBehind a b e = ground arith

-- Each range comes before the next one, or has the same bounds.
abbrev pub Ascending : Range1d → List Range1d → Type 0
Ascending a [] = Unit
Ascending a (b ∷ rs) = NotBehind a b × Ascending b rs

abbrev pub IsSorted : List Range1d → Type 0
IsSorted [] = Unit
IsSorted (r ∷ rs) = Ascending r rs

-- The total weight of the ranges whose bounds pass a test.
abbrev pub weight_where : (ℕ → ℕ → Bool) → List Range1d → ℕ
weight_where p [] = 0
weight_where p (r ∷ rs) = (if p r.low r.high then r.weight else 0) + weight_where p rs

weight_where-insert :
    (p : ℕ → ℕ → Bool) (r : Range1d) (rs : List Range1d)
    → weight_where p (insert r rs) ≡ weight_where p (r ∷ rs)
unfolding insert
weight_where-insert p r [] = refl
weight_where-insert p r (s ∷ rs) = ground (arith, weight_where-insert p r rs)

pub weight_where-sort_ranges :
    (p : ℕ → ℕ → Bool) (rs : List Range1d) → weight_where p (sort_ranges rs) ≡ weight_where p rs
unfolding sort_ranges
weight_where-sort_ranges p [] = refl
weight_where-sort_ranges p (r ∷ rs) =
    ground (arith, weight_where-insert p r (sort_ranges rs), weight_where-sort_ranges p rs)

insert-Ascending :
    (a r : Range1d) (rs : List Range1d) → NotBehind a r → Ascending a rs → Ascending a (insert r rs)
unfolding insert
insert-Ascending a r [] le asc = (le, tt)
insert-Ascending a r (s ∷ rs) le asc = elim (Bool-cases (is_pos (range_compare r s))) [
  | inl p ↦ rw p (asc.0, insert-Ascending s r rs (inl (is_pos-Before r s p)) asc.1)
  | inr n ↦ rw n (le, (is_pos-NotBehind r s n, asc.1))
]

insert-IsSorted : (r : Range1d) (rs : List Range1d) → IsSorted rs → IsSorted (insert r rs)
unfolding insert
insert-IsSorted r [] asc = tt
insert-IsSorted r (s ∷ rs) asc = elim (Bool-cases (is_pos (range_compare r s))) [
  | inl p ↦ rw p (insert-Ascending s r rs (inl (is_pos-Before r s p)) asc)
  | inr n ↦ rw n (is_pos-NotBehind r s n, asc)
]

pub sort_ranges-IsSorted : (rs : List Range1d) → IsSorted (sort_ranges rs)
unfolding sort_ranges
sort_ranges-IsSorted [] = tt
sort_ranges-IsSorted (r ∷ rs) = insert-IsSorted r (sort_ranges rs) (sort_ranges-IsSorted rs)

insert-All :
    (P : Range1d → Type 0) (r : Range1d) (rs : List Range1d) → P r → All P rs → All P (insert r rs)
unfolding insert
insert-All P r [] h all = (h, tt)
insert-All P r (s ∷ rs) h all = elim (Bool-cases (is_pos (range_compare r s))) [
  | inl p ↦ rw p (all.0, insert-All P r rs h all.1)
  | inr n ↦ rw n (h, all)
]

pub sort_ranges-All : (P : Range1d → Type 0) (rs : List Range1d) → All P rs → All P (sort_ranges rs)
unfolding sort_ranges
sort_ranges-All P [] all = tt
sort_ranges-All P (r ∷ rs) all = insert-All P r (sort_ranges rs) all.0 (sort_ranges-All P rs all.1)
