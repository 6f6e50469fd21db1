-- ===== src/Ranges/Unique.antt =====
-- unique_ranges on ranges that are sorted and weigh 1 each.
use choose_cut.Base.{
  ℕ, ◌+◌, ◌≡◌, refl, arith, inl, inr, Bool, true, false, some, List, [], ◌∷◌, All, if◌then◌else◌,
  Bool-cases,
}
use choose_cut.Ranges.{Range1d, same_range, overwrite, behind, unique_loop, unique_ranges}
use choose_cut.Ranges.Sort.{Before, Same, NotBehind, Ascending, IsSorted, weight_where}

abbrev pub WeighsOne : Range1d → Type 0
WeighsOne r = r.weight ≡ 1

-- Each range comes before the next one.
abbrev pub Rising : Range1d → List Range1d → Type 0
Rising a [] = Unit
Rising a (b ∷ rs) = Before a b × Rising b rs

abbrev pub IsRising : List Range1d → Type 0
IsRising [] = Unit
IsRising (r ∷ rs) = Rising r rs

same_range-Same : (a b : Range1d) → same_range a b ≡ true → Same a b
same_range-Same a b e = ground arith

same_range-Before : (a b : Range1d) → NotBehind a b → same_range b a ≡ false → Before a b
same_range-Before a b h e = ground arith

Ascending-Same : (a b : Range1d) (rs : List Range1d) → Same a b → Ascending a rs → Ascending b rs
Ascending-Same a b [] e asc = tt
Ascending-Same a b (r ∷ rs) e asc = (ground arith, asc.1)

overwrite-Same : (cells : List Range1d) (r : Range1d) → Same r (overwrite cells r)
overwrite-Same [] r = (refl, refl)
overwrite-Same (cell ∷ cells) r = (refl, refl)

Before-overwrite :
    (a r : Range1d) (cells : List Range1d) → Before a r → Before a (overwrite cells r)
Before-overwrite a r [] b = b
Before-overwrite a r (cell ∷ cells) b = b

abbrev more : Range1d → Range1d
more r = record r { weight = r.weight + 1 }

-- Another range with the bounds of the last cell, and one with other bounds.
unique_loop_same :
    (last : Range1d) (cells : List Range1d) (r : Range1d) (rs : List Range1d)
    → same_range r last ≡ true
    → unique_loop last cells (r ∷ rs) ≡ unique_loop (more last) cells rs
unfolding unique_loop
unique_loop_same last cells r rs e = rw (e, unique_loop)

unique_loop_new :
    (last : Range1d) (cells : List Range1d) (r : Range1d) (rs : List Range1d)
    → same_range r last ≡ false
    → unique_loop last cells (r ∷ rs) ≡ last ∷ unique_loop (overwrite cells r) (behind cells) rs
unfolding unique_loop
unique_loop_new last cells r rs e = rw (e, unique_loop)

unique_loop-Rising :
    (prev last : Range1d) (cells rs : List Range1d)
    → Before prev last
    → Ascending last rs
    → Rising prev (unique_loop last cells rs)
unique_loop-Rising prev last cells [] b asc = unfold unique_loop in (b, tt)
unique_loop-Rising prev last cells (r ∷ rs) b asc = elim (Bool-cases (same_range r last)) [
  | inl e ↦ rw (unique_loop_same last cells r rs e) (
      unique_loop-Rising prev (more last) cells rs b
        (Ascending-Same r (more last) rs (same_range-Same r last e) asc.1))
  | inr e ↦ rw (unique_loop_new last cells r rs e) (
    b,
    unique_loop-Rising last (overwrite cells r) (behind cells) rs
        (Before-overwrite last r cells (same_range-Before last r asc.0 e))
        (Ascending-Same r (overwrite cells r) rs (overwrite-Same cells r) asc.1),
  )
]

unique_loop-IsRising :
    (last : Range1d) (cells rs : List Range1d)
    → Ascending last rs
    → IsRising (unique_loop last cells rs)
unique_loop-IsRising last cells [] asc = unfold unique_loop in tt
unique_loop-IsRising last cells (r ∷ rs) asc = elim (Bool-cases (same_range r last)) [
  | inl e ↦ rw (unique_loop_same last cells r rs e) (
      unique_loop-IsRising (more last) cells rs
        (Ascending-Same r (more last) rs (same_range-Same r last e) asc.1))
  | inr e ↦ rw (unique_loop_new last cells r rs e) (
      unique_loop-Rising last (overwrite cells r) (behind cells) rs
        (Before-overwrite last r cells (same_range-Before last r asc.0 e))
        (Ascending-Same r (overwrite cells r) rs (overwrite-Same cells r) asc.1))
]

module _ (p : ℕ → ℕ → Bool) where
  abbrev weigh : Range1d → ℕ
  weigh r = if p r.low r.high then r.weight else 0

  weigh-more :
      (r last : Range1d)
      → same_range r last ≡ true
      → WeighsOne r
      → weigh (more last) ≡ weigh last + weigh r
  weigh-more r last e one = let (l, h) = same_range-Same r last e in rw (one, l, h) (ground arith)

  weigh-overwrite :
      (cells : List Range1d) (r : Range1d)
      → All WeighsOne cells
      → WeighsOne r
      → weigh (overwrite cells r) ≡ weigh r
  weigh-overwrite [] r ones one = refl
  weigh-overwrite (cell ∷ cells) r ones one = rw (ones.0, one)

  All-behind : (cells : List Range1d) → All WeighsOne cells → All WeighsOne (behind cells)
  All-behind [] ones = tt
  All-behind (cell ∷ cells) ones = ones.1

  weight_where-unique_loop :
      (last : Range1d) (cells rs : List Range1d)
      → All WeighsOne cells
      → All WeighsOne rs
      → weight_where p (unique_loop last cells rs) ≡ weigh last + weight_where p rs
  weight_where-unique_loop last cells [] ones rest = unfold unique_loop in refl
  weight_where-unique_loop last cells (r ∷ rs) ones rest = elim (Bool-cases (same_range r last)) [
    | inl e ↦ rw (unique_loop_same last cells r rs e) (
        omega (
          arith,
          weigh-more r last e rest.0,
          weight_where-unique_loop (more last) cells rs ones rest.1,
        ))
    | inr e ↦ rw (unique_loop_new last cells r rs e) (
        omega (
          arith,
          weigh-overwrite cells r ones rest.0,
          weight_where-unique_loop (overwrite cells r) (behind cells) rs (All-behind cells ones)
              rest.1,
        ))
  ]

-- Of sorted ranges that weigh 1 each, unique_ranges leaves every pair of bounds once, in
-- ascending order, and whatever bounds are asked for, they weigh together what they did.
pub unique_ranges-IsRising :
    (r : Range1d) (rs : List Range1d) (p : ℕ → ℕ → Bool)
    → IsSorted (r ∷ rs)
    → All WeighsOne (r ∷ rs)
    → (out : List Range1d) × (unique_ranges (r ∷ rs) ≡ some out)
      × IsRising out
      × (weight_where p out ≡ weight_where p (r ∷ rs))
unfolding unique_ranges
unique_ranges-IsRising r rs p sorted ones = (
  unique_loop r rs rs,
  refl,
  unique_loop-IsRising r rs rs sorted,
  weight_where-unique_loop p r rs rs ones.1 ones.1,
)

overwrite_All :
    (P : ℕ → ℕ → Type 0) (cells : List Range1d) (r : Range1d)
    → P r.low r.high
    → P (overwrite cells r).low (overwrite cells r).high
overwrite_All P [] r h = h
overwrite_All P (cell ∷ cells) r h = h

unique_loop-All :
    (P : ℕ → ℕ → Type 0) (last : Range1d) (cells rs : List Range1d)
    → P last.low last.high
    → All (λ r. P r.low r.high) rs
    → All (λ r. P r.low r.high) (unique_loop last cells rs)
unique_loop-All P last cells [] h all = unfold unique_loop in (h, tt)
unique_loop-All P last cells (r ∷ rs) h all = elim (Bool-cases (same_range r last)) [
  | inl e ↦ rw (unique_loop_same last cells r rs e) (unique_loop-All P (more last) cells rs h all.1)
  | inr e ↦ rw (unique_loop_new last cells r rs e) (
    h,
    unique_loop-All P (overwrite cells r) (behind cells) rs (overwrite_All P cells r all.0) all.1,
  )
]

-- The result as one list, for every test of the bounds.
pub record Merged (ranges : List Range1d) : Type 1 where
  pub out : List Range1d
  pub run : unique_ranges ranges ≡ some out
  pub rising : IsRising out
  pub weights : (p : ℕ → ℕ → Bool) → weight_where p out ≡ weight_where p ranges
  pub bounds :
      (P : ℕ → ℕ → Type 0) → All (λ r. P r.low r.high) ranges → All (λ r. P r.low r.high) out

pub unique_ranges-Merged :
    (r : Range1d) (rs : List Range1d) → IsSorted (r ∷ rs) → All WeighsOne (r ∷ rs) → Merged (r ∷ rs)
unfolding unique_ranges
unique_ranges-Merged r rs sorted ones = record {
  out = unique_loop r rs rs;
  run = refl;
  rising = unique_loop-IsRising r rs rs sorted;
  weights = λ p. weight_where-unique_loop p r rs rs ones.1 ones.1;
  bounds = λ P all. unique_loop-All P r rs rs all.0 all.1;
}
