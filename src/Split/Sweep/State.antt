-- ===== src/Split/Sweep/State.antt =====
-- What the sweep knows between its steps, and what it computes at a cut.
use choose_cut.Base.{
  ℕ, ◌+◌, ◌^◌, ◌≤◌, ◌<◌, ◌≡◌, refl, arith, ◌⊎◌, inl, inr, Bool, true, false, List, [], ◌∷◌, All,
  All-map, ltb, leb, Bool-cases, add32, sub32,
}
use choose_cut.Ranges.{Range1d}
use choose_cut.Ranges.Sort.{weight_where}
use choose_cut.Double.{Doubles}
use choose_cut.Split.Sweep.{
  Best, Sweep, add_weights, consider, find_min_me_do, split_match_expect_heuristic,
}
use choose_cut.Split.Sweep.Pops.{all, add_weights-weight_where}

-- The ranges that begin at or before a number, and those that end behind it.
abbrev pub begun : ℕ → ℕ → ℕ → Bool
begun e low high = leb low e

abbrev pub reaching : ℕ → ℕ → ℕ → Bool
reaching e low high = ltb e high

pub weight_where-true :
    (p : ℕ → ℕ → Bool) (rs : List Range1d)
    → All (λ r. p r.low r.high ≡ true) rs
    → weight_where p rs ≡ weight_where all rs
weight_where-true p [] h = refl
weight_where-true p (r ∷ rs) h = rw (h.0, weight_where-true p rs h.1) refl

pub weight_where-false :
    (p : ℕ → ℕ → Bool) (rs : List Range1d)
    → All (λ r. p r.low r.high ≡ false) rs
    → weight_where p rs ≡ 0
weight_where-false p [] h = refl
weight_where-false p (r ∷ rs) h = rw (h.0, weight_where-false p rs h.1) refl

-- The ranges that have left the heap, those in it and those to come lie on their sides of a cut.
pub record Divides (e : ℕ) (ended heap rest : List Range1d) : Type 0 where
  pub ended_begun : All (λ r. r.low ≤ e) ended
  pub ended_before : All (λ r. r.high ≤ e) ended
  pub heap_begun : All (λ r. r.low ≤ e) heap
  pub heap_behind : All (λ r. e < r.high) heap
  pub rest_behind : All (λ r. (e < r.low) × (e < r.high)) rest

-- All ranges, in these three lists.
abbrev pub Parts : List Range1d → List Range1d → List Range1d → List Range1d → Type 0
Parts ranges ended heap rest =
    (p : ℕ → ℕ → Bool)
    → weight_where p ranges ≡ weight_where p ended + weight_where p heap + weight_where p rest

module _ (F : Doubles) (ranges : List Range1d) (count : ℕ) (word : count < 2 ^ 32)
    (total : weight_where all ranges ≡ count) where
  open F use {from_int}

  -- The weights that are kept are those at the cut that is kept, with their expectation, or no cut has been found yet.
  abbrev pub IsCutAt : Best F → Type 0
  IsCutAt b =
      (b.weight0 ≡ weight_where (begun b.split) ranges)
      × (b.weight1 ≡ weight_where (reaching b.split) ranges)
      × (b.split + 1 < 2 ^ 32)
      × (b.min_me ≡ split_match_expect_heuristic F b.weight0 b.weight1)

  abbrev pub IsGood : Best F → Type 0
  IsGood b = (b.min_me ≡ from_int count) ⊎ IsCutAt b

  module _ (e : ℕ) (ended heap rest : List Range1d) (d : Divides e ended heap rest)
      (parts : Parts ranges ended heap rest) where
    weight_begun : weight_where all ended + weight_where all heap ≡ weight_where (begun e) ranges
    weight_begun = omega (
      arith,
      parts (begun e),
      weight_where-true (begun e) ended (All-map ended (λ r le. ground arith) d.ended_begun),
      weight_where-true (begun e) heap (All-map heap (λ r le. ground arith) d.heap_begun),
      weight_where-false (begun e) rest (All-map rest (λ r lt. ground arith) d.rest_behind),
    )

    weight_reaching :
        weight_where all heap + weight_where all rest ≡ weight_where (reaching e) ranges
    weight_reaching = omega (
      arith,
      parts (reaching e),
      weight_where-false (reaching e) ended (All-map ended (λ r le. ground arith) d.ended_before),
      weight_where-true (reaching e) heap (All-map heap (λ r lt. ground arith) d.heap_behind),
      weight_where-true (reaching e) rest (All-map rest (λ r lt. ground arith) d.rest_behind),
    )

    -- A cut that is tried keeps what is kept good.
    pub consider-IsGood :
        (st : Sweep F)
        → st.heap ≡ heap
        → st.left ≡ weight_where all ended
        → e + 1 < 2 ^ 32
        → IsGood st.best
        → IsGood (consider F count e st).best
    unfolding consider find_min_me_do
    consider-IsGood st same left small good =
        let sum = parts all in
        let dup : add_weights 0 st.heap ≡ weight_where all heap =
          rw same (omega (arith, add_weights-weight_where 0 heap (omega arith))) in
        let w0 : add32 st.left (add_weights 0 st.heap) ≡ weight_where (begun e) ranges =
          omega (arith, dup, weight_begun) in
        let w1 : sub32 count st.left ≡ weight_where (reaching e) ranges =
          omega (arith, weight_reaching) in
        elim (Bool-cases (
          F.less
            (split_match_expect_heuristic F (add32 st.left (add_weights 0 st.heap))
              (sub32 count st.left))
            st.best.min_me)) [
              | inl better ↦ rw better (inr (w0, w1, small, refl))
              | inr worse ↦ rw worse good
            ]
