-- ===== src/Split/Sweep/Whole.antt =====
-- The whole sweep.
use choose_cut.Base.{
  ℕ, zero, suc, ◌+◌, ◌^◌, ◌≤◌, ◌<◌, ◌≡◌, refl, ◌∙◌, ap, arith, inl, inr, true, false, some, List,
  [], ◌∷◌, All, All-map, ltb, leb, if◌then◌else◌, length, Bool-cases,
}
use choose_cut.Ranges.{Range1d}
use choose_cut.Ranges.Sort.{weight_where}
use choose_cut.Ranges.Unique.{Rising}
use choose_cut.Heap.{HeapOps, IsLawful}
use choose_cut.Double.{Doubles}
use choose_cut.Split.Sweep.{Sweep, consider, pass_end, sweep_ranges, sweep_rest}
use choose_cut.Split.Sweep.Pops.{all}
use choose_cut.Split.Sweep.State.{Divides}
use choose_cut.Split.Sweep.Ends.{pass_end-Passed, end_Divides, consider-IsSwept}
use choose_cut.Split.Sweep.Steps.{List-cases, Swept, consider_same, sweep_range-Ranged}

-- The lower bounds do not go down.
abbrev pub LowsRise : List Range1d → Type 0
LowsRise [] = Unit
LowsRise (r ∷ rs) = All (λ x. r.low ≤ x.low) rs × LowsRise rs

Rising-low : (a : Range1d) (rs : List Range1d) → Rising a rs → All (λ x. a.low ≤ x.low) rs
Rising-low a [] rise = tt
Rising-low a (b ∷ rs) rise =
    (ground (arith, rise.0), All-map rs (λ x le. ground (arith, rise.0)) (Rising-low b rs rise.1))

pub Rising-LowsRise : (a : Range1d) (rs : List Range1d) → Rising a rs → LowsRise (a ∷ rs)
Rising-LowsRise a [] rise = (tt, tt)
Rising-LowsRise a (b ∷ rs) rise = (Rising-low a (b ∷ rs) rise, Rising-LowsRise b rs rise.1)

module _ (F : Doubles) (H : HeapOps) (law : IsLawful H) (ranges : List Range1d) (count : ℕ)
    (word : count < 2 ^ 32) (total : weight_where all ranges ≡ count) where
  abbrev Done : List Range1d → List Range1d → ℕ → Sweep F → Type 0
  Done = Swept F H law ranges count word total

  pub record AllRanged (rs : List Range1d) (st : Sweep F) : Type 0 where
    pub next : Sweep F
    pub ended' : List Range1d
    pub b' : ℕ
    pub run : sweep_ranges F H count rs st ≡ some next
    pub swept : Done ended' [] b' next

  pub sweep_ranges-AllRanged :
      (rs ended : List Range1d) (b : ℕ) (st : Sweep F)
      → Done ended rs b st
      → All (λ r. b ≤ r.low) rs
      → LowsRise rs
      → AllRanged rs st
  unfolding sweep_ranges
  sweep_ranges-AllRanged [] ended b st i le rise = record {
    next = st;
    ended' = ended;
    b' = b;
    run = refl;
    swept = i;
  }
  sweep_ranges-AllRanged (r ∷ rs) ended b st i le rise =
      let p = sweep_range-Ranged F H law ranges count word total ended rs b st r i le.0 rise.0 in
      let q =
        sweep_ranges-AllRanged rs p.ended' p.b' p.next p.swept
          (All-map rs (λ x low. omega (arith, p.bounded)) rise.0) rise.1 in
      record { next = q.next; ended' = q.ended'; b' = q.b'; run = rw p.run q.run; swept = q.swept }

  -- One round of the loop over the ends that are left.
  rest_stop :
      (fuel : ℕ) (st : Sweep F) → length st.heap ≤ 1 → sweep_rest F H (suc fuel) count st ≡ some st
  unfolding sweep_rest
  rest_stop fuel st few = elim (List-cases st.heap) [
    | inl e ↦ rw (e, sweep_rest) (ap (λ h. some (record st { heap = h })) e)
    | inr (top, others, e) ↦
        let stop : ltb 1 (length st.heap) ≡ false = ground arith in
        rw (e, sweep_rest) (rw stop (ap (λ h. some (record st { heap = h })) e))
  ]

  abbrev tried : Sweep F → ℕ → Sweep F
  tried st e = if ltb 0 (length st.heap) then consider F count e st else st

  rest_pass :
      (fuel : ℕ) (st : Sweep F) (top : Range1d) (others : List Range1d) (next : Sweep F)
      → st.heap ≡ top ∷ others
      → 1 < length st.heap
      → pass_end F H top.high st ≡ some next
      → sweep_rest F H (suc fuel) count st ≡ sweep_rest F H fuel count (tried next top.high)
  unfolding sweep_rest
  rest_pass fuel st top others next e many run =
      let more : ltb 1 (length st.heap) ≡ true = ground arith in
      rw (e, sweep_rest) (rw (more, run) refl)

  first_small :
      (h : List Range1d) (e : ℕ)
      → 0 < length h
      → All (λ r. e + 1 ≤ r.high) h
      → All (λ r. r.high < 2 ^ 32) h
      → e + 1 < 2 ^ 32
  first_small [] e some_left behind small = absurd (omega arith)
  first_small (r ∷ h) e some_left behind small = omega (arith, behind.0, small.0)

  tried_swept :
      (ended : List Range1d) (e : ℕ) (st : Sweep F)
      → Done ended [] (e + 1) st
      → Divides e ended st.heap []
      → Done ended [] (e + 1) (tried st e) × ((tried st e).heap ≡ st.heap)
  tried_swept ended e st i d = elim (Bool-cases (ltb 0 (length st.heap))) [
    | inl left ↦ rw left (
      consider-IsSwept F H law ranges count word total e ended [] (e + 1) st i d
          (first_small st.heap e (ground arith) i.heap_high i.heap_word),
      (consider_same F H law ranges count word total e st).0,
    )
    | inr none_left ↦ rw none_left (i, refl)
  ]

  pub record Rested (st : Sweep F) (fuel : ℕ) : Type 0 where
    pub next : Sweep F
    pub ended' : List Range1d
    pub b' : ℕ
    pub run : sweep_rest F H fuel count st ≡ some next
    pub swept : Done ended' [] b' next
    pub few : length next.heap ≤ 1

  pub sweep_rest-Rested :
      (fuel : ℕ) (ended : List Range1d) (b : ℕ) (st : Sweep F)
      → length st.heap < fuel
      → Done ended [] b st
      → Rested st fuel
  sweep_rest-Rested zero ended b st enough i = absurd (omega arith)
  sweep_rest-Rested (suc fuel) ended b st enough i = elim (Bool-cases (leb (length st.heap) 1)) [
    | inl few ↦ record {
      next = st;
      ended' = ended;
      b' = b;
      run = rest_stop fuel st (ground arith);
      swept = i;
      few = ground arith;
    }
    | inr many ↦ elim (List-cases st.heap) [
      | inl e ↦ absurd (let many' = rw e at many in ground arith)
      | inr (top, others, e) ↦
          let p = pass_end-Passed F H law ranges count word total ended [] b st top others i e in
          let d = end_Divides F H law ranges count word total ended [] b st top others i e p tt in
          let t = tried_swept p.ended' top.high p.next p.swept d in
          let ih =
            sweep_rest-Rested fuel p.ended' (top.high + 1) (tried p.next top.high)
              (omega (arith, ap length t.1, p.fewer)) t.0 in
          record {
            next = ih.next;
            ended' = ih.ended';
            b' = ih.b';
            run = rest_pass fuel st top others p.next e (ground arith) p.run ∙ ih.run;
            swept = ih.swept;
            few = ih.few;
          }
    ]
  ]
