-- ===== src/Hi/Sweep/State.antt =====
-- What the sweep over the segments knows between its steps, and the step at the end of a segment.
use native.Mathlib.Nat.{mul-le-mul_right}
use choose_cut.Base.{
  ℕ, zero, suc, ◌+◌, ◌*◌, ◌^◌, ◌≤◌, ◌<◌, ◌≡◌, refl, ◌∙◌, subst, arith, inl, inr, Bool, true, false,
  ◌&&◌, some, List, [], ◌∷◌, ◌++◌, All, All-map, All-append, ltb, leb, if◌then◌else◌, length,
  Bool-cases, add32, add64,
}
use choose_cut.Ranges.{Range1d}
use choose_cut.Ranges.Sort.{weight_where}
use choose_cut.Heap.{HeapOps, IsLawful}
use choose_cut.Split.Sweep.{add_weights}
use choose_cut.Split.Sweep.Pops.{all, add_weights-weight_where}
use choose_cut.Split.Sweep.State.{Parts, weight_where-true, weight_where-false}
use choose_cut.Split.Sweep.Ends.{weight_where-append}
use choose_cut.Split.Sweep.Whole.{LowsRise}
use choose_cut.Hi.{Seg}
use choose_cut.Hi.Segments.{Tiled}
use choose_cut.Hi.Sweep.{HiSweep, hi_child, hi_segment, add_child, update_last}
use choose_cut.Hi.Sweep.Numbers.{place_of, test_place}
use choose_cut.Hi.Sweep.Children.{Grown, one, add_child-Grown, update_last-Stretched}
use choose_cut.Hi.Sweep.Pops.{Below, pop_below-Below}

pub weight_where-same :
    (p q : ℕ → ℕ → Bool) (rs : List Range1d)
    → All (λ r. p r.low r.high ≡ q r.low r.high) rs
    → weight_where p rs ≡ weight_where q rs
weight_where-same p q [] h = refl
weight_where-same p q (r ∷ rs) h = rw (h.0, weight_where-same p q rs h.1) refl

pub All-both :
    (P Q R : Range1d → Type 0) (rs : List Range1d)
    → ((r : Range1d) → P r → Q r → R r)
    → All P rs
    → All Q rs
    → All R rs
All-both P Q R [] f p q = tt
All-both P Q R (r ∷ rs) f p q = (f r p.0 q.0, All-both P Q R rs f p.1 q.1)

-- The ranges that reach into the segments from `f` to `l`.
abbrev pub touches : ℕ → ℕ → ℕ → ℕ → ℕ → ℕ → Bool
touches start size f l low high =
    leb (place_of start size low) l && leb f (place_of start size high)

-- The numbers of the sweep.
pub record IsFrame (start size : ℕ) : Type 0 where
  pub wide : 0 < size
  pub small : start + 65 * size < 2 ^ 64

module _ (H : HeapOps) (law : IsLawful H) (start size : ℕ) (frame : IsFrame start size) (div : ℕ)
    (ranges : List Range1d) (word : weight_where all ranges < 2 ^ 32) where
  abbrev place : ℕ → ℕ
  place x = place_of start size x

  -- A child counts the ranges that reach into its segments.
  abbrev pub Counts : ℕ → ℕ → ℕ → Type 0
  Counts f l c = c ≡ weight_where (touches start size f l) ranges

  abbrev pub IsIn : Range1d → Type 0
  IsIn r = (start ≤ r.low) × (r.low ≤ r.high) × (r.high < 2 ^ 32) × (place r.high < div)

  -- In segment `k`: the ranges that have ended in the segments before, those in the heap, and those that
  -- wait.
  pub record IsHiSwept (ended : List Range1d) (k : ℕ) (st : HiSweep) : Type 0 where
    pub is_heap : law.IsHeap st.heap
    pub parts : Parts ranges ended st.heap st.waiting
    pub curr : st.curr ≡ start + suc k * size
    pub ended_high : All (λ r. place r.high < k) ended
    pub ended_low : All (λ r. place r.low < k) ended
    pub heap_high : All (λ r. k ≤ place r.high) st.heap
    pub heap_low : All (λ r. place r.low ≤ k) st.heap
    pub heap_word : All IsIn st.heap
    pub waiting_low : All (λ r. k ≤ place r.low) st.waiting
    pub waiting_word : All IsIn st.waiting
    pub rises : LowsRise st.waiting
    pub fresh :
        (if st.new_start then true else st.prev_new_ends) ≡ false
        → (0 < k) × All (λ r. place r.low < k) st.heap
    pub grown : Grown k st.segs
    pub counts : All (λ g. Counts g.first g.last g.count) st.segs

  -- Where no range begins behind segment `l`, up to `l'`, the counts stay.
  pub same_counts :
      (l l' f c : ℕ) (ended heap waiting : List Range1d)
      → Parts ranges ended heap waiting
      → All (λ r. leb (place r.low) l ≡ leb (place r.low) l') ended
      → All (λ r. leb (place r.low) l ≡ leb (place r.low) l') heap
      → All (λ r. leb (place r.low) l ≡ leb (place r.low) l') waiting
      → Counts f l c
      → Counts f l' c
  same_counts l l' f c ended heap waiting parts e h w count =
      let p = touches start size f l in
      let q = touches start size f l' in
      let same =
        λ (rs : List Range1d) (s : All (λ r. leb (place r.low) l ≡ leb (place r.low) l') rs).
          weight_where-same p q rs (All-map rs (λ r eq. rw eq refl) s) in
      omega (arith, count, parts p, parts q, same ended e, same heap h, same waiting w)

  module _ (ended : List Range1d) (k : ℕ) (st : HiSweep) (i : IsHiSwept ended k st)
      (later : All (λ r. k < place r.low) st.waiting) where
    count_here : weight_where all st.heap ≡ weight_where (touches start size k k) ranges
    count_here =
        let p = touches start size k k in
        omega (
          arith,
          i.parts p,
          weight_where-false p ended (All-map ended (λ r lt. ground arith) i.ended_high),
          weight_where-true p st.heap (
              All-both (λ r. k ≤ place r.high) (λ r. place r.low ≤ k) (λ r. p r.low r.high ≡ true)
                st.heap (λ r h l. ground arith) i.heap_high i.heap_low),
          weight_where-false p st.waiting (All-map st.waiting (λ r lt. ground arith) later),
        )

    heap_small : 0 + weight_where all st.heap < 2 ^ 32
    heap_small = omega (arith, i.parts all, word)

    b : Below H law st.curr 0 false st.heap
    b =
        pop_below-Below H law st.curr (length st.heap + 1) 0 false st.heap (omega arith) i.is_heap
          heap_small

    abbrev new_child : Bool
    new_child = if st.new_start then true else st.prev_new_ends

    -- The children with segment `k`.
    record Children (rules : ℕ) : Type 0 where
      segs : List Seg
      run :
          (if new_child then add_child st.segs rules else update_last (λ l. l + 1) st.segs)
          ≡ some segs
      grown : Grown (suc k) segs
      counts : All (λ g. Counts g.first g.last g.count) segs

    add_child-Children :
        (rules : ℕ) → Counts k k rules → k < hi_child → new_child ≡ true → Children rules
    add_child-Children rules count few new =
        let a = add_child-Grown k rules st.segs i.grown few in
        record {
          segs = st.segs ++ (one k rules ∷ []);
          run = rw new a.0;
          grown = a.1;
          counts =
              All-append (λ g. Counts g.first g.last g.count) st.segs (one k rules ∷ []) i.counts
                (count, tt);
        }

    stretched :
        (j rules : ℕ)
        → k ≡ suc j
        → k < hi_child
        → new_child ≡ false
        → All (λ r. place r.low < k) st.heap
        → Tiled 0 j st.segs
        → Children rules
    stretched j rules e few old low tiled =
        let keep = λ (f c : ℕ) (le : f ≤ j) (count : Counts f j c).
          same_counts j k f c ended st.heap st.waiting i.parts
            (All-map ended (λ r lt. ground (arith, e)) i.ended_low)
            (All-map st.heap (λ r lt. ground (arith, e)) low)
            (All-map st.waiting (λ r lt. ground (arith, e)) later) count in
        let s =
          update_last-Stretched (λ l. l + 1) 0 j k Counts st.segs tiled (omega (arith, e))
            (omega (arith, e)) (omega arith) keep i.counts in
        record { segs = s.out; run = rw old s.run; grown = s.tiled; counts = s.every }

    children : (rules : ℕ) → Counts k k rules → k < hi_child → Children rules
    children rules count few = elim (Bool-cases new_child) [
      | inl new ↦ add_child-Children rules count few new
      | inr old ↦
          let (some_before, low) = i.fresh old in
          let (j, e) = pred_of k some_before in
          stretched j rules e few old low (subst (λ t. Grown t st.segs) e i.grown)
    ]
      where
        pred_of : (n : ℕ) → 0 < n → (j : ℕ) × (n ≡ suc j)
        pred_of zero lt = absurd (omega arith)
        pred_of (suc j) lt = (j, refl)

    pub record Segmented : Type 0 where
      pub next : HiSweep
      pub ended' : List Range1d
      pub run : hi_segment H size st ≡ some next
      pub swept : IsHiSwept ended' (suc k) next
      pub same_waiting : next.waiting ≡ st.waiting

    next_curr : k < hi_child → add64 st.curr size ≡ start + suc (suc k) * size
    next_curr few =
        let bound = mul-le-mul_right {m = suc (suc k)} {n = 65} size (omega arith) in
        omega (arith, i.curr, bound, frame.small)

    pub hi_segment-Segmented : k < hi_child → Segmented
    unfolding hi_segment
    hi_segment-Segmented few =
        let rules = add_weights (0 + weight_where all b.gone) b.kept in
        let sum : rules ≡ weight_where all st.heap = omega (
          arith,
          add_weights-weight_where (0 + weight_where all b.gone) b.kept
              (omega (arith, b.parts all, heap_small)),
          b.parts all,
        ) in
        let c = children rules (sum ∙ count_here) few in
        let low = b.from (λ r. place r.low ≤ k) i.heap_low in
        let boxed = b.from IsIn i.heap_word in
        let is_low = λ (r : Range1d) (le : place r.low ≤ k).
          (let m : place r.low < suc k = omega arith in m) in
        record {
          next = record {
            waiting = st.waiting;
            heap = b.kept;
            curr = add64 st.curr size;
            prev_new_ends = b.ends;
            new_start = false;
            segs = c.segs;
            total = if new_child then add32 st.total rules else st.total;
          };
          ended' = b.gone ++ ended;
          run = rw (b.fuel_run (length st.heap + 1) (omega arith), c.run) refl;
          swept = record {
            is_heap = b.is_heap;
            parts = λ q. omega (arith, i.parts q, b.parts q, weight_where-append q b.gone ended);
            curr = next_curr few;
            ended_high =
                All-append (λ r. place r.high < suc k) b.gone ended
                  (All-both IsIn (λ r. ltb r.high st.curr ≡ true) (λ r. place r.high < suc k) b.gone
                    (λ r w lt.
                      (let t =
                          (test_place start size frame.wide r.high k st.curr (omega arith) w.2
                              i.curr).0
                            lt in
                        omega (arith, t)))
                    boxed.0 b.ended)
                  (All-map ended (λ r lt. omega arith) i.ended_high);
            ended_low =
                All-append (λ r. place r.low < suc k) b.gone ended (All-map b.gone is_low low.0)
                  (All-map ended (λ r lt. omega arith) i.ended_low);
            heap_high =
                All-both IsIn (λ r. ltb r.high st.curr ≡ false) (λ r. suc k ≤ place r.high) b.kept
                  (λ r w ge.
                    (let t =
                        (test_place start size frame.wide r.high k st.curr (omega arith) w.2
                            i.curr).1
                          ge in
                      omega (arith, t)))
                  boxed.1 b.going_on;
            heap_low = All-map b.kept (λ r le. omega arith) low.1;
            heap_word = boxed.1;
            waiting_low = All-map st.waiting (λ r lt. omega arith) later;
            waiting_word = i.waiting_word;
            rises = i.rises;
            fresh = λ old. (omega arith, All-map b.kept is_low low.1);
            grown = c.grown;
            counts = c.counts;
          };
          same_waiting = refl;
        }
