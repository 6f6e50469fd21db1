-- ===== src/Hi/Sweep/Loop.antt =====
-- The loop of the sweep over the segments, from its start to its end.
use choose_cut.Base.{
  ℕ, zero, suc, ◌+◌, ◌-◌, ◌*◌, ◌^◌, ◌≤◌, ◌<◌, ◌≡◌, refl, sym, ◌∙◌, ap, subst, arith, inl, inr, true,
  false, some, List, [], ◌∷◌, All, All-map, ltb, leb, length, Bool-cases,
}
use choose_cut.Ranges.{Range1d}
use choose_cut.Ranges.Sort.{weight_where}
use choose_cut.Heap.{HeapOps, IsLawful}
use choose_cut.Heap.Contents.{weight_where-perm, All-push}
use choose_cut.Split.Sweep.Pops.{all}
use choose_cut.Split.Sweep.Steps.{List-cases}
use choose_cut.Split.Sweep.Whole.{LowsRise}
use choose_cut.Hi.{Seg}
use choose_cut.Hi.Segments.{Tiled}
use choose_cut.Hi.Sweep.{HiSweep, hi_child, hi_segment, hi_loop, hi_start, hi_get_segs}
use choose_cut.Hi.Sweep.Numbers.{place_of, test_place, place_mono}
use choose_cut.Hi.Sweep.Children.{update_last-Stretched}
use choose_cut.Hi.Sweep.State.{
  All-both, IsFrame, Counts, IsIn, IsHiSwept, same_counts, hi_segment-Segmented,
}

-- One round of the loop.
module _ (H : HeapOps) (fuel size : ℕ) (st : HiSweep) where
  loop_end : st.waiting ≡ [] → st.heap ≡ [] → hi_loop H (suc fuel) size st ≡ some st
  unfolding hi_loop
  loop_end w h =
      rw (w, h, hi_loop)
        (ap (λ x. some (record st { waiting = x })) w
          ∙ ap (λ x. some (record st { waiting = []; heap = x })) h)

  loop_heap :
      (top : Range1d) (rest : List Range1d) (next : HiSweep)
      → st.waiting ≡ []
      → st.heap ≡ top ∷ rest
      → hi_segment H size st ≡ some next
      → hi_loop H (suc fuel) size st ≡ hi_loop H fuel size next
  unfolding hi_loop
  loop_heap top rest next w h run = rw (w, h, hi_loop) (rw run refl)

  loop_push :
      (r : Range1d) (rs : List Range1d)
      → st.waiting ≡ r ∷ rs
      → ltb r.low st.curr ≡ true
      → hi_loop H (suc fuel) size st
        ≡ hi_loop H fuel size
            (record st { heap = H.heap_push st.heap r; waiting = rs; new_start = true })
  unfolding hi_loop
  loop_push r rs w begins = rw (w, hi_loop) (rw begins refl)

  loop_segment :
      (r : Range1d) (rs : List Range1d) (next : HiSweep)
      → st.waiting ≡ r ∷ rs
      → ltb r.low st.curr ≡ false
      → hi_segment H size st ≡ some next
      → hi_loop H (suc fuel) size st ≡ hi_loop H fuel size next
  unfolding hi_loop
  loop_segment r rs next w later run = rw (w, hi_loop) (rw (later, run) refl)

module _ (H : HeapOps) (law : IsLawful H) (start size : ℕ) (frame : IsFrame start size) (div : ℕ)
    (few : div ≤ hi_child) (ranges : List Range1d) (word : weight_where all ranges < 2 ^ 32) where
  abbrev place : ℕ → ℕ
  place x = place_of start size x

  abbrev At : List Range1d → ℕ → HiSweep → Type 0
  At = IsHiSwept H law start size frame div ranges word

  abbrev In : Range1d → Type 0
  In = IsIn H law start size frame div ranges word

  pushed :
      (ended : List Range1d) (k : ℕ) (st : HiSweep) (r : Range1d) (rs : List Range1d)
      → At ended k st
      → st.waiting ≡ r ∷ rs
      → ltb r.low st.curr ≡ true
      → At ended k (record st { heap = H.heap_push st.heap r; waiting = rs; new_start = true })
  pushed ended k st r rs i e begins =
      let low = subst (All (λ x. k ≤ place x.low)) e i.waiting_low in
      let boxed = subst (All In) e i.waiting_word in
      let rises = subst LowsRise e i.rises in
      let here = boxed.0 in
      let le =
        (test_place start size frame.wide r.low k st.curr here.0 (omega (arith, here)) i.curr).0
          begins in
      let mono = place_mono start size frame.wide r.low r.high here.0 here.1 here.2 in
      record {
        is_heap = law.IsHeap-push st.heap r i.is_heap;
        parts = λ p. omega (
          arith,
          subst
              (λ w.
                weight_where p ranges
                ≡ weight_where p ended + weight_where p st.heap + weight_where p w)
              e (i.parts p),
          weight_where-perm p (H.heap_push st.heap r) (r ∷ st.heap) (law.push_perm st.heap r),
        );
        curr = i.curr;
        ended_high = i.ended_high;
        ended_low = i.ended_low;
        heap_high =
            All-push H law (λ x. k ≤ place x.high) st.heap r (omega (arith, low.0, mono))
              i.heap_high;
        heap_low = All-push H law (λ x. place x.low ≤ k) st.heap r le i.heap_low;
        heap_word = All-push H law In st.heap r here i.heap_word;
        waiting_low = low.1;
        waiting_word = boxed.1;
        rises = rises.1;
        fresh = λ old. absurd (ground (arith, old));
        grown = i.grown;
        counts = i.counts;
      }

  pub record Finished (fuel : ℕ) (st : HiSweep) : Type 0 where
    pub next : HiSweep
    pub ended' : List Range1d
    pub k' : ℕ
    pub run : hi_loop H fuel size st ≡ some next
    pub swept : At ended' k' next
    pub none_waits : next.waiting ≡ []
    pub none_left : next.heap ≡ []
    pub bounded : k' ≤ div

  Finished-step :
      (fuel : ℕ) (st next : HiSweep)
      → hi_loop H (suc fuel) size st ≡ hi_loop H fuel size next
      → Finished fuel next
      → Finished (suc fuel) st
  Finished-step fuel st next same f = record {
    next = f.next;
    ended' = f.ended';
    k' = f.k';
    run = same ∙ f.run;
    swept = f.swept;
    none_waits = f.none_waits;
    none_left = f.none_left;
    bounded = f.bounded;
  }

  heap_before :
      (h : List Range1d) (k : ℕ) (top : Range1d) (rest : List Range1d)
      → h ≡ top ∷ rest
      → All (λ r. k ≤ place r.high) h
      → All In h
      → k < div
  heap_before h k top rest e high boxed =
      let high' = subst (All (λ r. k ≤ place r.high)) e high in
      let boxed' = subst (All In) e boxed in let here = boxed'.0 in omega (arith, high'.0, here.3)

  -- Behind a range that begins in a later segment all do.
  all_later :
      (r : Range1d) (rs : List Range1d) (k curr : ℕ)
      → curr ≡ start + suc k * size
      → ltb r.low curr ≡ false
      → All In (r ∷ rs)
      → LowsRise (r ∷ rs)
      → All (λ x. k < place x.low) (r ∷ rs)
  all_later r rs k curr at later boxed rise =
      let here = boxed.0 in
      let far =
        (test_place start size frame.wide r.low k curr here.0 (omega (arith, here)) at).1 later in
      (
        far,
        All-both In (λ x. r.low ≤ x.low) (λ x. k < place x.low) rs
            (λ x w le.
              (let m =
                  place_mono start size frame.wide r.low x.low here.0 le
                    (omega (arith, w.1, w.2)) in
                omega (arith, far, m)))
            boxed.1 rise.0,
      )

  hi_loop-Finished :
      (fuel k : ℕ) (ended : List Range1d) (st : HiSweep)
      → At ended k st
      → k ≤ div
      → length st.waiting + (div - k) < fuel
      → Finished fuel st
  hi_loop-Finished zero k ended st i le enough = absurd (omega arith)
  hi_loop-Finished (suc fuel) k ended st i le enough = elim (List-cases st.waiting) [
    | inl empty ↦ elim (List-cases st.heap) [
      | inl none_left ↦ record {
        next = st;
        ended' = ended;
        k' = k;
        run = loop_end H fuel size st empty none_left;
        swept = i;
        none_waits = empty;
        none_left = none_left;
        bounded = le;
      }
      | inr (top, rest, e) ↦
          let lt = heap_before st.heap k top rest e i.heap_high i.heap_word in
          let s =
            hi_segment-Segmented H law start size frame div ranges word ended k st i
              (subst (All (λ r. k < place r.low)) (sym empty) tt) (omega arith) in
          Finished-step fuel st s.next (loop_heap H fuel size st top rest s.next empty e s.run) (
            hi_loop-Finished fuel (suc k) s.ended' s.next s.swept (omega arith)
              (omega (arith, ap length s.same_waiting)))
    ]
    | inr (r, rs, e) ↦ elim (Bool-cases (ltb r.low st.curr)) [
      | inl begins ↦
          let st' = record st { heap = H.heap_push st.heap r; waiting = rs; new_start = true } in
          Finished-step fuel st st' (loop_push H fuel size st r rs e begins) (
            hi_loop-Finished fuel k ended st' (pushed ended k st r rs i e begins) le
              (omega (arith, ap length e)))
      | inr later ↦
          let boxed = subst (All In) e i.waiting_word in
          let far = all_later r rs k st.curr i.curr later boxed (subst LowsRise e i.rises) in
          let here = boxed.0 in
          let mono = place_mono start size frame.wide r.low r.high here.0 here.1 here.2 in
          let lt : k < div = omega (arith, far.0, mono, here.3) in
          let s =
            hi_segment-Segmented H law start size frame div ranges word ended k st i
              (subst (All (λ x. k < place x.low)) (sym e) far) (omega arith) in
          Finished-step fuel st s.next (loop_segment H fuel size st r rs s.next e later s.run) (
            hi_loop-Finished fuel (suc k) s.ended' s.next s.swept (omega arith)
              (omega (arith, ap length s.same_waiting)))
    ]
  ]

  module _ (first : Range1d) (rs : List Range1d) (same : ranges ≡ first ∷ rs)
      (boxed : All In (first ∷ rs)) (rise : LowsRise rs) (small : start + 65 * size < 2 ^ 64)
      (at_start : place first.low ≤ 0) where
    hi_start-At : At [] 0 (hi_start H start size first rs)
    hi_start-At = record {
      is_heap = law.IsHeap-push [] first law.IsHeap-empty;
      parts = λ p. omega (
        arith,
        ap (weight_where p) same,
        weight_where-perm p (H.heap_push [] first) (first ∷ []) (law.push_perm [] first),
      );
      curr = omega arith;
      ended_high = tt;
      ended_low = tt;
      heap_high = All-push H law (λ r. 0 ≤ place r.high) [] first (omega arith) tt;
      heap_low = All-push H law (λ r. place r.low ≤ 0) [] first at_start tt;
      heap_word = All-push H law In [] first boxed.0 tt;
      waiting_low = All-map rs (λ r w. omega arith) boxed.1;
      waiting_word = boxed.1;
      rises = rise;
      fresh = λ old. absurd (ground (arith, old));
      grown = refl;
      counts = tt;
    }

    -- The children that the sweep finds.
    pub record Segs : Type 0 where
      pub segs : List Seg
      pub total : ℕ
      pub run : hi_get_segs H first rs start size div ≡ some (segs, total)
      pub tiled : Tiled 0 (div - 1) segs
      pub counts :
          All (λ g. Counts H law start size frame div ranges word g.first g.last g.count) segs

    no_child_none :
        (ended : List Range1d) (k : ℕ)
        → All (λ r. place r.high < k) ended
        → k ≡ 0
        → weight_where all ended ≡ 0
    no_child_none [] k lt e = refl
    no_child_none (r ∷ ended) k lt e = absurd (omega (arith, lt.0))

    finish :
        (st : HiSweep) (ended : List Range1d) (k : ℕ)
        → 0 < weight_where all ranges
        → hi_loop H (length rs + div + 1) size (hi_start H start size first rs) ≡ some st
        → At ended k st
        → st.waiting ≡ []
        → st.heap ≡ []
        → k ≤ div
        → Segs
    unfolding hi_get_segs
    finish st ended zero weighs run i w h le =
        let parts = i.parts all in
        let parts' = rw (w, h) at parts in
        absurd (omega (arith, parts', no_child_none ended 0 i.ended_high refl))
    finish st ended (suc j) weighs run i w h le =
        let keep =
          λ (f c : ℕ) (f_le : f ≤ j) (count : Counts H law start size frame div ranges word f j c).
            same_counts H law start size frame div ranges word j (div - 1) f c ended st.heap
              st.waiting i.parts (All-map ended (λ r lt. ground arith) i.ended_low)
              (subst (All (λ r. leb (place r.low) j ≡ leb (place r.low) (div - 1))) (sym h) tt)
              (subst (All (λ r. leb (place r.low) j ≡ leb (place r.low) (div - 1))) (sym w) tt)
              count in
        let s =
          update_last-Stretched (λ _. div - 1) 0 j (div - 1)
            (Counts H law start size frame div ranges word) st.segs i.grown refl (omega arith)
            (omega arith) keep i.counts in
        record {
          segs = s.out;
          total = st.total;
          run = rw (run, s.run) refl;
          tiled = s.tiled;
          counts = s.every;
        }

    pub hi_get_segs-Segs : 0 < weight_where all ranges → Segs
    hi_get_segs-Segs weighs =
        let f =
          hi_loop-Finished (length rs + div + 1) 0 [] (hi_start H start size first rs) hi_start-At
            (omega arith) (omega arith) in
        finish f.next f.ended' f.k' weighs f.run f.swept f.none_waits f.none_left f.bounded
