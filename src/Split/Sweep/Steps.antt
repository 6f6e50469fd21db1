-- ===== src/Split/Sweep/Steps.antt =====
-- The loop over the ranges.
use choose_cut.Base.{
  ℕ, zero, suc, ◌+◌, ◌-◌, ◌^◌, ◌≤◌, ◌<◌, ◌≡◌, refl, sym, ◌∙◌, ap, subst, arith, ◌⊎◌, inl, inr, true,
  false, some, List, [], ◌∷◌, All, All-map, ltb, ◌==◌, ==_iff, length, Bool-cases, sub32,
}
use choose_cut.Ranges.{Range1d}
use choose_cut.Ranges.Sort.{weight_where}
use choose_cut.Heap.{HeapOps, IsLawful}
use choose_cut.Heap.Contents.{weight_where-perm, All-push, least}
use choose_cut.Double.{Doubles}
use choose_cut.Split.Sweep.{Sweep, consider, pass_end, sweep_ends, sweep_range}
use choose_cut.Split.Sweep.Pops.{all}
use choose_cut.Split.Sweep.State.{Divides}
use choose_cut.Split.Sweep.Ends.{
  Comes, IsSwept, pass_end-Passed, end_Divides, comes_behind, consider-IsSwept,
}

ltb_trans : (e low x : ℕ) → ltb e low ≡ true → low ≤ x → e < x
ltb_trans e low x lt le = ground arith

pub List-cases :
    (h : List Range1d) → (h ≡ []) ⊎ ((top : Range1d) × (rest : List Range1d) × (h ≡ top ∷ rest))
List-cases [] = inl refl
List-cases (top ∷ rest) = inr (top, rest, refl)

module _ (F : Doubles) (H : HeapOps) (law : IsLawful H) (ranges : List Range1d) (count : ℕ)
    (word : count < 2 ^ 32) (total : weight_where all ranges ≡ count) where
  abbrev pub Swept : List Range1d → List Range1d → ℕ → Sweep F → Type 0
  Swept = IsSwept F H law ranges count word total

  -- One round of the loop over the ends.
  ends_empty :
      (fuel low : ℕ) (st : Sweep F)
      → st.heap ≡ []
      → sweep_ends F H (suc fuel) count low st ≡ some st
  unfolding sweep_ends
  ends_empty fuel low st e = rw (e, sweep_ends) (ap (λ h. some (record st { heap = h })) e)

  ends_later :
      (fuel low : ℕ) (st : Sweep F) (top : Range1d) (rest : List Range1d)
      → st.heap ≡ top ∷ rest
      → ltb top.high low ≡ false
      → sweep_ends F H (suc fuel) count low st ≡ some st
  unfolding sweep_ends
  ends_later fuel low st top rest e later =
      rw (e, sweep_ends) (rw later (ap (λ h. some (record st { heap = h })) e))

  ends_pass :
      (fuel low : ℕ) (st : Sweep F) (top : Range1d) (others : List Range1d) (next : Sweep F)
      → st.heap ≡ top ∷ others
      → ltb top.high low ≡ true
      → pass_end F H top.high st ≡ some next
      → sweep_ends F H (suc fuel) count low st
        ≡ sweep_ends F H fuel count low (consider F count top.high next)
  unfolding sweep_ends
  ends_pass fuel low st top others next e before run = rw (e, sweep_ends) (rw (before, run) refl)

  pub consider_same :
      (e : ℕ) (st : Sweep F)
      → ((consider F count e st).heap ≡ st.heap)
        × ((consider F count e st).s ≡ st.s)
        × ((consider F count e st).r1_high ≡ st.r1_high)
  unfolding consider
  consider_same e st = (refl, refl, refl)

  -- The ends before `low` have been passed.
  pub record EndsBefore (rest : List Range1d) (low : ℕ) (st : Sweep F) (fuel : ℕ) : Type 0 where
    pub next : Sweep F
    pub ended' : List Range1d
    pub b' : ℕ
    pub run : sweep_ends F H fuel count low st ≡ some next
    pub swept : Swept ended' rest b' next
    pub bounded : b' ≤ low
    pub heap_from : All (λ r. low ≤ r.high) next.heap
    pub same_s : next.s ≡ st.s

  pub sweep_ends-EndsBefore :
      (fuel low : ℕ) (ended rest : List Range1d) (b : ℕ) (st : Sweep F)
      → length st.heap < fuel
      → low < 2 ^ 32
      → Swept ended rest b st
      → b ≤ low
      → All (λ r. low ≤ r.low) rest
      → EndsBefore rest low st fuel
  sweep_ends-EndsBefore zero low ended rest b st few small i le later = absurd (omega arith)
  sweep_ends-EndsBefore (suc fuel) low ended rest b st few small i le later =
      elim (List-cases st.heap) [
        | inl empty ↦ record {
          next = st;
          ended' = ended;
          b' = b;
          run = ends_empty fuel low st empty;
          swept = i;
          bounded = le;
          heap_from = subst (All (λ r. low ≤ r.high)) (sym empty) tt;
          same_s = refl;
        }
        | inr (top, others, shape) ↦ elim (Bool-cases (ltb top.high low)) [
          | inr behind ↦ record {
            next = st;
            ended' = ended;
            b' = b;
            run = ends_later fuel low st top others shape behind;
            swept = i;
            bounded = le;
            heap_from = subst (All (λ r. low ≤ r.high)) (sym shape) (
              ground arith,
              All-map others (λ r more. ground arith)
                  (least H law top others (subst law.IsHeap shape i.is_heap)),
            );
            same_s = refl;
          }
          | inl before ↦
              let p =
                pass_end-Passed F H law ranges count word total ended rest b st top others i
                  shape in
              let e = top.high in
              let tried = consider F count e p.next in
              let begins = All-map rest (λ r more. ltb_trans e low r.low before more) later in
              let d =
                end_Divides F H law ranges count word total ended rest b st top others i shape p
                  begins in
              let i' =
                consider-IsSwept F H law ranges count word total e p.ended' rest (e + 1) p.next
                  p.swept d (ground arith) in
              let same = consider_same e p.next in
              let ih =
                sweep_ends-EndsBefore fuel low p.ended' rest (e + 1) tried
                  (omega (arith, ap length same.0, p.fewer)) small i' (ground arith) later in
              record {
                next = ih.next;
                ended' = ih.ended';
                b' = ih.b';
                run = ends_pass fuel low st top others p.next shape before p.run ∙ ih.run;
                swept = ih.swept;
                bounded = ih.bounded;
                heap_from = ih.heap_from;
                same_s = ih.same_s ∙ same.1 ∙ p.same_s;
              }
        ]
      ]

  -- A range joins the heap.
  module _ (ended rest : List Range1d) (b : ℕ) (st : Sweep F) (r : Range1d)
      (i : Swept ended (r ∷ rest) b st) (bounded : b ≤ r.low) where
    pushed :
        st.s ≤ r.low
        → All (λ x. r.low ≤ x.low) rest
        → All (λ x. r.low ≤ x.high) st.heap
        → Swept ended rest b (record st { s = r.low; heap = H.heap_push st.heap r })
    pushed le later from =
        let comes = i.rest_comes.0 in
        record {
          is_heap = law.IsHeap-push st.heap r i.is_heap;
          parts = λ p. omega (
            arith,
            i.parts p,
            weight_where-perm p (H.heap_push st.heap r) (r ∷ st.heap) (law.push_perm st.heap r),
          );
          left = i.left;
          ended_high = i.ended_high;
          heap_high = All-push H law (λ x. b ≤ x.high) st.heap r (omega (arith, comes)) i.heap_high;
          ended_low = All-map ended (λ x low. omega arith) i.ended_low;
          heap_low =
              All-push H law (λ x. x.low ≤ r.low) st.heap r (omega arith)
                (All-map st.heap (λ x low. omega arith) i.heap_low);
          heap_behind = All-push H law (λ x. r.low ≤ x.high) st.heap r (omega (arith, comes)) from;
          heap_word =
              All-push H law (λ x. x.high < 2 ^ 32) st.heap r (omega (arith, comes)) i.heap_word;
          rest_comes = comes_later rest i.rest_comes.1 later;
          r1_high = i.r1_high;
          good = i.good;
        }
      where
        comes_later :
            (xs : List Range1d)
            → All (Comes st.s) xs
            → All (λ x. r.low ≤ x.low) xs
            → All (Comes r.low) xs
        comes_later [] c l = tt
        comes_later (x ∷ xs) c l = ((l.0, c.0.1, c.0.2), comes_later xs c.1 l.1)

  -- The number before a start is a cut: the range that starts there lies on its right.
  start_Divides :
      (cut : ℕ) (ended rest : List Range1d) (b : ℕ) (st : Sweep F) (r : Range1d)
      → Swept ended (r ∷ rest) b st
      → b ≤ r.low
      → cut + 1 ≡ r.low
      → st.s < r.low
      → All (λ x. r.low ≤ x.low) rest
      → All (λ x. r.low ≤ x.high) st.heap
      → Divides cut ended st.heap (r ∷ rest)
  start_Divides cut ended rest b st r i le is_cut begins later from =
      let comes = i.rest_comes.0 in
      record {
        ended_begun = All-map ended (λ x low. omega arith) i.ended_low;
        ended_before = All-map ended (λ x high. omega arith) i.ended_high;
        heap_begun = All-map st.heap (λ x low. omega arith) i.heap_low;
        heap_behind = All-map st.heap (λ x high. omega arith) from;
        rest_behind = (
          (omega arith, omega (arith, comes)),
          comes_behind st.s cut rest i.rest_comes.1 (All-map rest (λ x low. omega arith) later),
        );
      }

  pub record Ranged (rest : List Range1d) (r : Range1d) (st : Sweep F) : Type 0 where
    pub next : Sweep F
    pub ended' : List Range1d
    pub b' : ℕ
    pub run : sweep_range F H count r st ≡ some next
    pub swept : Swept ended' rest b' next
    pub bounded : b' ≤ r.low
    pub at_low : next.s ≡ r.low

  pub sweep_range-Ranged :
      (ended rest : List Range1d) (b : ℕ) (st : Sweep F) (r : Range1d)
      → Swept ended (r ∷ rest) b st
      → b ≤ r.low
      → All (λ x. r.low ≤ x.low) rest
      → Ranged rest r st
  unfolding sweep_range
  sweep_range-Ranged ended rest b st r i le later =
      let comes = i.rest_comes.0 in
      let e =
        sweep_ends-EndsBefore (length st.heap + 1) r.low ended (r ∷ rest) b st (omega arith)
          (omega (arith, comes)) i le (omega arith, later) in
      elim (Bool-cases (r.low == e.next.s)) [
        | inl same ↦ record {
          next = record e.next { heap = H.heap_push e.next.heap r };
          ended' = e.ended';
          b' = e.b';
          run = rw (e.run, same) refl;
          swept =
              subst
                (λ t.
                  Swept e.ended' rest e.b'
                    (record e.next { s = t; heap = H.heap_push e.next.heap r }))
                ((==_iff r.low e.next.s).0 same)
                (pushed e.ended' rest e.b' e.next r e.swept e.bounded (ground arith) later
                  e.heap_from);
          bounded = e.bounded;
          at_low = sym ((==_iff r.low e.next.s).0 same);
        }
        | inr new ↦
            let begins : e.next.s < r.low = ground (arith, e.swept.rest_comes.0) in
            let cut = sub32 r.low 1 in
            let cut_is : cut ≡ r.low - 1 = omega (arith, comes) in
            let tried = consider F count cut e.next in
            let d =
              start_Divides cut e.ended' rest e.b' e.next r e.swept e.bounded (omega arith) begins
                later e.heap_from in
            let i' =
              consider-IsSwept F H law ranges count word total cut e.ended' (r ∷ rest) e.b' e.next
                e.swept d (omega (arith, comes)) in
            let same = consider_same cut e.next in
            record {
              next = record tried { s = r.low; heap = H.heap_push tried.heap r };
              ended' = e.ended';
              b' = e.b';
              run = rw (e.run, new) refl;
              swept =
                  pushed e.ended' rest e.b' tried r i' e.bounded (omega (arith, same)) later
                    (subst (All (λ x. r.low ≤ x.high)) (sym same.0) e.heap_from);
              bounded = e.bounded;
              at_low = refl;
            }
      ]
