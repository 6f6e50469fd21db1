-- ===== src/Split/Sweep/Outcome.antt =====
-- What the sweep leaves in the node.
use choose_cut.Base.{
  ℕ, ◌+◌, ◌^◌, ◌≤◌, ◌<◌, ◌≡◌, refl, sym, ◌∙◌, ap, subst, arith, inl, inr, Bool, true, false, some,
  List, [], ◌∷◌, All, All-map, ltb, ◌==◌, if◌then◌else◌, length, add32,
}
use choose_cut.Ranges.{Range1d}
use choose_cut.Ranges.Sort.{weight_where}
use choose_cut.Heap.{HeapOps, IsLawful}
use choose_cut.Heap.Contents.{weight_where-perm, length-perm, All-push}
use choose_cut.Double.{Doubles}
use choose_cut.RuleSet.{num}
use choose_cut.Split.{Snode}
use choose_cut.Split.Sweep.{Sweep, sweep_start, pop_last, sweep, bigger}
use choose_cut.Split.Sweep.Pops.{all}
use choose_cut.Split.Sweep.State.{IsGood, weight_where-false}
use choose_cut.Split.Sweep.Ends.{Comes}
use choose_cut.Split.Sweep.Steps.{List-cases, Swept}
use choose_cut.Split.Sweep.Whole.{LowsRise, sweep_ranges-AllRanged, sweep_rest-Rested}

-- The ranges that end behind a number.
abbrev pub ending_behind : ℕ → ℕ → ℕ → Bool
ending_behind h low high = ltb h high

length_zero : (h : List Range1d) → length h ≡ 0 → h ≡ []
length_zero [] e = refl
length_zero (r ∷ h) e = absurd (omega (arith, e))

module _ (F : Doubles) (H : HeapOps) (law : IsLawful H) (n : Snode) (first : Range1d)
    (rs : List Range1d) (word : num n.rule_set < 2 ^ 32)
    (total : weight_where all (first ∷ rs) ≡ num n.rule_set) where
  abbrev Done : List Range1d → List Range1d → ℕ → Sweep F → Type 0
  Done = Swept F H law (first ∷ rs) (num n.rule_set) word total

  start_swept :
      first.low ≤ first.high
      → first.high < 2 ^ 32
      → All (Comes first.low) rs
      → Done [] rs 0 (sweep_start F H n first)
  start_swept le small comes = record {
    is_heap = law.IsHeap-push [] first law.IsHeap-empty;
    parts = λ p.
        omega
          (arith, weight_where-perm p (H.heap_push [] first) (first ∷ []) (law.push_perm [] first));
    left = refl;
    ended_high = tt;
    heap_high = All-push H law (λ r. 0 ≤ r.high) [] first (omega arith) tt;
    ended_low = tt;
    heap_low = All-push H law (λ r. r.low ≤ first.low) [] first (omega arith) tt;
    heap_behind = All-push H law (λ r. first.low ≤ r.high) [] first le tt;
    heap_word = All-push H law (λ r. r.high < 2 ^ 32) [] first small tt;
    rest_comes = comes;
    r1_high = tt;
    good = inl refl;
  }

  -- The heap is empty in the end, and `r1_high` bounds all ranges.
  pub record Emptied (st : Sweep F) : Type 0 where
    pub empty : length (pop_last F H st).heap ≡ 0
    pub same_best : (pop_last F H st).best ≡ st.best
    pub to_high : weight_where (ending_behind (pop_last F H st).r1_high) (first ∷ rs) ≡ 0

  empty_last : (st : Sweep F) → st.heap ≡ [] → pop_last F H st ≡ st
  unfolding pop_last
  empty_last st e = rw (e, pop_last) (ap (λ h. record st { heap = h }) e)

  one_last :
      (st : Sweep F) (top : Range1d) (others : List Range1d)
      → st.heap ≡ top ∷ others
      → pop_last F H st
        ≡ record st { heap = H.heap_pop (top ∷ others); r1_high = bigger top.high st.r1_high }
  unfolding pop_last
  one_last st top others e = rw (e, pop_last) refl

  ended_not_behind :
      (h h' : ℕ) (ended : List Range1d)
      → h ≤ h'
      → All (λ r. r.high ≤ h) ended
      → weight_where (ending_behind h') ended ≡ 0
  ended_not_behind h h' ended le all_le =
      weight_where-false (ending_behind h') ended (All-map ended (λ r le'. ground arith) all_le)

  pop_last-Emptied :
      (ended : List Range1d) (b : ℕ) (st : Sweep F)
      → Done ended [] b st
      → length st.heap ≤ 1
      → Emptied st
  pop_last-Emptied ended b st i few = elim (List-cases st.heap) [
    | inl e ↦
        (let same = empty_last st e in
          record {
            empty = rw (same, e) refl;
            same_best = rw same refl;
            to_high =
                ap (λ (t : Sweep F). weight_where (ending_behind t.r1_high) (first ∷ rs)) same
                ∙ (let parts = i.parts (ending_behind st.r1_high) in
                    let parts' = rw e at parts in
                    omega (
                      arith,
                      parts',
                      ended_not_behind st.r1_high st.r1_high ended (omega arith) i.r1_high,
                    ));
          })
    | inr (top, others, e) ↦
        let same = one_last st top others e in
        let no_others : others ≡ [] = length_zero others (omega (arith, ap length e)) in
        let h = bigger top.high st.r1_high in
        let is_heap = subst law.IsHeap e i.is_heap in
        record {
          empty = rw same (
              length-perm (H.heap_pop (top ∷ others)) others (law.pop_perm top others is_heap)
              ∙ ap length no_others);
          same_best = rw same refl;
          to_high =
              ap (λ (t : Sweep F). weight_where (ending_behind t.r1_high) (first ∷ rs)) same
              ∙ (let parts = i.parts (ending_behind h) in
                  let parts' = rw (e, no_others) at parts in
                  let top_le : ltb h top.high ≡ false = ground arith in
                  let top_none : (if ltb h top.high then top.weight else 0) ≡ 0 = rw top_le refl in
                  omega (
                    arith,
                    parts',
                    top_none,
                    ended_not_behind st.r1_high h ended (ground arith) i.r1_high,
                  ));
        }
  ]

  pub record Outcome : Type 0 where
    pub end : Sweep F
    pub run :
        sweep F H n first rs
        ≡ some (
          end.best.min_me,
          record n {
            r0 = record { low = first.low; high = end.best.split; weight = end.best.weight0 };
            r1 = record {
              low = add32 end.best.split 1;
              high = end.r1_high;
              weight = end.best.weight1;
            };
          },
        )
    pub good : IsGood F (first ∷ rs) (num n.rule_set) word total end.best
    pub to_high : weight_where (ending_behind end.r1_high) (first ∷ rs) ≡ 0

  pub sweep-Outcome :
      first.low ≤ first.high
      → first.high < 2 ^ 32
      → All (Comes first.low) rs
      → LowsRise rs
      → Outcome
  unfolding sweep
  sweep-Outcome le small comes rise =
      let p =
        sweep_ranges-AllRanged F H law (first ∷ rs) (num n.rule_set) word total rs [] 0
          (sweep_start F H n first) (start_swept le small comes)
          (All-map rs (λ r c. omega arith) comes) rise in
      let q =
        sweep_rest-Rested F H law (first ∷ rs) (num n.rule_set) word total (length p.next.heap + 1)
          p.ended' p.b' p.next (omega arith) p.swept in
      let l = pop_last-Emptied q.ended' q.b' q.next q.swept q.few in
      let passed : (length (pop_last F H q.next).heap == 0) ≡ true = ground (arith, l.empty) in
      record {
        end = pop_last F H q.next;
        run = rw (p.run, q.run, passed) refl;
        good =
            subst (IsGood F (first ∷ rs) (num n.rule_set) word total) (sym l.same_best)
              q.swept.good;
        to_high = l.to_high;
      }
