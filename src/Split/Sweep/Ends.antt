-- ===== src/Split/Sweep/Ends.antt =====
-- The ends that the sweep passes.
use choose_cut.Base.{
  ℕ, ◌+◌, ◌^◌, ◌≤◌, ◌<◌, ◌≡◌, refl, sym, subst, arith, Bool, some, List, [], ◌∷◌, ◌++◌, All,
  All-map, All-append, length,
}
use choose_cut.Ranges.{Range1d}
use choose_cut.Ranges.Sort.{weight_where}
use choose_cut.Heap.{HeapOps, IsLawful}
use choose_cut.Double.{Doubles}
use choose_cut.Split.Sweep.{Sweep, consider, pop_equal, pass_end, bigger}
use choose_cut.Split.Sweep.Pops.{all, Popped, pop_top}
use choose_cut.Split.Sweep.State.{Divides, Parts, IsGood, consider-IsGood}

pub weight_where-append :
    (p : ℕ → ℕ → Bool) (xs ys : List Range1d)
    → weight_where p (xs ++ ys) ≡ weight_where p xs + weight_where p ys
weight_where-append p [] ys = omega arith
weight_where-append p (x ∷ xs) ys = omega (arith, weight_where-append p xs ys)

-- A range that is still to come begins at or behind a number.
abbrev pub Comes : ℕ → Range1d → Type 0
Comes s r = (s ≤ r.low) × (r.low ≤ r.high) × (r.high < 2 ^ 32)

pub comes_behind :
    (s e : ℕ) (rest : List Range1d)
    → All (Comes s) rest
    → All (λ r. e < r.low) rest
    → All (λ r. (e < r.low) × (e < r.high)) rest
comes_behind s e [] c later = tt
comes_behind s e (r ∷ rest) c later =
    ((later.0, omega (arith, c.0)), comes_behind s e rest c.1 later.1)

module _ (F : Doubles) (H : HeapOps) (law : IsLawful H) (ranges : List Range1d) (count : ℕ)
    (word : count < 2 ^ 32) (total : weight_where all ranges ≡ count) where
  -- The ranges that have ended, before `b`, those in the heap, and those to come.
  pub record IsSwept (ended rest : List Range1d) (b : ℕ) (st : Sweep F) : Type 0 where
    pub is_heap : law.IsHeap st.heap
    pub parts : Parts ranges ended st.heap rest
    pub left : st.left ≡ weight_where all ended
    pub ended_high : All (λ r. r.high < b) ended
    pub heap_high : All (λ r. b ≤ r.high) st.heap
    pub ended_low : All (λ r. r.low ≤ st.s) ended
    pub heap_low : All (λ r. r.low ≤ st.s) st.heap
    pub heap_behind : All (λ r. st.s ≤ r.high) st.heap
    pub heap_word : All (λ r. r.high < 2 ^ 32) st.heap
    pub rest_comes : All (Comes st.s) rest
    pub r1_high : All (λ r. r.high ≤ st.r1_high) ended
    pub good : IsGood F ranges count word total st.best

  pub consider-IsSwept :
      (e : ℕ) (ended rest : List Range1d) (b : ℕ) (st : Sweep F)
      → IsSwept ended rest b st
      → Divides e ended st.heap rest
      → e + 1 < 2 ^ 32
      → IsSwept ended rest b (consider F count e st)
  unfolding consider
  consider-IsSwept e ended rest b st i d small = record {
    is_heap = i.is_heap;
    parts = i.parts;
    left = i.left;
    ended_high = i.ended_high;
    heap_high = i.heap_high;
    ended_low = i.ended_low;
    heap_low = i.heap_low;
    heap_behind = i.heap_behind;
    heap_word = i.heap_word;
    rest_comes = i.rest_comes;
    r1_high = i.r1_high;
    good =
        consider-IsGood F ranges count word total e ended st.heap rest d i.parts st refl i.left
          small i.good;
  }

  -- After the first end of the heap has been passed.
  pub record Passed (ended rest : List Range1d) (top : Range1d) (st : Sweep F) : Type 0 where
    pub next : Sweep F
    pub ended' : List Range1d
    pub run : pass_end F H top.high st ≡ some next
    pub swept : IsSwept ended' rest (top.high + 1) next
    pub fewer : length next.heap < length st.heap
    pub same_s : next.s ≡ st.s
    pub from_before : top.high ≤ next.r1_high

  pass_end_run :
      (e : ℕ) (st : Sweep F) (h kept : List Range1d) (left : ℕ)
      → st.heap ≡ h
      → pop_equal F H (length h + 1) e st.left h ≡ some (left, kept)
      → pass_end F H e st
        ≡ some (record st { heap = kept; left = left; r1_high = bigger e st.r1_high })
  unfolding pass_end
  pass_end_run e st h kept left shape run =
      let run' =
        subst (λ h. pop_equal F H (length h + 1) e st.left h ≡ some (left, kept)) (sym shape) run in
      rw run' refl

  bigger-le : (x e b : ℕ) → x ≤ b → x ≤ bigger e b
  bigger-le x e b le = ground arith

  bigger-first : (e b : ℕ) → e ≤ bigger e b
  bigger-first e b = ground arith

  module _ (ended rest : List Range1d) (b : ℕ) (st : Sweep F) (top : Range1d)
      (others : List Range1d) (i : IsSwept ended rest b st) (shape : st.heap ≡ top ∷ others) where
    in_heap : (P : Range1d → Type 0) → All P st.heap → All P (top ∷ others)
    in_heap P h = subst (All P) shape h

    parts_at :
        (p : ℕ → ℕ → Bool)
        → weight_where p ranges
          ≡ weight_where p ended + weight_where p (top ∷ others) + weight_where p rest
    parts_at p =
        subst
          (λ h.
            weight_where p ranges ≡ weight_where p ended + weight_where p h + weight_where p rest)
          shape (i.parts p)

    passed :
        (p : Popped F H law top.high st.left (top ∷ others))
        → length p.kept < length (top ∷ others)
        → Passed ended rest top st
    passed p shorter =
        let later = in_heap (λ r. b ≤ r.high) i.heap_high in
        let low = p.from (λ r. r.low ≤ st.s) (in_heap (λ r. r.low ≤ st.s) i.heap_low) in
        let behind = p.from (λ r. st.s ≤ r.high) (in_heap (λ r. st.s ≤ r.high) i.heap_behind) in
        record {
          next = record st {
            heap = p.kept;
            left = st.left + weight_where all p.gone;
            r1_high = bigger top.high st.r1_high;
          };
          ended' = p.gone ++ ended;
          run =
              pass_end_run top.high st (top ∷ others) p.kept (st.left + weight_where all p.gone)
                shape (p.fuel_run (length (top ∷ others) + 1) (omega arith));
          swept = record {
            is_heap = p.is_heap;
            parts = λ q. omega (arith, parts_at q, p.parts q, weight_where-append q p.gone ended);
            left = omega (arith, i.left, weight_where-append all p.gone ended);
            ended_high =
                All-append (λ r. r.high < top.high + 1) p.gone ended
                  (All-map p.gone (λ r e. omega arith) p.at_end)
                  (All-map ended (λ r lt. omega (arith, later.0)) i.ended_high);
            heap_high = All-map p.kept (λ r lt. omega arith) p.behind;
            ended_low = All-append (λ r. r.low ≤ st.s) p.gone ended low.0 i.ended_low;
            heap_low = low.1;
            heap_behind = behind.1;
            heap_word =
                (p.from (λ r. r.high < 2 ^ 32) (in_heap (λ r. r.high < 2 ^ 32) i.heap_word)).1;
            rest_comes = i.rest_comes;
            r1_high =
                All-append (λ r. r.high ≤ bigger top.high st.r1_high) p.gone ended
                  (All-map p.gone (λ r e. omega (arith, bigger-first top.high st.r1_high)) p.at_end)
                  (All-map ended (λ r le. bigger-le r.high top.high st.r1_high le) i.r1_high);
            good = i.good;
          };
          fewer = subst (λ h. length p.kept < length h) (sym shape) shorter;
          same_s = refl;
          from_before = bigger-first top.high st.r1_high;
        }

    pub pass_end-Passed : Passed ended rest top st
    pass_end-Passed =
        let (p, shorter) =
          pop_top F H law st.left top others (subst law.IsHeap shape i.is_heap)
            (omega (arith, i.left, parts_at all, total, word)) in
        passed p shorter

    -- The end is a cut: all that has begun lies on its left, and all that is to come on its right.
    pub end_Divides :
        (q : Passed ended rest top st)
        → All (λ r. top.high < r.low) rest
        → Divides top.high q.ended' q.next.heap rest
    end_Divides q later =
        let begins = in_heap (λ r. st.s ≤ r.high) i.heap_behind in
        let s = q.same_s in
        record {
          ended_begun = All-map q.ended' (λ r le. omega (arith, begins.0)) q.swept.ended_low;
          ended_before = All-map q.ended' (λ r lt. omega arith) q.swept.ended_high;
          heap_begun = All-map q.next.heap (λ r le. omega (arith, begins.0)) q.swept.heap_low;
          heap_behind = All-map q.next.heap (λ r lt. omega arith) q.swept.heap_high;
          rest_behind = comes_behind q.next.s top.high rest q.swept.rest_comes later;
        }
