-- ===== src/Hi/Sweep/Pops.antt =====
-- The ranges that leave the heap at the end of a segment.
use choose_cut.Base.{
  ℕ, zero, suc, ◌+◌, ◌-◌, ◌^◌, ◌<◌, ◌≡◌, refl, ◌∙◌, ap, arith, inl, inr, Bool, true, false, some,
  List, [], ◌∷◌, All, All-map, ltb, length, Bool-cases, add32,
}
use choose_cut.Ranges.{Range1d}
use choose_cut.Ranges.Sort.{weight_where}
use choose_cut.Heap.{HeapOps, IsLawful}
use choose_cut.Heap.Contents.{weight_where-perm, length-perm, All-pop, least}
use choose_cut.Split.Sweep.Pops.{all}
use choose_cut.Hi.Sweep.{pop_below}

-- What the inner loop leaves: the sum, and the heap without the ranges that end before `curr`.
pub record Below (H : HeapOps) (law : IsLawful H) (curr rules : ℕ) (new_ends : Bool)
    (h : List Range1d) : Type 1 where
  pub gone : List Range1d
  pub kept : List Range1d
  pub ends : Bool
  pub fuel_run :
      (fuel : ℕ)
      → length h < fuel
      → pop_below H fuel curr rules new_ends h ≡ some (rules + weight_where all gone, ends, kept)
  pub is_heap : law.IsHeap kept
  pub parts : (p : ℕ → ℕ → Bool) → weight_where p h ≡ weight_where p gone + weight_where p kept
  pub ended : All (λ r. ltb r.high curr ≡ true) gone
  pub going_on : All (λ r. ltb r.high curr ≡ false) kept
  pub from : (P : Range1d → Type 0) → All P h → All P gone × All P kept

module _ (H : HeapOps) (law : IsLawful H) (curr : ℕ) where
  stop_empty :
      (fuel rules : ℕ) (new_ends : Bool)
      → 0 < fuel
      → pop_below H fuel curr rules new_ends [] ≡ some (rules + 0, new_ends, [])
  unfolding pop_below
  stop_empty zero rules new_ends lt = absurd (omega arith)
  stop_empty (suc fuel) rules new_ends lt =
      let none_more : rules + 0 ≡ rules = omega arith in rw none_more refl

  stop_later :
      (fuel rules : ℕ) (new_ends : Bool) (top : Range1d) (rest : List Range1d)
      → 0 < fuel
      → ltb top.high curr ≡ false
      → pop_below H fuel curr rules new_ends (top ∷ rest) ≡ some (rules + 0, new_ends, top ∷ rest)
  unfolding pop_below
  stop_later zero rules new_ends top rest lt later = absurd (omega arith)
  stop_later (suc fuel) rules new_ends top rest lt later =
      let none_more : rules + 0 ≡ rules = omega arith in rw (later, pop_below, none_more) refl

  pop_first :
      (fuel rules : ℕ) (new_ends : Bool) (top : Range1d) (rest : List Range1d)
      → ltb top.high curr ≡ true
      → pop_below H (suc fuel) curr rules new_ends (top ∷ rest)
        ≡ pop_below H fuel curr (add32 rules top.weight) true (H.heap_pop (top ∷ rest))
  unfolding pop_below
  pop_first fuel rules new_ends top rest here = rw (here, pop_below) refl

  first_run :
      (fuel rules : ℕ) (new_ends : Bool) (top : Range1d) (rest : List Range1d)
      → ltb top.high curr ≡ true
      → rules + top.weight < 2 ^ 32
      → (gone kept : List Range1d) (ends : Bool) → length (top ∷ rest) < fuel
      → pop_below H (fuel - 1) curr (rules + top.weight) true (H.heap_pop (top ∷ rest))
        ≡ some (rules + top.weight + weight_where all gone, ends, kept)
      → pop_below H fuel curr rules new_ends (top ∷ rest)
        ≡ some (rules + weight_where all (top ∷ gone), ends, kept)
  first_run zero rules new_ends top rest here word gone kept ends lt run = absurd (omega arith)
  first_run (suc fuel) rules new_ends top rest here word gone kept ends lt run =
      let sum : add32 rules top.weight ≡ rules + top.weight = omega arith in
      let less : suc fuel - 1 ≡ fuel = omega arith in
      let assoc : rules + top.weight + weight_where all gone
          ≡ rules + weight_where all (top ∷ gone) =
        omega arith in
      pop_first fuel rules new_ends top rest here
      ∙ rw sum ((rw less at run) ∙ ap (λ (t : ℕ). some (t, ends, kept)) assoc)

  stopped :
      (rules : ℕ) (new_ends : Bool) (h : List Range1d)
      → ((fuel : ℕ)
          → 0 < fuel
          → pop_below H fuel curr rules new_ends h ≡ some (rules + 0, new_ends, h))
      → law.IsHeap h
      → All (λ r. ltb r.high curr ≡ false) h
      → Below H law curr rules new_ends h
  stopped rules new_ends h run o behind = record {
    gone = [];
    kept = h;
    ends = new_ends;
    fuel_run = λ fuel lt. run fuel (omega arith);
    is_heap = o;
    parts = λ p. omega arith;
    ended = tt;
    going_on = behind;
    from = λ P every. (tt, every);
  }

  first_Below :
      (rules : ℕ) (new_ends : Bool) (top : Range1d) (rest : List Range1d)
      → ltb top.high curr ≡ true
      → law.IsHeap (top ∷ rest)
      → rules + top.weight < 2 ^ 32
      → Below H law curr (rules + top.weight) true (H.heap_pop (top ∷ rest))
      → Below H law curr rules new_ends (top ∷ rest)
  first_Below rules new_ends top rest here o word next =
      let popped = H.heap_pop (top ∷ rest) in
      let same = length-perm popped rest (law.pop_perm top rest o) in
      let weights =
        λ (p : ℕ → ℕ → Bool). weight_where-perm p popped rest (law.pop_perm top rest o) in
      record {
        gone = top ∷ next.gone;
        kept = next.kept;
        ends = next.ends;
        fuel_run = λ fuel lt.
            first_run fuel rules new_ends top rest here word next.gone next.kept next.ends lt
              (next.fuel_run (fuel - 1) (omega arith));
        is_heap = next.is_heap;
        parts = λ p. omega (arith, weights p, next.parts p);
        ended = (here, next.ended);
        going_on = next.going_on;
        from = λ P every.
            (let rest' = next.from P (All-pop H law top rest o P every.1) in
              ((every.0, rest'.0), rest'.1));
      }

  pub pop_below-Below :
      (n rules : ℕ) (new_ends : Bool) (h : List Range1d)
      → length h < n
      → law.IsHeap h
      → rules + weight_where all h < 2 ^ 32
      → Below H law curr rules new_ends h
  pop_below-Below zero rules new_ends h few o word = absurd (omega arith)
  pop_below-Below (suc n) rules new_ends [] few o word =
      stopped rules new_ends [] (λ fuel lt. stop_empty fuel rules new_ends lt) o tt
  pop_below-Below (suc n) rules new_ends (top ∷ rest) few o word =
      elim (Bool-cases (ltb top.high curr)) [
        | inr later ↦
            stopped rules new_ends (top ∷ rest)
              (λ fuel lt. stop_later fuel rules new_ends top rest lt later) o
              (later, All-map rest (λ r more. ground arith) (least H law top rest o))
        | inl here ↦ first_Below rules new_ends top rest here o (omega arith) (
            pop_below-Below n (rules + top.weight) true (H.heap_pop (top ∷ rest))
              (omega (arith, length-perm (H.heap_pop (top ∷ rest)) rest (law.pop_perm top rest o)))
              (law.IsHeap-pop top rest o)
              (omega (
                arith,
                weight_where-perm all (H.heap_pop (top ∷ rest)) rest (law.pop_perm top rest o),
              )))
      ]
