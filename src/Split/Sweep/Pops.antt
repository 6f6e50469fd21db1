-- ===== src/Split/Sweep/Pops.antt =====
-- The ranges that leave the heap with one end.
use choose_cut.Base.{
  ℕ, zero, suc, ◌+◌, ◌-◌, ◌^◌, ◌≤◌, ◌<◌, ◌≡◌, refl, ◌∙◌, ap, arith, inl, inr, Bool, true, false,
  some, List, [], ◌∷◌, All, All-map, ◌==◌, length, Bool-cases, add32,
}
use choose_cut.Ranges.{Range1d}
use choose_cut.Ranges.Sort.{weight_where}
use choose_cut.Heap.{HeapOps, IsLawful}
use choose_cut.Heap.Contents.{weight_where-perm, length-perm, All-pop, least}
use choose_cut.Double.{Doubles}
use choose_cut.Split.Sweep.{pop_equal, add_weights}

abbrev pub all : ℕ → ℕ → Bool
all low high = true

-- What the inner loop leaves: the sum, and the heap without the ranges that end at `e`.
pub record Popped (F : Doubles) (H : HeapOps) (law : IsLawful H) (e left : ℕ) (h : List Range1d)
    : Type 1 where
  pub gone : List Range1d
  pub kept : List Range1d
  pub fuel_run :
      (fuel : ℕ)
      → length h < fuel
      → pop_equal F H fuel e left h ≡ some (left + weight_where all gone, kept)
  pub is_heap : law.IsHeap kept
  pub parts : (p : ℕ → ℕ → Bool) → weight_where p h ≡ weight_where p gone + weight_where p kept
  pub length_parts : length h ≡ length gone + length kept
  pub at_end : All (λ r. r.high ≡ e) gone
  pub behind : All (λ r. e < r.high) kept
  pub from : (P : Range1d → Type 0) → All P h → All P gone × All P kept

module _ (F : Doubles) (H : HeapOps) (law : IsLawful H) where
  -- One round of the loop.
  stop_empty : (fuel e left : ℕ) → 0 < fuel → pop_equal F H fuel e left [] ≡ some (left + 0, [])
  unfolding pop_equal
  stop_empty zero e left lt = absurd (omega arith)
  stop_empty (suc fuel) e left lt =
      let none_more : left + 0 ≡ left = omega arith in rw none_more refl

  stop_later :
      (fuel e left : ℕ) (top : Range1d) (rest : List Range1d)
      → 0 < fuel
      → (top.high == e) ≡ false
      → pop_equal F H fuel e left (top ∷ rest) ≡ some (left + 0, top ∷ rest)
  unfolding pop_equal
  stop_later zero e left top rest lt later = absurd (omega arith)
  stop_later (suc fuel) e left top rest lt later =
      let none_more : left + 0 ≡ left = omega arith in rw (later, pop_equal, none_more) refl

  pop_first :
      (fuel e left : ℕ) (top : Range1d) (rest : List Range1d)
      → (top.high == e) ≡ true
      → pop_equal F H (suc fuel) e left (top ∷ rest)
        ≡ pop_equal F H fuel e (add32 left top.weight) (H.heap_pop (top ∷ rest))
  unfolding pop_equal
  pop_first fuel e left top rest here = rw (here, pop_equal) refl

  stopped :
      (e left : ℕ) (h : List Range1d)
      → ((fuel : ℕ) → 0 < fuel → pop_equal F H fuel e left h ≡ some (left + 0, h))
      → law.IsHeap h
      → All (λ r. e < r.high) h
      → Popped F H law e left h
  stopped e left h run o behind = record {
    gone = [];
    kept = h;
    fuel_run = λ fuel lt. run fuel (omega arith);
    is_heap = o;
    parts = λ p. omega arith;
    length_parts = omega arith;
    at_end = tt;
    behind = behind;
    from = λ P all. (tt, all);
  }

  one_more_run :
      (fuel e left : ℕ) (top : Range1d) (rest : List Range1d)
      → (top.high == e) ≡ true
      → left + top.weight < 2 ^ 32
      → (gone kept : List Range1d) → length (top ∷ rest) < fuel
      → pop_equal F H (fuel - 1) e (left + top.weight) (H.heap_pop (top ∷ rest))
        ≡ some (left + top.weight + weight_where all gone, kept)
      → pop_equal F H fuel e left (top ∷ rest) ≡ some (left + weight_where all (top ∷ gone), kept)
  one_more_run zero e left top rest here word gone kept lt run = absurd (omega arith)
  one_more_run (suc fuel) e left top rest here word gone kept lt run =
      let sum : add32 left top.weight ≡ left + top.weight = omega arith in
      let less : suc fuel - 1 ≡ fuel = omega arith in
      let assoc : left + top.weight + weight_where all gone ≡ left + weight_where all (top ∷ gone) =
        omega arith in
      pop_first fuel e left top rest here
      ∙ rw sum ((rw less at run) ∙ ap (λ (t : ℕ). some (t, kept)) assoc)

  one_more :
      (e left : ℕ) (top : Range1d) (rest : List Range1d)
      → (top.high == e) ≡ true
      → law.IsHeap (top ∷ rest)
      → left + top.weight < 2 ^ 32
      → Popped F H law e (left + top.weight) (H.heap_pop (top ∷ rest))
      → Popped F H law e left (top ∷ rest)
  one_more e left top rest here o word next =
      let popped = H.heap_pop (top ∷ rest) in
      let same = length-perm popped rest (law.pop_perm top rest o) in
      let weights =
        λ (p : ℕ → ℕ → Bool). weight_where-perm p popped rest (law.pop_perm top rest o) in
      record {
        gone = top ∷ next.gone;
        kept = next.kept;
        fuel_run = λ fuel lt.
            one_more_run fuel e left top rest here word next.gone next.kept lt
              (next.fuel_run (fuel - 1) (omega arith));
        is_heap = next.is_heap;
        parts = λ p. omega (arith, weights p, next.parts p);
        length_parts = omega (arith, same, next.length_parts);
        at_end = (ground arith, next.at_end);
        behind = next.behind;
        from = λ P every.
            (let rest' = next.from P (All-pop H law top rest o P every.1) in
              ((every.0, rest'.0), rest'.1));
      }

  pop_equal-Popped :
      (n e left : ℕ) (h : List Range1d)
      → length h < n
      → law.IsHeap h
      → All (λ r. e ≤ r.high) h
      → left + weight_where all h < 2 ^ 32
      → Popped F H law e left h
  pop_equal-Popped zero e left h few o le word = absurd (omega arith)
  pop_equal-Popped (suc n) e left [] few o le word =
      stopped e left [] (λ fuel lt. stop_empty fuel e left lt) o tt
  pop_equal-Popped (suc n) e left (top ∷ rest) few o le word = elim (Bool-cases (top.high == e)) [
    | inr later ↦
        let ahead : e < top.high = ground (arith, le.0) in
        stopped e left (top ∷ rest) (λ fuel lt. stop_later fuel e left top rest lt later) o
          (ahead, All-map rest (λ r more. omega arith) (least H law top rest o))
    | inl here ↦ one_more e left top rest here o (omega arith) (
        pop_equal-Popped n e (left + top.weight) (H.heap_pop (top ∷ rest))
          (omega (arith, length-perm (H.heap_pop (top ∷ rest)) rest (law.pop_perm top rest o)))
          (law.IsHeap-pop top rest o) (All-pop H law top rest o (λ r. e ≤ r.high) le.1)
          (omega (
            arith,
            weight_where-perm all (H.heap_pop (top ∷ rest)) rest (law.pop_perm top rest o),
          )))
  ]

  -- The first range of a heap leaves with its end, and perhaps others.
  pub pop_top :
      (left : ℕ) (top : Range1d) (rest : List Range1d)
      → law.IsHeap (top ∷ rest)
      → left + weight_where all (top ∷ rest) < 2 ^ 32
      → (p : Popped F H law top.high left (top ∷ rest)) × (length p.kept < length (top ∷ rest))
  unfolding one_more
  pop_top left top rest o word =
      let popped = H.heap_pop (top ∷ rest) in
      let same = length-perm popped rest (law.pop_perm top rest o) in
      let next =
        pop_equal-Popped (length popped + 1) top.high (left + top.weight) popped (omega arith)
          (law.IsHeap-pop top rest o)
          (All-pop H law top rest o (λ r. top.high ≤ r.high) (least H law top rest o))
          (omega (arith, weight_where-perm all popped rest (law.pop_perm top rest o))) in
      (
        one_more top.high left top rest (ground arith) o (omega arith) next,
        omega (arith, same, next.length_parts),
      )

-- The sum of the weights in the heap, with no wrap.
pub add_weights-weight_where :
    (dup : ℕ) (os : List Range1d)
    → dup + weight_where all os < 2 ^ 32
    → add_weights dup os ≡ dup + weight_where all os
unfolding add_weights
add_weights-weight_where dup [] word = omega arith
add_weights-weight_where dup (o ∷ os) word =
    let sum : add32 dup o.weight ≡ dup + o.weight = omega arith in
    rw sum (omega (arith, add_weights-weight_where (dup + o.weight) os (omega arith)))
