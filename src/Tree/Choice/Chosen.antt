-- ===== src/Tree/Choice/Chosen.antt =====
-- What cut_node chooses.
use choose_cut.Base.{
  ℕ, zero, suc, ◌-◌, ◌≤◌, ◌<◌, ◌≡◌, refl, ◌∙◌, ap, arith, ◌⊎◌, Bool-cases, inl, inr, true, false,
  some, List, [], ◌∷◌, All, leb, ◌>>=◌, length, get_elem?,
}
use choose_cut.Rule.{dims}
use choose_cut.Double.{Doubles, IsOrdered}
use choose_cut.RuleSet.{RuleSet, num}
use choose_cut.Split.{bucket_size}
use choose_cut.Tree.Choice.{
  CutMethod, Least, cut_by, scan_methods, quants, chose, cut_node, least_expect, by_quant,
  least_quant,
}
use choose_cut.Tree.Choice.Minima.{
  least_quant_cases, IsNotLess, Estimates, IsTotal, least_expect_cases, scan_method-Estimates,
}

length-at :
    {A : Type 0} (xs : List A) (j n : ℕ)
    → length xs ≡ n
    → j < n
    → (x : A) × (get_elem? xs j ≡ some x)
length-at [] j n e lt = absurd (omega (arith, e))
length-at (x ∷ xs) zero n e lt = (x, refl)
length-at (x ∷ xs) (suc j) n e lt = length-at xs j (n - 1) (omega (arith, e)) (omega arith)

at-length : {A : Type 0} (xs : List A) (j : ℕ) (x : A) → get_elem? xs j ≡ some x → j < length xs
at-length [] j x e = cc
at-length (y ∷ xs) zero x e = omega arith
at-length (y ∷ xs) (suc j) x e = omega (arith, at-length xs j x e)

-- The method that is chosen: it has the fewest children that all fit, or the first method has, and then it
-- has the least expectation.
abbrev pub IsBest : List ℕ → ℕ → ℕ → Type 0
IsBest [] by_expect t = t ≡ by_expect
IsBest (q ∷ qs) by_expect t =
    ((t ≡ by_expect) × All (λ x. q ≤ x) qs)
    ⊎ ((least : ℕ) × (get_elem? (q ∷ qs) t ≡ some least)
        × (least < q)
        × All (λ x. least ≤ x) (q ∷ qs))

by_quant-IsBest : (qs : List ℕ) (by_expect : ℕ) → IsBest qs by_expect (by_quant qs by_expect)
by_quant-IsBest [] by_expect = refl
by_quant-IsBest (q ∷ qs) by_expect = elim (least_quant_cases (q ∷ qs) 0 q by_expect) [
  | inl (e, all) ↦ inl (e, all.1)
  | inr (j, least, e, at, lt, all) ↦ inr (
    least,
    (let place : least_quant (q ∷ qs) 0 q by_expect ≡ j = omega (arith, e) in
        ap (get_elem? (q ∷ qs)) place ∙ at),
    lt,
    all,
  )
]

by_quant_small :
    (qs : List ℕ) (by_expect n : ℕ) → length qs ≡ n → by_expect < n → by_quant qs by_expect < n
by_quant_small [] by_expect n len small = small
by_quant_small (q ∷ qs) by_expect n len small = elim (least_quant_cases (q ∷ qs) 0 q by_expect) [
  | inl (e, all) ↦ omega (arith, e)
  | inr (j, least, e, at, lt, all) ↦ omega (arith, e, at-length (q ∷ qs) j least at, len)
]

module _ (F : Doubles) (order : IsOrdered F) where
  least_expect_small :
      (ls : List (Least F)) (min_t : F.Double)
      → 0 < length ls
      → least_expect F ls 0 min_t 0 < length ls
  least_expect_small ls min_t some_l = elim (least_expect_cases F order ls 0 min_t 0) [
    | inl (e, all) ↦ omega (arith, e)
    | inr (j, l, e, at, le, all) ↦ omega (arith, e, at-length ls j l at)
  ]

  -- The first method, if no expectation is less than the bound, or else one that is, and that no other is
  -- less than.
  abbrev pub IsCheapest : List (Least F) → F.Double → ℕ → Type 0
  IsCheapest ls bound e =
      ((e ≡ 0) × All (λ l. IsNotLess F order l.min bound) ls)
      ⊎ ((l : Least F) × (get_elem? ls e ≡ some l)
          × (F.less l.min bound ≡ true)
          × All (λ x. IsNotLess F order x.min l.min) ls)

  least_expect-IsCheapest :
      (ls : List (Least F)) (bound : F.Double) → IsCheapest ls bound (least_expect F ls 0 bound 0)
  least_expect-IsCheapest ls bound = elim (least_expect_cases F order ls 0 bound 0) [
    | inl none_less ↦ inl none_less
    | inr (j, l, e, at, less, all) ↦ inr (
      l,
      (let place : least_expect F ls 0 bound 0 ≡ j = omega (arith, e) in
          ap (get_elem? ls) place ∙ at),
      less,
      all,
    )
  ]

module _ (F : Doubles) (order : IsOrdered F) {Aux : Type 0} where
  -- What each method has answered, one method after the other with the state that the one before has left:
  -- an expectation for each dimension, and a dimension whose expectation no other is less than.
  abbrev pub Answered : RuleSet → Aux → List (CutMethod F Aux) → List (Least F) → Aux → Type 0
  Answered rules aux [] ls last = (ls ≡ []) × (aux ≡ last)
  Answered rules aux (m ∷ ms) [] last = ⊥
  Answered rules aux (m ∷ ms) (l ∷ ls) last =
      (mid : Aux) × (mes : List F.Double) × Estimates F order m rules 0 aux mes mid
      × (length mes ≡ dims)
      × (get_elem? mes l.dim ≡ some l.min)
      × (l.dim < dims)
      × All (λ me. IsNotLess F order me l.min) mes
      × Answered rules mid ms ls last

  -- How many children each method makes in its dimension, or 127 if they do not all fit in buckets.
  abbrev pub AreCounts : Aux → List (CutMethod F Aux) → List (Least F) → List ℕ → Type 0
  AreCounts aux [] ls counts = counts ≡ []
  AreCounts aux (m ∷ ms) [] counts = counts ≡ []
  AreCounts aux (m ∷ ms) (l ∷ ls) [] = ⊥
  AreCounts aux (m ∷ ms) (l ∷ ls) (count ∷ counts) =
      (((m.all_fits_bs aux l.dim ≡ true) × (count ≡ m.mem_quant aux l.dim))
        ⊎ ((m.all_fits_bs aux l.dim ≡ false) × (count ≡ 127)))
      × AreCounts aux ms ls counts

  quants-AreCounts :
      (aux : Aux) (cuts : List (CutMethod F Aux)) (ls : List (Least F))
      → AreCounts aux cuts ls (quants F aux cuts ls)
  unfolding quants
  quants-AreCounts aux [] ls = refl
  quants-AreCounts aux (m ∷ ms) [] = refl
  quants-AreCounts aux (m ∷ ms) (l ∷ ls) = elim (Bool-cases (m.all_fits_bs aux l.dim)) [
    | inl fit ↦ (inl (fit, rw fit refl), quants-AreCounts aux ms ls)
    | inr big ↦ (inr (big, rw big refl), quants-AreCounts aux ms ls)
  ]

  record Scans (cuts : List (CutMethod F Aux)) (rules : RuleSet) (aux : Aux) : Type 0 where
    ls : List (Least F)
    last : Aux
    run : scan_methods F cuts rules aux ≡ some (ls, last)
    count : length ls ≡ length cuts
    answered : Answered rules aux cuts ls last

  scan_methods-Scans :
      (cuts : List (CutMethod F Aux)) (rules : RuleSet) (aux : Aux)
      → All (λ m. IsTotal F order m rules) cuts
      → Scans cuts rules aux
  unfolding scan_methods
  scan_methods-Scans [] rules aux total = record {
    ls = [];
    last = aux;
    run = refl;
    count = refl;
    answered = (refl, refl);
  }
  scan_methods-Scans (m ∷ cuts) rules aux total =
      let (least, mid, mes, run, est, len, at, small, none_less) =
        scan_method-Estimates F order m rules total.0 aux in
      let s = scan_methods-Scans cuts rules mid total.1 in
      record {
        ls = least ∷ s.ls;
        last = s.last;
        run = rw (run, s.run) refl;
        count = omega (arith, s.count);
        answered = (mid, mes, est, len, at, small, none_less, s.answered);
      }

  length-quants :
      (aux : Aux) (cuts : List (CutMethod F Aux)) (ls : List (Least F))
      → length ls ≡ length cuts
      → length (quants F aux cuts ls) ≡ length cuts
  unfolding quants
  length-quants aux [] ls e = refl
  length-quants aux (m ∷ cuts) [] e = absurd (omega (arith, e))
  length-quants aux (m ∷ cuts) (l ∷ ls) e =
      omega (arith, length-quants aux cuts ls (omega (arith, e)))

  module _ (cuts : List (CutMethod F Aux)) (rules : RuleSet) (aux : Aux) where
    cut_node_run :
        (ls : List (Least F)) (last : Aux) (l : Least F) (t : ℕ)
        → leb (num rules) bucket_size ≡ false
        → scan_methods F cuts rules aux ≡ some (ls, last)
        → chose F true cuts rules ls last ≡ t
        → get_elem? ls t ≡ some l
        → cut_node F true cuts rules aux ≡ some (cut_by t l.dim last)
    unfolding cut_node
    cut_node_run ls last l t big run e at = rw (big, run, ◌>>=◌) (rw e (rw at refl))

    -- With memory_constraints, an order without a NaN, and at least one method, each of which answers in
    -- every dimension, cut_node of more rules than a bucket holds asks each method in turn for all dimensions,
    -- and each has a dimension whose expectation no other is less than. It cuts the rules by one of the methods,
    -- in that method's own dimension. The method has the fewest children of all methods, where one whose
    -- children do not all fit in buckets counts as having 127. Only if no method has fewer than the first, it
    -- is the one that the expectations give: one less than the number of rules that no other is less than, or
    -- the first if none is less than that number.
    pub cut_node-IsBest :
        0 < length cuts
        → All (λ m. IsTotal F order m rules) cuts
        → bucket_size < num rules
        → (ls : List (Least F)) × (last : Aux) × (counts : List ℕ) × (by_expect : ℕ) × (t : ℕ)
          × (l : Least F) × Answered rules aux cuts ls last
          × AreCounts last cuts ls counts
          × IsCheapest F order ls (F.from_int (num rules)) by_expect
          × IsBest counts by_expect t
          × (t < length cuts)
          × (get_elem? ls t ≡ some l)
          × (cut_node F true cuts rules aux ≡ some (cut_by t l.dim last))
    unfolding chose
    cut_node-IsBest some_cut total big =
        let s = scan_methods-Scans cuts rules aux total in
        let bound = F.from_int (num rules) in
        let by_expect = least_expect F s.ls 0 bound 0 in
        let qs = quants F s.last cuts s.ls in
        let t = by_quant qs by_expect in
        let small : t < length cuts =
          by_quant_small qs by_expect (length cuts) (length-quants s.last cuts s.ls s.count) (
            omega
              (arith, s.count, least_expect_small F order s.ls bound (omega (arith, s.count)))) in
        let (l, at) = length-at s.ls t (length cuts) s.count small in
        (
          s.ls,
          s.last,
          qs,
          by_expect,
          t,
          l,
          s.answered,
          quants-AreCounts s.last cuts s.ls,
          least_expect-IsCheapest F order s.ls bound,
          by_quant-IsBest qs by_expect,
          small,
          at,
          cut_node_run s.ls s.last l t (ground arith) s.run refl at,
        )
