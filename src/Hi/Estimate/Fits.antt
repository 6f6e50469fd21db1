-- ===== src/Hi/Estimate/Fits.antt =====
-- hi_get_rule_hist leaves a cut that fits the rules of the node.
use choose_cut.Base.{
  ℕ, zero, suc, ◌+◌, ◌-◌, ◌*◌, ◌^◌, ◌≤◌, ◌<◌, ◌≡◌, refl, sym, ◌∙◌, ap, subst, arith, ◌⊎◌, inl, inr,
  Bool, true, false, ◌&&◌, ◌||◌, Option, some, List, [], ◌∷◌, All, All-map, ltb, leb, ◌==◌, ◌>>=◌,
  Bool-cases, u32, add64, sub64,
}
use choose_cut.Base.Pow.{pow-suc_two}
use choose_cut.Rule.{dims}
use choose_cut.Ranges.{Range1d, sort_ranges, unique_ranges}
use choose_cut.Ranges.Sort.{
  weight_where, weight_where-sort_ranges, sort_ranges-IsSorted, sort_ranges-All, IsSorted,
}
use choose_cut.Ranges.Unique.{WeighsOne, IsRising, unique_ranges-Merged}
use choose_cut.Heap.{HeapOps, IsLawful}
use choose_cut.Double.{Doubles}
use choose_cut.RuleSet.{RuleSet, num}
use choose_cut.Split.Sweep.Pops.{all}
use choose_cut.Split.Sweep.Whole.{Rising-LowsRise}
use choose_cut.Split.Sweep.Rules.{
  IsRange, ranges_of, weight_where-all, ranges-WeighsOne, All-ranges,
}
use choose_cut.Hi.{Seg, HiAux}
use choose_cut.Hi.Sweep.{hi_get_me_1d}
use choose_cut.Hi.Estimate.{
  roundup_log2, seg_length, highest, calc_me_ratio, hi_try, hi_divide, hi_get_rule_hist,
}
use choose_cut.Hi.Estimate.Tries
use choose_cut.Hi.Estimate.Tries.{highest-le, highest_small}
use choose_cut.Hi.Estimate.Rounding.{seg_length-Divided}

module _ (F : Doubles) (H : HeapOps) (law : IsLawful H) (rules : RuleSet) (dim : ℕ)
    (in_dims : dim < dims) (word : num rules < 2 ^ 32) (some_rule : 0 < num rules)
    (fit : All (IsRange dim) rules.list) where
  abbrev Ready : Range1d → List Range1d → Type 0
  Ready = Tries.Ready F H law rules dim in_dims word some_rule fit

  abbrev Fitting : HiAux → Type 0
  Fitting = Tries.Fitting F H law rules dim in_dims word some_rule fit

  module _ (first : Range1d) (rs : List Range1d) (ready : Ready first rs) where
    abbrev high : ℕ
    high = highest first.high rs

    -- One round of the loop.
    module _ (fuel len div shift shift' : ℕ) (last : F.Double × List Seg × ℕ)
        (next : F.Double × List Seg × ℕ) (me_ratio : F.Double)
        (rounded : roundup_log2 (seg_length len (div * 2)) ≡ some shift') where
      abbrev stops : Bool
      stops = ltb 64 (div * 2) || ltb len (div * 2) || (shift' == shift)

      abbrev improves : Bool
      improves = leb (div * 2) 64 && F.less me_ratio (calc_me_ratio F H (num rules) last.2 next.0)

      abbrev kept : Option (F.Double × HiAux × ℕ)
      kept = some (last.0, record { start = first.low; shift = shift; segs = last.1 }, last.2)

      try_stop :
          stops ≡ true
          → hi_try F H (suc fuel) first rs (num rules) len div shift last me_ratio ≡ kept
      unfolding hi_try
      try_stop stop = rw (rounded, ◌>>=◌) (rw stop refl)

      try_worse :
          stops ≡ false
          → hi_get_me_1d F H first rs first.low (u32 (2 ^ shift')) (div * 2) ≡ some next
          → improves ≡ false
          → hi_try F H (suc fuel) first rs (num rules) len div shift last me_ratio ≡ kept
      unfolding hi_try
      try_worse more run worse = rw (rounded, ◌>>=◌) (rw (more, run, ◌>>=◌) (rw worse refl))

      try_better :
          stops ≡ false
          → hi_get_me_1d F H first rs first.low (u32 (2 ^ shift')) (div * 2) ≡ some next
          → improves ≡ true
          → hi_try F H (suc fuel) first rs (num rules) len div shift last me_ratio
            ≡ hi_try F H fuel first rs
                (num rules)
                len
                (div * 2)
                shift'
                next
                (calc_me_ratio F H (num rules) last.2 next.0)
      unfolding hi_try
      try_better more run better = rw (rounded, ◌>>=◌) (rw (more, run, ◌>>=◌) (rw better refl))

    -- What the loop leaves.
    abbrev Left : Option (F.Double × HiAux × ℕ) → Type 0
    Left result =
        (me : F.Double) × (aux : HiAux) × (total : ℕ) × (result ≡ some (me, aux, total))
        × Fitting aux

    hi_try-Left :
        (fuel len div shift : ℕ) (me : F.Double) (segs : List Seg) (sum : ℕ) (me_ratio : F.Double)
        → len ≡ high - first.low + 1
        → len ≤ 2 ^ 32
        → 4 ≤ div
        → div ≤ 64
        → 64 < div * 2 ^ fuel
        → Fitting (record { start = first.low; shift = shift; segs = segs })
        → Left (hi_try F H fuel first rs (num rules) len div shift (me, segs, sum) me_ratio)
    hi_try-Left zero len div shift me segs sum me_ratio e in_word some_div few fuel_left fitting =
        absurd (omega arith)
    hi_try-Left (suc fuel) len div shift me segs sum me_ratio e in_word some_div few fuel_left
          fitting =
        let d =
          seg_length-Divided len (div * 2) (omega arith) (omega arith) (omega (arith, e)) in_word in
        elim (Bool-cases (ltb 64 (div * 2) || ltb len (div * 2) || (d.shift == shift))) [
          | inl stop ↦ (
            me,
            record { start = first.low; shift = shift; segs = segs },
            sum,
            try_stop fuel len div shift d.shift (me, segs, sum) (me, segs, sum) me_ratio d.run stop,
            fitting,
          )
          | inr more ↦
              let div_few : div * 2 ≤ 64 = ground (arith, more) in
              let t =
                Tries.try_segs F H law rules dim in_dims word some_rule fit first rs ready d.shift
                  (div * 2) (omega arith) div_few d.small (omega (arith, e, d.covers)) in
              let ratio = calc_me_ratio F H (num rules) sum t.me in
              elim (Bool-cases (leb (div * 2) 64 && F.less me_ratio ratio)) [
                | inl better ↦
                    let ih =
                      hi_try-Left fuel len (div * 2) d.shift t.me t.segs t.total ratio e in_word
                        (omega arith) div_few (twice div fuel fuel_left) t.fitting in
                    (
                      ih.0,
                      ih.1,
                      ih.2,
                      try_better fuel len div shift d.shift (me, segs, sum) (t.me, t.segs, t.total)
                            me_ratio d.run more t.run better
                          ∙ ih.3,
                      ih.4,
                    )
                | inr worse ↦ (
                  me,
                  record { start = first.low; shift = shift; segs = segs },
                  sum,
                  try_worse fuel len div shift d.shift (me, segs, sum) (t.me, t.segs, t.total)
                      me_ratio d.run more t.run worse,
                  fitting,
                )
              ]
        ]
      where
        twice : (div fuel : ℕ) → 64 < div * 2 ^ suc fuel → 64 < div * 2 * 2 ^ fuel
        twice div fuel lt = let p = pow-suc_two fuel in omega (arith, rw p at lt)

    -- What hi_get_rule_hist leaves: the dimension as it was, or a cut that fits.
    abbrev Answer : HiAux → Option (F.Double × HiAux × ℕ) → Type 0
    Answer aux result =
        (me : F.Double) × (aux' : HiAux) × (total : ℕ) × (result ≡ some (me, aux', total))
        × (((me ≡ F.from_int (num rules)) × (aux' ≡ aux)) ⊎ Fitting aux')

    abbrev len_of : ℕ
    len_of = add64 (sub64 high first.low) 1

    divide_short :
        (aux : HiAux) (hist_rules : ℕ)
        → ltb len_of 4 ≡ true
        → hi_divide F H first rs (num rules) aux hist_rules
          ≡ some (F.from_int (num rules), aux, hist_rules)
    unfolding hi_divide
    divide_short aux hist_rules short = rw short refl

    divide_long :
        (aux : HiAux) (hist_rules shift : ℕ) (found : F.Double × List Seg × ℕ)
        → ltb len_of 4 ≡ false
        → roundup_log2 (seg_length len_of 4) ≡ some shift
        → hi_get_me_1d F H first rs first.low (u32 (2 ^ shift)) 4 ≡ some found
        → hi_divide F H first rs (num rules) aux hist_rules
          ≡ hi_try F H 5 first rs
              (num rules)
              len_of
              4
              shift
              found
              (calc_me_ratio F H (num rules) hist_rules found.0)
    unfolding hi_divide
    divide_long aux hist_rules shift found long rounded run =
        rw (long, rounded, ◌>>=◌) (rw (run, ◌>>=◌) refl)

    answered :
        (aux : HiAux) (result result' : Option (F.Double × HiAux × ℕ))
        → result ≡ result'
        → Left result'
        → Answer aux result
    answered aux result result' same (me, aux', total, run, fitting) =
        (me, aux', total, same ∙ run, inr fitting)

    hi_divide-Answer :
        (aux : HiAux) (hist_rules : ℕ)
        → Answer aux (hi_divide F H first rs (num rules) aux hist_rules)
    hi_divide-Answer aux hist_rules =
        let here = ready.ranges.0 in
        let bound = highest-le first.high rs in
        let word_high =
          highest_small first.high rs here.1 (All-map rs (λ r w. w.1) ready.ranges.1) in
        let len : len_of ≡ high - first.low + 1 = omega (arith, here, bound.0) in
        elim (Bool-cases (ltb len_of 4)) [
          | inl short ↦ (
            F.from_int (num rules),
            aux,
            hist_rules,
            divide_short aux hist_rules short,
            inl (refl, refl),
          )
          | inr long ↦
              let d =
                seg_length-Divided len_of 4 (omega arith) (omega arith) (omega (arith, len))
                  (omega (arith, len)) in
              let t =
                Tries.try_segs F H law rules dim in_dims word some_rule fit first rs ready d.shift 4
                  (omega arith) (omega arith) d.small (omega (arith, len, d.covers)) in
              let left =
                hi_try-Left 5 len_of 4 d.shift t.me t.segs t.total
                  (calc_me_ratio F H (num rules) hist_rules t.me) len (omega (arith, len))
                  (omega arith) (omega arith) (omega arith) t.fitting in
              answered aux (hi_divide F H first rs (num rules) aux hist_rules)
                (hi_try F H 5 first rs (num rules) len_of 4 d.shift (t.me, t.segs, t.total)
                  (calc_me_ratio F H (num rules) hist_rules t.me))
                (divide_long aux hist_rules d.shift (t.me, t.segs, t.total) long d.run t.run) left
        ]

  merged_run :
      (first : Range1d) (rs : List Range1d) (aux : HiAux) (hist_rules : ℕ)
      → unique_ranges (sort_ranges (ranges_of dim rules.list)) ≡ some (first ∷ rs)
      → hi_get_rule_hist F H rules dim aux hist_rules
        ≡ hi_divide F H first rs (num rules) aux hist_rules
  unfolding hi_get_rule_hist
  merged_run first rs aux hist_rules e = rw (e, ◌>>=◌) refl

  nothing_weighs : weight_where all [] ≡ weight_where all (ranges_of dim rules.list) → ⊥
  nothing_weighs e = omega (arith, e, weight_where-all dim rules.list)

  merged_out :
      (out : List Range1d)
      → unique_ranges (sort_ranges (ranges_of dim rules.list)) ≡ some out
      → IsRising out
      → ((p : ℕ → ℕ → Bool) → weight_where p out ≡ weight_where p (ranges_of dim rules.list))
      → All (λ r. (r.low ≤ r.high) × (r.high < 2 ^ 32)) out
      → (first : Range1d) × (rs : List Range1d) × (unique_ranges
            (sort_ranges (ranges_of dim rules.list))
          ≡ some (first ∷ rs))
        × Ready first rs
  merged_out [] run rising weighs ranges = absurd (nothing_weighs (weighs all))
  merged_out (first ∷ rs) run rising weighs ranges = (
    first,
    rs,
    run,
    record { weighs = weighs; rise = Rising-LowsRise first rs rising; ranges = ranges },
  )

  merged :
      (sorted : List Range1d)
      → sort_ranges (ranges_of dim rules.list) ≡ sorted
      → (first : Range1d) × (rs : List Range1d) × (unique_ranges
            (sort_ranges (ranges_of dim rules.list))
          ≡ some (first ∷ rs))
        × Ready first rs
  merged [] e = absurd (
      nothing_weighs
        (ap (weight_where all) (sym e) ∙ weight_where-sort_ranges all (ranges_of dim rules.list)))
  merged (r ∷ rs) e =
      let listed = ranges_of dim rules.list in
      let m = unique_ranges-Merged r rs (subst IsSorted e (sort_ranges-IsSorted listed)) (
        subst (All WeighsOne) e
          (sort_ranges-All WeighsOne listed (ranges-WeighsOne dim rules.list))) in
      merged_out m.out (ap unique_ranges e ∙ m.run) m.rising
        (λ p. m.weights p ∙ ap (weight_where p) (sym e) ∙ weight_where-sort_ranges p listed)
        (m.bounds (λ l h. (l ≤ h) × (h < 2 ^ 32))
          (subst (All (λ r. (r.low ≤ r.high) × (r.high < 2 ^ 32))) e (
            sort_ranges-All (λ r. (r.low ≤ r.high) × (r.high < 2 ^ 32)) listed
              (All-ranges dim (λ l h. (l ≤ h) × (h < 2 ^ 32)) rules.list fit))))

  -- With a heap that keeps its promises, at least one and fewer than 2 ^ 32 rules, whose ranges in one of the
  -- five dimensions have low <= high < 2 ^ 32, hi_get_rule_hist in that dimension passes its
  -- assertions, writes in no array out of its bounds and comes to an end. Either it answers the number of
  -- rules and leaves the dimension as it was, or what it leaves there is a cut that fits the rules: the
  -- children follow one another over at most 64 segments, every rule lies in these, and each child counts the
  -- rules that reach into it.
  pub hi_get_rule_hist-IsHiCut :
      (aux : HiAux) (hist_rules : ℕ)
      → (me : F.Double) × (aux' : HiAux) × (total : ℕ) × (hi_get_rule_hist F H rules dim aux
            hist_rules
          ≡ some (me, aux', total))
        × (((me ≡ F.from_int (num rules)) × (aux' ≡ aux))
            ⊎ Tries.Fitting F H law rules dim in_dims word some_rule fit aux')
  hi_get_rule_hist-IsHiCut aux hist_rules =
      let (first, rs, run, ready) = merged (sort_ranges (ranges_of dim rules.list)) refl in
      let a = hi_divide-Answer first rs ready aux hist_rules in
      (a.0, a.1, a.2, merged_run first rs aux hist_rules run ∙ a.3, a.4)
