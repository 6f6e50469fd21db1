-- ===== src/Hi/Estimate/Tries.antt =====
-- What one try of a number of segments finds: a cut that fits the rules of the node.
use choose_cut.Base.{
  ℕ, ◌+◌, ◌-◌, ◌*◌, ◌^◌, ◌≤◌, ◌<◌, ◌≡◌, refl, sym, ◌∙◌, arith, inl, inr, Bool, some, List, [], ◌∷◌,
  All, All-map, map, length, Bool-cases, u32,
}
use choose_cut.Base.Pow.{pow_pos, pow_le_pow}
use choose_cut.Rule.{dims, Rule}
use choose_cut.Ranges.{Range1d}
use choose_cut.Ranges.Sort.{weight_where}
use choose_cut.Heap.{HeapOps, IsLawful}
use choose_cut.Double.{Doubles}
use choose_cut.RuleSet.{RuleSet, num}
use choose_cut.Split.Sweep.{bigger}
use choose_cut.Split.Sweep.Pops.{all}
use choose_cut.Split.Sweep.Whole.{LowsRise}
use choose_cut.Split.Sweep.Outcome.{ending_behind}
use choose_cut.Split.Sweep.State.{weight_where-false}
use choose_cut.Split.Sweep.Rules.{
  IsRange, before, ranges_of, weight_where-none, weight_where-all, All-both, low_behind,
}
use choose_cut.Hi.{Seg, HiAux}
use choose_cut.Hi.Push.{reaches}
use choose_cut.Hi.Cut.{IsHiCut, Fits, seg_part}
use choose_cut.Hi.Search.{Placed}
use choose_cut.Hi.Sweep.{hi_get_me_1d, get_match_expect}
use choose_cut.Hi.Sweep.Numbers.{place_of, before_place, place_mono}
use choose_cut.Hi.Sweep.Children.{All-get}
use choose_cut.Hi.Sweep.State.{touches, IsFrame}
use choose_cut.Hi.Sweep.Loop.{Segs, hi_get_segs-Segs}
use choose_cut.Hi.Estimate.{highest}

pub highest-le :
    (high : ℕ) (rs : List Range1d)
    → (high ≤ highest high rs) × All (λ r. r.high ≤ highest high rs) rs
unfolding highest
highest-le high [] = (omega arith, tt)
highest-le high (r ∷ rs) =
    let ih = highest-le (bigger r.high high) rs in
    (ground (arith, ih.0), (ground (arith, ih.0), ih.1))

pub highest_small :
    (high : ℕ) (rs : List Range1d)
    → high < 2 ^ 32
    → All (λ r. r.high < 2 ^ 32) rs
    → highest high rs < 2 ^ 32
unfolding highest
highest_small high [] lt small = lt
highest_small high (r ∷ rs) lt small =
    highest_small (bigger r.high high) rs (ground (arith, small.0)) small.1

module _ (dim : ℕ) where
  weight_where-seg_part :
      (aux : HiAux) (g : Seg) (rules : List Rule)
      → weight_where (touches aux.start (2 ^ aux.shift) g.first g.last) (ranges_of dim rules)
        ≡ length (seg_part aux dim g rules)
  unfolding seg_part
  weight_where-seg_part aux g [] = refl
  weight_where-seg_part aux g (r ∷ rules) = elim (Bool-cases (reaches aux dim r g)) [
    | inl hit ↦ rw hit (omega (arith, weight_where-seg_part aux g rules))
    | inr miss ↦ rw miss (omega (arith, weight_where-seg_part aux g rules))
  ]

module _ (F : Doubles) (H : HeapOps) (law : IsLawful H) (rules : RuleSet) (dim : ℕ)
    (in_dims : dim < dims) (word : num rules < 2 ^ 32) (some_rule : 0 < num rules)
    (fit : All (IsRange dim) rules.list) where
  -- The ranges of the rules, merged.
  pub record Ready (first : Range1d) (rs : List Range1d) : Type 0 where
    pub weighs :
        (p : ℕ → ℕ → Bool) → weight_where p (first ∷ rs) ≡ weight_where p (ranges_of dim rules.list)
    pub rise : LowsRise (first ∷ rs)
    pub ranges : All (λ r. (r.low ≤ r.high) × (r.high < 2 ^ 32)) (first ∷ rs)

  -- A cut that fits, and where the rules lie in it.
  pub record Fitting (aux : HiAux) : Type 0 where
    pub top : ℕ
    pub top_small : top < 64
    pub is_cut : IsHiCut aux dim rules.list top
    pub placed : All (Placed aux dim top) rules.list

  module _ (first : Range1d) (rs : List Range1d) (ready : Ready first rs) where
    abbrev pub high : ℕ
    high = highest first.high rs

    rules_from : All (λ r. first.low ≤ (r.range dim).low) rules.list
    rules_from =
        All-map rules.list (λ r e. ground arith)
          (weight_where-none dim (before first.low) rules.list (
            sym (ready.weighs (before first.low))
            ∙ low_behind first.low (first ∷ rs) (omega arith, ready.rise.0)))

    rules_to : All (λ r. (r.range dim).high ≤ high) rules.list
    rules_to =
        let bound = highest-le first.high rs in
        All-map rules.list (λ r e. ground arith)
          (weight_where-none dim (ending_behind high) rules.list (
            sym (ready.weighs (ending_behind high))
            ∙ weight_where-false (ending_behind high) (first ∷ rs)
                (ground (arith, bound.0), All-map rs (λ r le. ground arith) bound.1)))

    module _ (shift div : ℕ) (some_div : 4 ≤ div) (few : div ≤ 64) (small : shift ≤ 31)
        (covers : high - first.low + 1 ≤ div * 2 ^ shift) where
      abbrev size : ℕ
      size = 2 ^ shift

      frame : IsFrame first.low size
      frame = record {
        wide = pow_pos shift;
        small = (let p = pow_le_pow shift 31 small in let l = ready.ranges.0 in omega (arith, l));
      }

      in_place :
          (l h : ℕ)
          → first.low ≤ l
          → l ≤ h
          → h ≤ high
          → h < 2 ^ 32
          → place_of first.low size h < div
      in_place l h from ordered to hword =
          before_place first.low size (pow_pos shift) h div (omega arith) hword
            (omega (arith, covers))

      boxed :
          All
            (λ r.
              (first.low ≤ r.low)
              × (r.low ≤ r.high)
              × (r.high < 2 ^ 32)
              × (place_of first.low size r.high < div))
            (first ∷ rs)
      boxed =
          let bound = highest-le first.high rs in
          let here = ready.ranges.0 in
          (
            (
              omega arith,
              here.0,
              here.1,
              in_place first.low first.high (omega arith) here.0 bound.0 here.1,
            ),
            boxes rs ready.rise.0 ready.ranges.1 bound.1,
          )
        where
          boxes :
              (xs : List Range1d)
              → All (λ r. first.low ≤ r.low) xs
              → All (λ r. (r.low ≤ r.high) × (r.high < 2 ^ 32)) xs
              → All (λ r. r.high ≤ high) xs
              → All
                  (λ r.
                    (first.low ≤ r.low)
                    × (r.low ≤ r.high)
                    × (r.high < 2 ^ 32)
                    × (place_of first.low size r.high < div))
                  xs
          boxes [] from ranges to = tt
          boxes (x ∷ xs) from ranges to =
              let here = ranges.0 in
              (
                (from.0, here.0, here.1, in_place x.low x.high from.0 here.0 to.0 here.1),
                boxes xs from.1 ranges.1 to.1,
              )

      total : weight_where all (first ∷ rs) ≡ num rules
      total = ready.weighs all ∙ weight_where-all dim rules.list

      at_start : place_of first.low size first.low ≤ 0
      at_start =
          let here = ready.ranges.0 in
          let wide = pow_pos shift in
          let b =
            before_place first.low size wide first.low 1 (omega arith) (omega (arith, here))
              (omega (arith, wide)) in
          omega (arith, b)

      segs_found :
          Segs H law first.low size frame div few
            (first ∷ rs)
            (omega (arith, total))
            first
            rs
            refl
            boxed
            ready.rise.1
            frame.small
            at_start
      segs_found =
          hi_get_segs-Segs H law first.low size frame div few (first ∷ rs) (omega (arith, total))
            first rs refl boxed ready.rise.1 frame.small at_start (omega (arith, total))

      abbrev aux_of : List Seg → HiAux
      aux_of segs = record { start = first.low; shift = shift; segs = segs }

      segs_fit : Fitting (aux_of segs_found.segs)
      segs_fit =
          let aux = aux_of segs_found.segs in
          let start_word = ready.ranges.0 in
          record {
            top = div - 1;
            top_small = omega arith;
            is_cut = record {
              tiled = segs_found.tiled;
              fits = fits_all rules.list fit rules_from rules_to;
              counts = λ j g e.
                  All-get
                    (λ g.
                      g.count ≡ weight_where (touches first.low size g.first g.last) (first ∷ rs))
                    segs_found.segs j g segs_found.counts e
                  ∙ ready.weighs (touches first.low size g.first g.last)
                  ∙ weight_where-seg_part dim aux g rules.list;
            };
            placed =
                All-both (IsRange dim) (λ r. first.low ≤ (r.range dim).low)
                  (Placed aux dim (div - 1)) rules.list
                  (λ r f from. record {
                    start_small = omega (arith, start_word);
                    shift_small = omega arith;
                    top_small = omega arith;
                    from_start = from;
                    ordered = f.0;
                    word = f.1;
                  })
                  fit rules_from;
          }
        where
          fits_all :
              (xs : List Rule)
              → All (IsRange dim) xs
              → All (λ r. first.low ≤ (r.range dim).low) xs
              → All (λ r. (r.range dim).high ≤ high) xs
              → All (Fits (aux_of segs_found.segs) dim (div - 1)) xs
          fits_all [] f from to = tt
          fits_all (x ∷ xs) f from to =
              let here = f.0 in
              let at = in_place (x.range dim).low (x.range dim).high from.0 here.0 to.0 here.1 in
              let mono =
                place_mono first.low size (pow_pos shift) (x.range dim).low (x.range dim).high
                  from.0 here.0 here.1 in
              ((mono, omega (arith, at)), fits_all xs f.1 from.1 to.1)

      me_run :
          (shift' : ℕ)
          → u32 (2 ^ shift') ≡ size
          → hi_get_me_1d F H first rs first.low (u32 (2 ^ shift')) div
            ≡ some (
              get_match_expect F (map (λ (g : Seg). g.count) segs_found.segs) segs_found.total,
              segs_found.segs,
              segs_found.total,
            )
      unfolding hi_get_me_1d
      me_run shift' same = rw same (rw segs_found.run refl)

    power_word : (shift : ℕ) → shift ≤ 31 → u32 (2 ^ shift) ≡ 2 ^ shift
    power_word shift small = let p = pow_le_pow shift 31 small in omega arith

    -- The number of segments is tried, and its children fit.
    pub record Tried (shift div : ℕ) : Type 0 where
      pub me : F.Double
      pub segs : List Seg
      pub total : ℕ
      pub run : hi_get_me_1d F H first rs first.low (u32 (2 ^ shift)) div ≡ some (me, segs, total)
      pub fitting : Fitting (record { start = first.low; shift = shift; segs = segs })

    pub try_segs :
        (shift div : ℕ)
        → 4 ≤ div
        → div ≤ 64
        → shift ≤ 31
        → high - first.low + 1 ≤ div * 2 ^ shift
        → Tried shift div
    try_segs shift div some_div few small covers =
        let found = segs_found shift div some_div few small covers in
        record {
          me = get_match_expect F (map (λ (g : Seg). g.count) found.segs) found.total;
          segs = found.segs;
          total = found.total;
          run = me_run shift div some_div few small covers shift (power_word shift small);
          fitting = segs_fit shift div some_div few small covers;
        }
