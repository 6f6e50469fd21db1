-- ===== src/Split/Expect/Sides.antt =====
-- split_match_build_childs leaves a side that is cut where a cut of its rules has been found.
use choose_cut.Base.{
  ℕ, zero, suc, ◌+◌, ◌^◌, ◌≤◌, ◌<◌, ◌≡◌, refl, arith, ◌⊎◌, inl, inr, Bool, ◌&&◌, Option, none, some,
  List, All, All-map, leb, length, Bool-cases,
}
use choose_cut.Rule.{dims, Rule}
use choose_cut.Ranges.{Range1d}
use choose_cut.Heap.{HeapOps, IsLawful}
use choose_cut.Double.{IsReflexive, Doubles, double_equals}
use choose_cut.RuleSet.{num}
use choose_cut.Split.{Snode, bucket_size, split_disable_snode, split_enable_snode}
use choose_cut.Split.Cut.{Cuts, IsSide}
use choose_cut.Split.Sweep.Rules.{IsRange}
use choose_cut.Split.Sweep.Fits.{split_match_expect_1d-Cuts}
use choose_cut.Split.Expect.{MinCut, keep_min, build_dims, take_min, split_match_build_childs}

-- All the ranges of a rule.
abbrev pub IsBox : Rule → Type 0
IsBox r = (j : ℕ) → j < dims → IsRange j r

pub in_dim : (j : ℕ) (rules : List Rule) → j < dims → All IsBox rules → All (IsRange j) rules
in_dim j rules lt h = All-map rules (λ r box. box j lt) h

module _ (F : Doubles) (H : HeapOps) (law : IsLawful H) (memory_constraints : Bool) where
  abbrev IsMin : List Rule → MinCut F → Type 0
  IsMin rules m = (m.mec ≡ F.from_int (length rules)) ⊎ Cuts m.dim m.r0 m.r1 rules

  -- The minimum that is kept: a cut of the rules, or no gain.
  pub record Kept (n : Snode) (left i : ℕ) (m : Option (MinCut F)) : Type 0 where
    pub r0 : Range1d
    pub r1 : Range1d
    pub min : MinCut F
    pub run :
        build_dims F H memory_constraints left i n m
        ≡ some (record n { r0 = r0; r1 = r1 }, some min)
    pub is_min : IsMin n.rule_set.list min

  keep_min-IsMin :
      (n : Snode) (i : ℕ) (me : F.Double) (m : MinCut F)
      → (me ≡ F.from_int (num n.rule_set)) ⊎ Cuts i n.r0 n.r1 n.rule_set.list
      → IsMin n.rule_set.list m
      → (m' : MinCut F) × (keep_min F n i me (some m) ≡ some m') × IsMin n.rule_set.list m'
  unfolding keep_min
  keep_min-IsMin n i me m new old = elim (Bool-cases (F.less me m.mec)) [
    | inl better ↦ (record { dim = i; r0 = n.r0; r1 = n.r1; mec = me }, rw better refl, new)
    | inr worse ↦ (m, rw worse refl, old)
  ]

  build_dims-Kept :
      (left i : ℕ) (n : Snode) (m : MinCut F)
      → i + left ≤ dims
      → num n.rule_set < 2 ^ 32
      → All IsBox n.rule_set.list
      → IsMin n.rule_set.list m
      → Kept n left i (some m)
  unfolding build_dims
  build_dims-Kept zero i n m le word boxes old = record {
    r0 = n.r0;
    r1 = n.r1;
    min = m;
    run = refl;
    is_min = old;
  }
  build_dims-Kept (suc left) i n m le word boxes old =
      let lt : i < dims = omega arith in
      let (me, r0, r1, found, fitting) =
        split_match_expect_1d-Cuts F H law n i lt word (in_dim i n.rule_set.list lt boxes) in
      let n' = record n { r0 = r0; r1 = r1 } in
      let new : (me ≡ F.from_int (num n.rule_set)) ⊎ Cuts i r0 r1 n.rule_set.list = elim fitting [
        | inl e ↦ inl e
        | inr c ↦ inr c.0
      ] in
      let (m', kept, is_min) = keep_min-IsMin n' i me m new old in
      let ih = build_dims-Kept left (i + 1) n' m' (omega arith) word boxes is_min in
      record {
        r0 = ih.r0;
        r1 = ih.r1;
        min = ih.min;
        run = rw (found, kept) ih.run;
        is_min = ih.is_min;
      }

  all_dims-Kept :
      (n : Snode) → num n.rule_set < 2 ^ 32 → All IsBox n.rule_set.list → Kept n dims 0 none
  unfolding build_dims keep_min
  all_dims-Kept n word boxes =
      let (me, r0, r1, found, fitting) =
        split_match_expect_1d-Cuts F H law n 0 (omega arith) word
          (in_dim 0 n.rule_set.list (omega arith) boxes) in
      let n' = record n { r0 = r0; r1 = r1 } in
      let new : (me ≡ F.from_int (num n.rule_set)) ⊎ Cuts 0 r0 r1 n.rule_set.list = elim fitting [
        | inl e ↦ inl e
        | inr c ↦ inr c.0
      ] in
      let ih =
        build_dims-Kept 4 1 n' (record { dim = 0; r0 = r0; r1 = r1; mec = me }) (omega arith) word
          boxes new in
      record { r0 = ih.r0; r1 = ih.r1; min = ih.min; run = rw found ih.run; is_min = ih.is_min }

  take_min_rules :
      (n : Snode) (m : MinCut F) → (take_min F H memory_constraints n m).rule_set ≡ n.rule_set
  unfolding take_min split_disable_snode
  take_min_rules n m = elim (Bool-cases (double_equals F m.mec (F.from_int (num n.rule_set)))) [
    | inl e ↦ rw e refl
    | inr e ↦ rw e refl
  ]

  module _ (reflexive : IsReflexive F) where
    take_min-IsSide :
        (n : Snode) (m : MinCut F)
        → IsMin n.rule_set.list m
        → IsSide (take_min F H memory_constraints n m) n.rule_set.list
    unfolding take_min split_disable_snode
    take_min-IsSide n m is_min =
        elim (Bool-cases (double_equals F m.mec (F.from_int (num n.rule_set)))) [
          | inl no_gain ↦ rw no_gain (record { cuts = λ on. absurd (ground (arith, on)) })
          | inr gain ↦ rw gain (record {
            cuts = λ on. elim is_min [
              | inl same ↦
                  absurd (
                    let gain' = rw same at gain in
                    ground (arith, gain', reflexive (num n.rule_set)))
              | inr cuts ↦ cuts
            ];
          })
        ]

    -- With a heap that keeps its promises, floating point in which every integer equals itself, and on a side
    -- of fewer than 2 ^ 32 rules, each with low <= high < 2 ^ 32 in all five dimensions,
    -- split_match_build_childs comes to an end and passes its assertions; it keeps the rules of the side, and if it leaves the side cut again, the two ranges
    -- fit the rules in the dimension that it has chosen.
    pub split_match_build_childs-IsSide :
        (n : Snode)
        → num n.rule_set < 2 ^ 32
        → All IsBox n.rule_set.list
        → (side : Snode) × (split_match_build_childs F H memory_constraints n ≡ some side)
          × (side.rule_set ≡ n.rule_set)
          × IsSide side n.rule_set.list
    unfolding split_match_build_childs split_disable_snode split_enable_snode take_min
    split_match_build_childs-IsSide n word boxes =
        elim (Bool-cases (memory_constraints && leb (num n.rule_set) bucket_size)) [
          | inl few ↦ (
            split_disable_snode n,
            rw few refl,
            refl,
            record { cuts = λ on. absurd (ground (arith, on)) },
          )
          | inr many ↦
              let k = all_dims-Kept (split_enable_snode n) word boxes in
              let n' = record (split_enable_snode n) { r0 = k.r0; r1 = k.r1 } in
              (
                take_min F H memory_constraints n' k.min,
                rw (many, k.run) refl,
                take_min_rules n' k.min,
                take_min-IsSide n' k.min k.is_min,
              )
        ]
