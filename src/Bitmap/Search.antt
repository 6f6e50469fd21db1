-- ===== src/Bitmap/Search.antt =====
-- even_search goes to the child of the nearest cell with rules.
use mathlib.Core.Option
use choose_cut.Base.{
  ℕ, zero, suc, ◌+◌, ◌-◌, ◌/◌, ◌^◌, ◌%◌, ◌<◌, ◌≤◌, ◌≡◌, ◌≢◌, refl, sym, ◌∙◌, ap, ◌⊎◌, arith, inl,
  inr, true, false, Option, none, some, ltb, ◌==◌, if◌then◌else◌, ◌>>=◌, Bool-cases,
}
use choose_cut.Base.Pow.{pow_pos, pow-suc_two, pow_le_pow}
use native.Mathlib.Nat.{mod-eq_of_lt}
use choose_cut.Rule.{Flow}
use choose_cut.MbNode.{
  Hit, miss, hit, MbNode, count_inl_bitmap, test_bitmap, tree_levels, fast_lookup_init,
  tree_function,
}
use choose_cut.MbNode.Table.{tables, fast_lookup_init-tables}
use choose_cut.MbNode.Lookup.{deeper, count_inl_bitmap_lem, tree_function-tree_levels}
use choose_cut.Bitmap.{
  RuleHist, inl_offset, dim_bits, first_parent, even_mark, child_at, next_inl, next_exl,
  even_search, shift_key,
}
use choose_cut.Bitmap.Fill.{test_bitmap-fill}
use choose_cut.Bitmap.Slots.{exl, marked, place, child_at-place, even_mark-marked}

-- The cell itself if it holds rules, or the nearest one above it that does.
abbrev pub nearest : (ℕ → ℕ) → ℕ → Option ℕ
nearest c i = if c i == 0 then first_parent 7 c i else some i

abbrev place_of : Hit → Option ℕ
place_of miss = none
place_of (hit pos cidr) = some pos

-- The levels of the lookup are the cells above, one after the other.
tree_levels-first_parent :
    (c : ℕ → ℕ) (bitmap : ℕ)
    → ((p : ℕ) → p < 63 → test_bitmap bitmap p ≡ (if c p == 0 then 0 else 2 ^ p))
    → (j stride : ℕ) → j ≤ 6
    → stride < 2 ^ j
    → place_of (tree_levels j bitmap stride) ≡ first_parent (suc j) c (2 ^ j + stride - 1)
unfolding tree_levels first_parent
tree_levels-first_parent c bitmap holds zero stride le lt =
    let e : stride ≡ 0 = omega arith in rw e refl
tree_levels-first_parent c bitmap holds (suc j) stride le lt =
    let half : stride / 2 < 2 ^ j = omega (arith, pow-suc_two j) in
    let pos = count_inl_bitmap (stride / 2) j in
    let p = count_inl_bitmap_lem (stride / 2) j (omega arith) half in
    let small = pow_le_pow (suc j) 6 le in
    let above : (2 ^ suc j + stride - 1 - 1) / 2 ≡ pos = omega (arith, pow-suc_two j, pow_pos j) in
    let not_root : (2 ^ suc j + stride - 1 == 0) ≡ false =
      ground (arith, pow-suc_two j, pow_pos j) in
    let same : 2 ^ j + stride / 2 - 1 ≡ pos = omega arith in
    let ih = tree_levels-first_parent c bitmap holds j (stride / 2) (omega arith) half in
    rw (above, not_root, holds pos (omega arith))
      (elim (Bool-cases (c pos == 0)) [
        | inl no_rules ↦ rw no_rules (ih ∙ ap (first_parent (suc j) c) same)
        | inr rules ↦
            let some_bit : (2 ^ pos == 0) ≡ false = ground (arith, pow_pos pos) in
            rw (rules, some_bit) refl
      ])

first_parent-rules :
    (fuel : ℕ) (c : ℕ → ℕ) (j p : ℕ)
    → j < 127
    → first_parent fuel c j ≡ some p
    → (p < 63) × ((c p == 0) ≡ false)
unfolding first_parent
first_parent-rules zero c j p lt e = cc
first_parent-rules (suc fuel) c j p lt e = elim (Bool-cases (j == 0)) [
  | inl root ↦ (let e' = rw root at e in cc)
  | inr below ↦ elim (Bool-cases (c ((j - 1) / 2) == 0)) [
    | inl no_rules ↦
        (let e' = rw (below, no_rules) at e in
          first_parent-rules fuel c ((j - 1) / 2) p (omega arith) e')
    | inr rules ↦
        (let e' = rw (below, rules) at e in
          let same = Option.some_inj.0 e' in (omega arith, ap (λ t. c t == 0) (sym same) ∙ rules))
  ]
]

stride_small : (dim key : ℕ) → key < 2 ^ dim_bits dim → key / 2 ^ (dim_bits dim - 6) < 64
stride_small zero key lt = omega arith
stride_small (suc zero) key lt = omega arith
stride_small (suc (suc zero)) key lt = omega arith
stride_small (suc (suc (suc zero))) key lt = omega arith
stride_small (suc (suc (suc (suc d)))) key lt = omega arith

-- The search has found the child of the cell that is given, or nothing if none is.
abbrev pub Finds : MbNode → Option ℕ → Option ℕ → Type 0
Finds n none found = found ≡ none
Finds n (some k) found = (p : ℕ) × (child_at n k ≡ some p) × (found ≡ some p)

abbrev pub lowest_cell : ℕ → Flow → ℕ
lowest_cell dim f = inl_offset + f.key dim / 2 ^ (dim_bits dim - 6)

module _ (c : ℕ → ℕ) where
  next_exl-place :
      (k : ℕ) → (exl c k == 0) ≡ false → next_exl (marked c) k ≡ some (place c (inl_offset + k))
  unfolding child_at
  next_exl-place k rules =
      let outside : ltb (inl_offset + k) inl_offset ≡ false = ground arith in
      let e : inl_offset + k - inl_offset ≡ k = omega arith in
      (let found = child_at-place c (inl_offset + k) rules in rw (outside, e) at found)

  next_inl-place : (i : ℕ) → i < 63 → (c i == 0) ≡ false → next_inl (marked c) i ≡ some (place c i)
  unfolding child_at
  next_inl-place i low rules =
      let inside : ltb i inl_offset ≡ true = ground arith in
      (let found = child_at-place c i rules in rw inside at found)

shift_key_other : (f : Flow) (dim lshift d : ℕ) → d ≢ dim → (shift_key f dim lshift).key d ≡ f.key d
shift_key_other f dim lshift d ne = let other : (d == dim) ≡ false = ground arith in rw other refl

Hit-cases : (found : Hit) → (found ≡ miss) ⊎ ((pos : ℕ) × (cidr : ℕ) × (found ≡ hit pos cidr))
Hit-cases miss = inl refl
Hit-cases (hit pos cidr) = inr (pos, cidr, refl)

module _ (c : ℕ → ℕ) (dim : ℕ) (f : Flow) (word : f.key dim < 2 ^ dim_bits dim) where
  abbrev pub Found : Type 0
  Found =
      (found : Option ℕ) × (f' : Flow) × (even_search tables (marked c) dim f ≡ some (found, f'))
      × Finds (marked c) (nearest c (lowest_cell dim f)) found
      × ((d : ℕ) → d ≢ dim → f'.key d ≡ f.key d)

  stride_byte : f.key dim / 2 ^ (dim_bits dim - 6) % 2 ^ 8 ≡ f.key dim / 2 ^ (dim_bits dim - 6)
  stride_byte = mod-eq_of_lt (omega (arith, stride_small dim (f.key dim) word))

  abbrev stride : ℕ
  stride = f.key dim / 2 ^ (dim_bits dim - 6)

  external :
      test_bitmap (marked c).external stride
      ≡ (if c (lowest_cell dim f) == 0 then 0 else 2 ^ stride)
  external =
      test_bitmap-fill (exl c) 64 0 0 stride (omega arith) (omega arith)
        (omega (arith, stride_small dim (f.key dim) word))

  levels :
      place_of (tree_levels 6 (marked c).internal stride) ≡ first_parent 7 c (lowest_cell dim f)
  levels =
      let e : 2 ^ 6 + stride - 1 ≡ lowest_cell dim f = omega arith in
      tree_levels-first_parent c (marked c).internal
        (λ p lt. test_bitmap-fill c 63 0 0 p (omega arith) (omega arith) (omega arith)) 6 stride
        (omega arith) (stride_small dim (f.key dim) word)
      ∙ ap (first_parent 7 c) e

  lookup :
      tree_function tables (marked c).internal stride
      ≡ some (deeper (tree_levels 6 (marked c).internal stride))
  lookup = tree_function-tree_levels (marked c).internal stride (stride_small dim (f.key dim) word)

  in_lowest : (c (lowest_cell dim f) == 0) ≡ false → Found
  unfolding even_search
  in_lowest rules =
      let found = next_exl-place c stride rules in
      let some_bit : (2 ^ stride == 0) ≡ false = ground (arith, pow_pos stride) in
      (
        some (place c (lowest_cell dim f)),
        shift_key f dim 6,
        rw (stride_byte, external, rules, some_bit, found) refl,
        rw rules (place c (lowest_cell dim f), child_at-place c (lowest_cell dim f) rules, refl),
        shift_key_other f dim 6,
      )

  in_higher : (c (lowest_cell dim f) == 0) ≡ true → Found
  unfolding even_search
  in_higher no_rules = elim (Hit-cases (tree_levels 6 (marked c).internal stride)) [
    | inl no_hit ↦
        let nothing : first_parent 7 c (lowest_cell dim f) ≡ none =
          sym levels ∙ ap place_of no_hit in
        (
          none,
          f,
          rw (stride_byte, external, no_rules, lookup, no_hit) refl,
          rw (no_rules, nothing) refl,
          λ d ne. refl,
        )
    | inr (pos, cidr, one_hit) ↦
        let there : first_parent 7 c (lowest_cell dim f) ≡ some pos =
          sym levels ∙ ap place_of one_hit in
        let (low, rules) =
          first_parent-rules 7 c (lowest_cell dim f) pos
            (omega (arith, stride_small dim (f.key dim) word)) there in
        (
          some (place c pos),
          shift_key f dim (cidr + 1),
          rw (stride_byte, external, no_rules, lookup, one_hit, next_inl-place c pos low rules)
              refl,
          rw (no_rules, there) (place c pos, child_at-place c pos rules, refl),
          shift_key_other f dim (cidr + 1),
        )
  ]

-- For a key of the width of its dimension, even_search, on the tables that fast_lookup_init makes and
-- the node that even_cut makes of a histogram, reads no table out of range and no child before the
-- array. It goes to the child of the cell of the first six bits if that holds rules, and else to the
-- child of the nearest cell above that does, the one that get_rule_hist adds to the count, or nowhere
-- if none does; the keys of the other dimensions stay.
pub even_search-even_mark :
    (h : RuleHist) (dim : ℕ) (f : Flow)
    → f.key dim < 2 ^ dim_bits dim
    → (found : Option ℕ) × (f' : Flow) × ((fast_lookup_init >>= λ t.
          even_search t (even_mark h).0 dim f)
        ≡ some (found, f'))
      × Finds (even_mark h).0 (nearest h.child_rulecount (lowest_cell dim f)) found
      × ((d : ℕ) → d ≢ dim → f'.key d ≡ f.key d)
even_search-even_mark h dim f word =
    rw (fast_lookup_init-tables, even_mark-marked h)
      (elim (Bool-cases (h.child_rulecount (lowest_cell dim f) == 0)) [
        | inl no_rules ↦ in_higher h.child_rulecount dim f word no_rules
        | inr rules ↦ in_lowest h.child_rulecount dim f word rules
      ])
