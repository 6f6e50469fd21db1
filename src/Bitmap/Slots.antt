-- ===== src/Bitmap/Slots.antt =====
-- Each cell with rules has a child of its own.
use choose_cut.Base.{
  ℕ, ◌+◌, ◌-◌, ◌^◌, ◌<◌, ◌≤◌, ◌≡◌, ◌≢◌, refl, sym, ◌∙◌, arith, inl, inr, true, false, some, ltb,
  ◌==◌, if◌then◌else◌, Bool-cases, popcount, bit_and,
}
use choose_cut.Base.Bits.{bit_and_mask, popcount-zero}
use native.Mathlib.Nat.{zero-mod}
use choose_cut.MbNode.{MbNode}
use choose_cut.Bitmap.{RuleHist, inl_offset, child_count, even_mark, child_at, next_inl, next_exl}
use choose_cut.Bitmap.Fill.{fill, ones_below, ones_below-lt, popcount-fill, mark_childs-fill}

-- The cells from INL_OFFSET on.
abbrev pub exl : (ℕ → ℕ) → ℕ → ℕ
exl c k = c (inl_offset + k)

-- The node that even_cut makes of the counts.
abbrev pub marked : (ℕ → ℕ) → MbNode
marked c = record {
  external = fill 64 0 (exl c) 0;
  internal = fill 63 0 c 0;
  child_ptr = ones_below 63 0 63 c;
}

pub even_mark-marked :
    (h : RuleHist)
    → even_mark h ≡ (
      marked h.child_rulecount,
      ones_below 63 0 63 h.child_rulecount + ones_below 64 0 64 (exl h.child_rulecount),
    )
unfolding even_mark
even_mark-marked h = rw (mark_childs-fill h.child_rulecount) refl

module _ (c : ℕ → ℕ) where
  -- The number of ones below a place is the number of cells with rules there.
  offset :
      (left k : ℕ) (d : ℕ → ℕ)
      → left ≤ 64
      → popcount 64 (bit_and (fill left 0 d 0) (2 ^ k - 1)) ≡ ones_below left 0 k d
  offset left k d le = rw (bit_and_mask k (fill left 0 d 0)) (
      popcount-fill d left 0 0 k (omega arith) (omega arith)
      ∙ rw (zero-mod, popcount-zero) (omega arith))

  pub place : ℕ → ℕ
  place i =
      if ltb i inl_offset
      then ones_below 63 0 63 c - ones_below 63 0 i c - 1
      else ones_below 63 0 63 c + ones_below 64 0 (i - inl_offset) (exl c)

  pub child_at-place : (i : ℕ) → (c i == 0) ≡ false → child_at (marked c) i ≡ some (place i)
  unfolding child_at next_inl next_exl place
  child_at-place i rules = elim (Bool-cases (ltb i inl_offset)) [
    | inl low ↦
        let fits : ltb (ones_below 63 0 i c) (ones_below 63 0 63 c) ≡ true =
          ground
            (arith, ones_below-lt c 63 0 i 63 (omega arith) (ground arith) (ground arith) rules) in
        rw (low, offset 63 i c (omega arith), fits) refl
    | inr high ↦ rw (high, offset 64 (i - inl_offset) (exl c) (omega arith)) refl
  ]

  -- Places before the pointer go down as the cells go up, the others go up.
  exl_rules : (i : ℕ) → inl_offset ≤ i → (c i == 0) ≡ false → (exl c (i - inl_offset) == 0) ≡ false
  exl_rules i le rules = let e : inl_offset + (i - inl_offset) ≡ i = omega arith in rw e rules

  place-lt :
      (i : ℕ)
      → i < child_count
      → (c i == 0) ≡ false
      → place i < ones_below 63 0 63 c + ones_below 64 0 64 (exl c)
  unfolding place
  place-lt i lt rules = elim (Bool-cases (ltb i inl_offset)) [
    | inl low ↦
        let less = ones_below-lt c 63 0 i 63 (omega arith) (ground arith) (ground arith) rules in
        rw low (omega arith)
    | inr high ↦
        let k = i - inl_offset in
        let less =
          ones_below-lt (exl c) 64 0 k 64 (omega arith) (omega arith) (omega arith)
            (exl_rules i (ground arith) rules) in
        rw high (omega arith)
  ]

  place_ne :
      (i j : ℕ)
      → i < j
      → j < child_count
      → (c i == 0) ≡ false
      → (c j == 0) ≡ false
      → place i ≢ place j
  unfolding place
  place_ne i j less lt here there same = elim (Bool-cases (ltb j inl_offset)) [
    | inl low ↦
        let low' : ltb i inl_offset ≡ true = ground arith in
        let d = ones_below-lt c 63 0 i j (omega arith) (ground arith) less here in
        let d' = ones_below-lt c 63 0 j 63 (omega arith) (ground arith) (ground arith) there in
        (let same' = rw (low, low') at same in omega arith)
    | inr high ↦ elim (Bool-cases (ltb i inl_offset)) [
      | inl low' ↦
          let d = ones_below-lt c 63 0 i 63 (omega arith) (ground arith) (ground arith) here in
          (let same' = rw (high, low') at same in omega arith)
      | inr high' ↦
          let d =
            ones_below-lt (exl c) 64 0 (i - inl_offset) (j - inl_offset) (omega arith) (omega arith)
              (ground arith) (exl_rules i (ground arith) here) in
          (let same' = rw (high, high') at same in omega arith)
    ]
  ]

-- In the node that even_cut makes of a histogram, two different cells with rules have two different
-- children, and both lie in the array of the size that even_cut asks for.
pub child_at-even_mark :
    (h : RuleHist) (i j : ℕ)
    → i < child_count
    → j < child_count
    → (h.child_rulecount i == 0) ≡ false
    → (h.child_rulecount j == 0) ≡ false
    → i ≢ j
    → (p : ℕ) × (q : ℕ) × (child_at (even_mark h).0 i ≡ some p)
      × (child_at (even_mark h).0 j ≡ some q)
      × (p ≢ q)
      × (p < (even_mark h).1)
      × (q < (even_mark h).1)
child_at-even_mark h i j lt lt' here there ne =
    let c = h.child_rulecount in
    rw (even_mark-marked h) (
      place c i,
      place c j,
      child_at-place c i here,
      child_at-place c j there,
      elim (Bool-cases (ltb i j)) [
        | inl less ↦ place_ne c i j (ground arith) lt' here there
        | inr more ↦ λ same. place_ne c j i (ground arith) lt there here (sym same)
      ],
      place-lt c i lt here,
      place-lt c j lt' there,
    )
