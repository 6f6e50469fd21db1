-- ===== src/Bitmap/Fill.antt =====
-- The bitmaps that the first loop of even_cut fills: a one for each cell with rules.
use choose_cut.Base.{
  ℕ, zero, suc, ◌+◌, ◌-◌, ◌^◌, ◌%◌, ◌<◌, ◌≤◌, ◌≡◌, refl, ◌∙◌, ap, arith, inl, inr, true, false, ltb,
  ◌==◌, if◌then◌else◌, Bool-cases, popcount,
}
use choose_cut.Base.Pow.{pow-suc_two}
use choose_cut.Base.Bits.{bit_or_above, popcount_below}
use choose_cut.Base.Ones.{bit_and_above, bit_and-pow_self, bit_and-pow_ne, bit_and-above_all}
use choose_cut.MbNode.{set_bit, test_bitmap}
use choose_cut.Bitmap.{Marks, inl_offset, child_count, mark_child, mark_childs}

-- The ones for the cells from `i` on, put into a bitmap.
unfoldable pub fill : ℕ → ℕ → (ℕ → ℕ) → ℕ → ℕ
fill zero i c b = b
fill (suc left) i c b = fill left (i + 1) c (if c i == 0 then b else set_bit b i)

-- How many of these cells lie below `k`.
unfoldable pub ones_below : ℕ → ℕ → ℕ → (ℕ → ℕ) → ℕ
ones_below zero i k c = 0
ones_below (suc left) i k c =
    (if c i == 0 then 0 else (if ltb i k then 1 else 0)) + ones_below left (i + 1) k c

module _ (c : ℕ → ℕ) where
  next_bound : (i b : ℕ) → b < 2 ^ i → (if c i == 0 then b else set_bit b i) < 2 ^ (i + 1)
  next_bound i b lt =
      let e : i + 1 ≡ suc i = omega arith in
      rw e (ground (arith, bit_or_above i b lt, pow-suc_two i))

  pub test_bitmap-fill_below :
      (left i b k : ℕ) → b < 2 ^ i → k < i → test_bitmap (fill left i c b) k ≡ test_bitmap b k
  unfolding fill
  test_bitmap-fill_below zero i b k lt low = refl
  test_bitmap-fill_below (suc left) i b k lt low =
      test_bitmap-fill_below left (i + 1) (if c i == 0 then b else set_bit b i) k
        (next_bound i b lt) (omega arith)
      ∙ elim (Bool-cases (c i == 0)) [
        | inl e ↦ rw e refl
        | inr e ↦
            rw (e, bit_or_above i b lt)
              (bit_and_above i b (2 ^ k) lt ∙ rw (bit_and-pow_ne k i (omega arith)) (omega arith))
      ]

  pub test_bitmap-fill :
      (left i b k : ℕ)
      → b < 2 ^ i
      → i ≤ k
      → k < i + left
      → test_bitmap (fill left i c b) k ≡ (if c k == 0 then 0 else 2 ^ k)
  unfolding fill
  test_bitmap-fill zero i b k lt low high = absurd (omega arith)
  test_bitmap-fill (suc left) i b k lt low high = elim (Bool-cases (k == i)) [
    | inr other ↦
        test_bitmap-fill left (i + 1) (if c i == 0 then b else set_bit b i) k (next_bound i b lt)
          (ground arith) (omega arith)
    | inl here ↦
        let e : k ≡ i = ground arith in
        test_bitmap-fill_below left (i + 1) (if c i == 0 then b else set_bit b i) k
          (next_bound i b lt) (omega arith)
        ∙ rw e (elim (Bool-cases (c i == 0)) [
          | inl none_there ↦ rw none_there (bit_and-above_all i b lt)
          | inr some_there ↦
              rw (some_there, bit_or_above i b lt)
                (bit_and_above i b (2 ^ i) lt
                  ∙ omega (arith, bit_and-pow_self i, bit_and-above_all i b lt))
        ])
  ]

  pub popcount-fill :
      (left i b k : ℕ)
      → b < 2 ^ i
      → i + left ≤ 64
      → popcount 64 (fill left i c b % 2 ^ k) ≡ popcount 64 (b % 2 ^ k) + ones_below left i k c
  unfolding fill ones_below
  popcount-fill zero i b k lt fits = omega arith
  popcount-fill (suc left) i b k lt fits =
      popcount-fill left (i + 1) (if c i == 0 then b else set_bit b i) k (next_bound i b lt)
        (omega arith)
      ∙ elim (Bool-cases (c i == 0)) [
        | inl e ↦ rw e (omega arith)
        | inr e ↦
            rw (e, bit_or_above i b lt) (omega (arith, popcount_below 64 i k b (omega arith) lt))
      ]

  pub ones_below-le : (left s i j : ℕ) → i ≤ j → ones_below left s i c ≤ ones_below left s j c
  unfolding ones_below
  ones_below-le zero s i j le = omega arith
  ones_below-le (suc left) s i j le = let ih = ones_below-le left (s + 1) i j le in ground arith

  -- A cell with rules counts below each cell behind it, and not below itself.
  pub ones_below-lt :
      (left s i j : ℕ)
      → s ≤ i
      → i < s + left
      → i < j
      → (c i == 0) ≡ false
      → ones_below left s i c < ones_below left s j c
  unfolding ones_below
  ones_below-lt zero s i j le lt less e = absurd (omega arith)
  ones_below-lt (suc left) s i j le lt less e = elim (Bool-cases (s == i)) [
    | inl here ↦
        let same : s ≡ i = ground arith in
        let some_here : (c s == 0) ≡ false = ap (λ t. c t == 0) same ∙ e in
        let before : ltb s i ≡ false = ground arith in
        let behind : ltb s j ≡ true = ground arith in
        rw (some_here, before, behind) (omega (arith, ones_below-le left (s + 1) i j (omega arith)))
    | inr other ↦
        let ih = ones_below-lt left (s + 1) i j (ground arith) (omega arith) less e in ground arith
  ]

module _ (c : ℕ → ℕ) where
  mark_childs-add :
      (a b i : ℕ) (m : Marks)
      → mark_childs (a + b) i c m ≡ mark_childs b (i + a) c (mark_childs a i c m)
  unfolding mark_childs
  mark_childs-add zero b i m =
      let e : 0 + b ≡ b = omega arith in let e' : i + 0 ≡ i = omega arith in rw (e, e') refl
  mark_childs-add (suc a) b i m =
      let e : suc a + b ≡ suc (a + b) = omega arith in
      let e' : i + suc a ≡ i + 1 + a = omega arith in
      rw (e, e') (mark_childs-add a b (i + 1) (mark_child (c i) i m))

  -- The cells before INL_OFFSET fill the internal bitmap.
  mark_childs-inl :
      (left i : ℕ) (m : Marks)
      → i + left ≤ inl_offset
      → mark_childs left i c m ≡ record m {
        inl_rc = m.inl_rc + ones_below left i 63 c;
        internal = fill left i c m.internal;
      }
  unfolding mark_childs fill ones_below
  mark_childs-inl zero i m le = let e : m.inl_rc + 0 ≡ m.inl_rc = omega arith in rw e refl
  mark_childs-inl (suc left) i m le =
      let inside : ltb i inl_offset ≡ true = ground arith in
      let rest = ones_below left (i + 1) 63 c in
      let no_more : m.inl_rc + (0 + rest) ≡ m.inl_rc + rest = omega arith in
      let one_more : m.inl_rc + (1 + rest) ≡ m.inl_rc + 1 + rest = omega arith in
      mark_childs-inl left (i + 1) (mark_child (c i) i m) (omega arith)
      ∙ elim (Bool-cases (c i == 0)) [
        | inl e ↦ rw (e, no_more) refl
        | inr e ↦ rw (e, inside, one_more) refl
      ]

  -- The cells from there on fill the external one.
  mark_childs-exl :
      (left k : ℕ) (m : Marks)
      → k + left ≤ 64
      → mark_childs left (inl_offset + k) c m ≡ record m {
        exl_rc = m.exl_rc + ones_below left k 64 (λ k. c (inl_offset + k));
        external = fill left k (λ k. c (inl_offset + k)) m.external;
      }
  unfolding mark_childs fill ones_below
  mark_childs-exl zero k m le = let e : m.exl_rc + 0 ≡ m.exl_rc = omega arith in rw e refl
  mark_childs-exl (suc left) k m le =
      let i = inl_offset + k in
      let outside : ltb i inl_offset ≡ false = ground arith in
      let below : ltb k 64 ≡ true = ground arith in
      let place : i - inl_offset ≡ k = omega arith in
      let next : i + 1 ≡ inl_offset + (k + 1) = omega arith in
      let rest = ones_below left (k + 1) 64 (λ k. c (inl_offset + k)) in
      let no_more : m.exl_rc + (0 + rest) ≡ m.exl_rc + rest = omega arith in
      let one_more : m.exl_rc + (1 + rest) ≡ m.exl_rc + 1 + rest = omega arith in
      ap (λ t. mark_childs left t c (mark_child (c i) i m)) next
      ∙ mark_childs-exl left (k + 1) (mark_child (c i) i m) (omega arith)
      ∙ elim (Bool-cases (c i == 0)) [
        | inl e ↦ rw (e, no_more) refl
        | inr e ↦ rw (e, outside, below, place, one_more) refl
      ]

  -- All cells: one internal bit for each of the 63 first, one external bit for each of the 64 others.
  pub mark_childs-fill :
      mark_childs child_count 0 c (record { inl_rc = 0; exl_rc = 0; internal = 0; external = 0 })
      ≡ record {
        inl_rc = ones_below 63 0 63 c;
        exl_rc = ones_below 64 0 64 (λ k. c (inl_offset + k));
        internal = fill 63 0 c 0;
        external = fill 64 0 (λ k. c (inl_offset + k)) 0;
      }
  mark_childs-fill =
      let start : Marks = record { inl_rc = 0; exl_rc = 0; internal = 0; external = 0 } in
      let no_inl : 0 + ones_below 63 0 63 c ≡ ones_below 63 0 63 c = omega arith in
      let no_exl : 0 + ones_below 64 0 64 (λ k. c (inl_offset + k))
          ≡ ones_below 64 0 64 (λ k. c (inl_offset + k)) =
        omega arith in
      mark_childs-add 63 64 0 start
      ∙ rw (mark_childs-inl 63 0 start (omega arith), no_inl)
          (mark_childs-exl 64 0 _ (omega arith) ∙ rw no_exl refl)
