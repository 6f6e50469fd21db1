-- ===== src/Hi/Bounds.antt =====
-- The bounds of a child: a key that goes to a child sees the same of a rule there as in the node.
use native.Mathlib.Nat.{div-mul-le_self, lt-div-mul-add, mul-le-mul_right, mul-le-mul}
use choose_cut.Base.{
  ℕ, suc, ◌+◌, ◌-◌, ◌*◌, ◌^◌, ◌≤◌, ◌<◌, ◌≡◌, arith, ◌⊎◌, ◌↔◌, inl, inr, true, false, ◌&&◌, leb, ltb,
  if◌then◌else◌, Bool-cases, u32, sub32, sub64,
}
use choose_cut.Base.Pow.{pow_pos, pow_le_pow}
use choose_cut.Rule.{Range, in_range}
use choose_cut.RuleSet.Clip.{Holds}
use choose_cut.Hi.{Seg, HiAux, segment, trim_start, trim_end, trim_range}

-- A number behind the start lies in the segment that the division gives.
abbrev Lies : ℕ → ℕ → ℕ → ℕ → Type 0
Lies start size x s = (start + s * size ≤ x) × (x < start + s * size + size)

segment-Lies :
    (aux : HiAux) (x : ℕ)
    → aux.start ≤ x
    → x < 2 ^ 32
    → Lies aux.start (2 ^ aux.shift) x (segment aux x)
segment-Lies aux x le lt =
    let e : sub32 x aux.start ≡ x - aux.start = omega arith in
    let p = pow_pos aux.shift in
    rw e (
      omega (
        arith,
        div-mul-le_self (x - aux.start) (2 ^ aux.shift),
        lt-div-mul-add {a = x - aux.start} {b = 2 ^ aux.shift} p,
      ))

-- Segments are in the order of their numbers.
Lies-le : (start size x y s t : ℕ) → Lies start size x s → Lies start size y t → x ≤ y → s ≤ t
Lies-le start size x y s t p q le = elim (Bool-cases (leb s t)) [
  | inl ordered ↦ ground arith
  | inr not_ordered ↦
      let more : suc t ≤ s = ground arith in
      absurd (omega (arith, mul-le-mul_right {m = suc t} {n = s} size more))
]

-- Trimming a range to bounds around a key, or above its own end, keeps the test of the key.
trimmed-in_range :
    (key from to : ℕ) (r : Range)
    → from ≤ key
    → key < 2 ^ 32
    → r.high < 2 ^ 32
    → to < 2 ^ 64
    → (key < to) ⊎ (r.high < to)
    → in_range key (record {
      low = if ltb r.low from then u32 from else r.low;
      high = if leb to r.high then u32 (sub64 to 1) else r.high;
    })
      ≡ in_range key r
trimmed-in_range key from to r lo small high big up = ground arith

-- Trimming to bounds that the range comes to leaves its numbers between them.
clipped-Holds :
    (x from to : ℕ) (part r : Range)
    → r.high < 2 ^ 32
    → from ≡ part.low
    → to ≡ part.high + 1
    → to < 2 ^ 64
    → part.low ≤ r.high
    → Holds
        (record {
          low = if ltb r.low from then u32 from else r.low;
          high = if leb to r.high then u32 (sub64 to 1) else r.high;
        })
        x
      ↔ (Holds r x × Holds part x)
clipped-Holds x from to part r word e e' big meets = (λ h. ground arith, λ h. ground arith)

-- The numbers of a node: what the start, the width of a segment and the rules have to keep to.
pub record IsPlaced (aux : HiAux) (top : ℕ) (r : Range) : Type 0 where
  pub start_small : aux.start < 2 ^ 32
  pub shift_small : aux.shift ≤ 32
  pub top_small : top < 64
  pub from_start : aux.start ≤ r.low
  pub ordered : r.low ≤ r.high
  pub word : r.high < 2 ^ 32

-- The numbers of the segments of a child.
abbrev pub seg_range : HiAux → Seg → Range
seg_range aux g = record {
  low = aux.start + g.first * 2 ^ aux.shift;
  high = aux.start + (g.last + 1) * 2 ^ aux.shift - 1;
}

module _ (aux : HiAux) (top : ℕ) (g : Seg) (r : Range) (p : IsPlaced aux top r)
    (proper : g.first ≤ g.last) (within : g.last ≤ top) where
  abbrev size : ℕ
  size = 2 ^ aux.shift

  size_small : size ≤ 2 ^ 32
  size_small = pow_le_pow aux.shift 32 p.shift_small

  -- The upper bound of the child does not wrap.
  last_small : g.last * size ≤ 63 * 2 ^ 32
  last_small =
      mul-le-mul {n₁ = g.last} {m₁ = size} {n₂ = 63} {m₂ = 2 ^ 32} (omega (arith, p.top_small))
        size_small

  first_small : g.first * size ≤ g.last * size
  first_small = mul-le-mul_right size proper

  from : trim_start aux g ≡ aux.start + g.first * size
  from = omega (arith, last_small, first_small, size_small, p.start_small)

  to : trim_end aux g ≡ aux.start + g.last * size + size
  to = omega (arith, last_small, size_small, p.start_small)

  low-Lies : Lies aux.start size r.low (segment aux r.low)
  low-Lies = segment-Lies aux r.low p.from_start (omega (arith, p.ordered, p.word))

  high-Lies : Lies aux.start size r.high (segment aux r.high)
  high-Lies = segment-Lies aux r.high (omega (arith, p.from_start, p.ordered)) p.word

  pub reached-meets :
      (leb (segment aux r.low) g.last && leb g.first (segment aux r.high)) ≡ true
      → (r.low ≤ (seg_range aux g).high) × ((seg_range aux g).low ≤ r.high)
  reached-meets hit =
      let low : segment aux r.low ≤ g.last = ground arith in
      let high : g.first ≤ segment aux r.high = ground arith in
      (
        omega (arith, low-Lies, mul-le-mul_right size low),
        omega (arith, high-Lies, mul-le-mul_right size high),
      )

  pub meets-reached :
      r.low ≤ (seg_range aux g).high
      → (seg_range aux g).low ≤ r.high
      → (leb (segment aux r.low) g.last && leb g.first (segment aux r.high)) ≡ true
  meets-reached begins ends = elim (Bool-cases (leb (segment aux r.low) g.last)) [
    | inr behind ↦
        let next : suc g.last ≤ segment aux r.low = ground arith in
        absurd
          (omega (arith, low-Lies, pow_pos aux.shift, mul-le-mul_right {m = suc g.last} size next))
    | inl low ↦ elim (Bool-cases (leb g.first (segment aux r.high))) [
      | inl high ↦ ground arith
      | inr before ↦
          let next : suc (segment aux r.high) ≤ g.first = ground arith in
          absurd
            (omega (arith, high-Lies, mul-le-mul_right {m = suc (segment aux r.high)} size next))
    ]
  ]

  pub trim_range-Holds :
      (x : ℕ)
      → (leb (segment aux r.low) g.last && leb g.first (segment aux r.high)) ≡ true
      → Holds (trim_range aux g r) x ↔ (Holds r x × Holds (seg_range aux g) x)
  trim_range-Holds x hit =
      let meets = reached-meets hit in
      let high : (seg_range aux g).high ≡ aux.start + g.last * size + size - 1 = omega arith in
      clipped-Holds x (trim_start aux g) (trim_end aux g) (seg_range aux g) r p.word from
        (omega (arith, to, pow_pos aux.shift))
        (omega (arith, to, last_small, size_small, p.start_small)) meets.1

  module _ (key : ℕ) (key_start : aux.start ≤ key) (key_word : key < 2 ^ 32)
      (first : g.first ≤ segment aux key) (last : (segment aux key ≤ g.last) ⊎ (g.last ≡ top))
      (fits : segment aux r.high ≤ top) where
    key-Lies : Lies aux.start size key (segment aux key)
    key-Lies = segment-Lies aux key key_start key_word

    from-le-key : trim_start aux g ≤ key
    from-le-key = omega (arith, from, key-Lies, mul-le-mul_right size first)

    upper : (key < trim_end aux g) ⊎ (r.high < trim_end aux g)
    upper = elim last [
      | inl in_child ↦ inl (omega (arith, to, key-Lies, mul-le-mul_right size in_child))
      | inr is_last ↦
          let le : segment aux r.high ≤ g.last = omega arith in
          inr (omega (arith, to, high-Lies, mul-le-mul_right size le))
    ]

    pub in_range-trim_range : in_range key (trim_range aux g r) ≡ in_range key r
    in_range-trim_range =
        trimmed-in_range key (trim_start aux g) (trim_end aux g) r from-le-key key_word p.word
          (omega arith) upper

    pub in_range-not_reached :
        (leb (segment aux r.low) g.last && leb g.first (segment aux r.high)) ≡ false
        → in_range key r ≡ false
    in_range-not_reached miss = elim (Bool-cases (in_range key r)) [
      | inr out ↦ out
      | inl hit ↦
          let low =
            Lies-le aux.start size r.low key (segment aux r.low) (segment aux key) low-Lies key-Lies
              (ground arith) in
          let high =
            Lies-le aux.start size key r.high (segment aux key) (segment aux r.high) key-Lies
              high-Lies (ground arith) in
          let both =
            Lies-le aux.start size r.low r.high (segment aux r.low) (segment aux r.high) low-Lies
              high-Lies p.ordered in
          absurd (ground arith)
    ]
