-- ===== src/Bitmap/Count.antt =====
-- The histogram counts the children that even_cut makes.
use choose_cut.Base.{
  ℕ, zero, suc, ◌+◌, ◌-◌, ◌<◌, ◌≤◌, ◌≡◌, refl, ◌∙◌, arith, inl, inr, true, false, some, ltb, ◌==◌,
  if◌then◌else◌, Bool-cases, List, [], ◌∷◌, All, ◌^◌,
}
use choose_cut.Rule.{Rule}
use choose_cut.Rule.Iter.Tiling.{prefix_iters-Tiles}
use choose_cut.Bitmap.{
  RuleHist, dim_bits, inl_offset, rules_at, first_parent, sum_cell, sum_cells, count_rules,
  get_rule_hist, even_mark, even_mem_quant,
}
use choose_cut.Base.Pow.{pow_le_pow}
use choose_cut.Bitmap.Cells.{dim_bits-bounds, count_prefixes-runs}
use choose_cut.Bitmap.Fill.{ones_below}
use choose_cut.Bitmap.Slots.{exl, even_mark-marked}

-- The number of cells with rules depends only on which cells have any.
ones_below-congr :
    (c d : ℕ → ℕ) (left i k : ℕ)
    → ((j : ℕ) → (c j == 0) ≡ (d j == 0))
    → ones_below left i k c ≡ ones_below left i k d
unfolding ones_below
ones_below-congr c d zero i k same = refl
ones_below-congr c d (suc left) i k same =
    rw (same i, ones_below-congr c d left (i + 1) k same) refl

ones_below-shift :
    (c : ℕ → ℕ) (left k : ℕ)
    → k + left ≤ 64
    → ones_below left (inl_offset + k) 127 c ≡ ones_below left k 64 (exl c)
unfolding ones_below
ones_below-shift c zero k le = refl
ones_below-shift c (suc left) k le =
    let next : inl_offset + k + 1 ≡ inl_offset + (k + 1) = omega arith in
    let here : ltb (inl_offset + k) 127 ≡ true = ground arith in
    let there : ltb k 64 ≡ true = ground arith in
    rw (next, here, there, ones_below-shift c left (k + 1) (omega arith)) refl

ones_below-split :
    (c : ℕ → ℕ) (left b k : ℕ)
    → k + left ≡ 63
    → ones_below (left + b) k 127 c ≡ ones_below left k 63 c + ones_below b 63 127 c
unfolding ones_below
ones_below-split c zero b k e =
    let start : k ≡ 63 = omega arith in
    let all : 0 + b ≡ b = omega arith in rw (start, all) (omega arith)
ones_below-split c (suc left) b k e =
    let next : suc left + b ≡ suc (left + b) = omega arith in
    let here : ltb k 127 ≡ true = ground arith in
    let there : ltb k 63 ≡ true = ground arith in
    rw (next, here, there) (omega (arith, ones_below-split c left b (k + 1) (omega arith)))

ones_below-all :
    (c : ℕ → ℕ) → ones_below 127 0 127 c ≡ ones_below 63 0 63 c + ones_below 64 0 64 (exl c)
ones_below-all c =
    omega (arith, ones_below-split c 63 64 0 (omega arith), ones_below-shift c 64 0 (omega arith))

sum_cell-same :
    (i : ℕ) (h : RuleHist) (j : ℕ)
    → ((sum_cell i h).child_rulecount j == 0) ≡ (h.child_rulecount j == 0)
unfolding sum_cell
sum_cell-same i h j = elim (Bool-cases (h.child_rulecount i == 0)) [
  | inl no_rules ↦ rw no_rules refl
  | inr rules ↦ elim (Bool-cases (j == i)) [
    | inl here ↦
        let e : j ≡ i = ground arith in
        (let empty : (h.child_rulecount i
                  + rules_at h.child_rulecount (first_parent 7 h.child_rulecount i)
                == 0)
              ≡ false =
            ground arith in
          rw (rules, here, e, rules, empty) refl)
    | inr other ↦ rw (rules, other) refl
  ]
]

sum_cell-childs :
    (i : ℕ) (h : RuleHist)
    → (sum_cell i h).childs ≡ h.childs + (if h.child_rulecount i == 0 then 0 else 1)
unfolding sum_cell
sum_cell-childs i h = elim (Bool-cases (h.child_rulecount i == 0)) [
  | inl no_rules ↦ rw no_rules (omega arith)
  | inr rules ↦ rw rules (omega arith)
]

sum_cells-childs :
    (left i : ℕ) (h : RuleHist)
    → i + left ≤ 127
    → ((sum_cells left i h).childs ≡ h.childs + ones_below left i 127 h.child_rulecount)
      × ((j : ℕ) → ((sum_cells left i h).child_rulecount j == 0) ≡ (h.child_rulecount j == 0))
unfolding sum_cells ones_below
sum_cells-childs zero i h le = (omega arith, λ j. refl)
sum_cells-childs (suc left) i h le =
    let (count, same) = sum_cells-childs left (i + 1) (sum_cell i h) (omega arith) in
    let here : ltb i 127 ≡ true = ground arith in
    let rest =
      ones_below-congr (sum_cell i h).child_rulecount h.child_rulecount left (i + 1) 127
        (sum_cell-same i h) in
    (rw here (omega (arith, count, rest, sum_cell-childs i h)), λ j. same j ∙ sum_cell-same i h j)

-- The ranges of these rules are in order and within the width of the dimension, and the iteration over
-- them ends within the fuel.
abbrev pub Bounded : ℕ → ℕ → Rule → Type 0
Bounded fuel dim r =
    ((r.range dim).low ≤ (r.range dim).high)
    × ((r.range dim).high < 2 ^ dim_bits dim)
    × ((r.range dim).high + 1 - (r.range dim).low ≤ fuel)

count_rules-Bounded :
    (fuel dim : ℕ) (rules : List Rule) (c : ℕ → ℕ)
    → All (Bounded fuel dim) rules
    → (counts : ℕ → ℕ) × (count_rules fuel dim rules c ≡ some counts)
unfolding count_rules
count_rules-Bounded fuel dim [] c all = (c, refl)
count_rules-Bounded fuel dim (r ∷ rules) c all =
    let b = all.0 in
    let word : (r.range dim).high < 2 ^ 32 =
      omega (arith, b.1, pow_le_pow (dim_bits dim) 32 (dim_bits-bounds dim).1) in
    let (iters, run, tiles) = prefix_iters-Tiles (r.range dim) fuel b.0 word b.2 in
    let (mid, run') =
      count_prefixes-runs dim (r.range dim).low (r.range dim).high iters c tiles b.1 in
    let (counts, run'') = count_rules-Bounded fuel dim rules mid all.1 in
    (counts, rw (run, run') run'')

sum_cells-even_mark :
    (counts : ℕ → ℕ)
    → let h = sum_cells 127 0 (record { child_rulecount = counts; childs = 0; rules = 0 }) in
      even_mem_quant h ≡ (even_mark h).1
sum_cells-even_mark counts =
    let start : RuleHist = record { child_rulecount = counts; childs = 0; rules = 0 } in
    let (count, same) = sum_cells-childs 127 0 start (omega arith) in
    let filled = ones_below-congr (sum_cells 127 0 start).child_rulecount counts 127 0 127 same in
    let total = ones_below-all (sum_cells 127 0 start).child_rulecount in
    rw (even_mark-marked (sum_cells 127 0 start)) (omega (arith, count, filled, total))

-- Of rules whose ranges in the dimension have low <= high, are within the width of the dimension (32, 32,
-- 16, 16 and 8 bits), and have no more numbers than there is fuel, get_rule_hist comes to an end and
-- writes nowhere behind the 127 cells of the histogram, and the children that it counts are those that
-- even_cut makes of it, so even_mem_quant is the size of their array.
pub even_mem_quant-get_rule_hist :
    (fuel dim : ℕ) (rules : List Rule)
    → All (Bounded fuel dim) rules
    → (h : RuleHist) × (get_rule_hist fuel dim rules ≡ some h)
      × (even_mem_quant h ≡ (even_mark h).1)
unfolding get_rule_hist
even_mem_quant-get_rule_hist fuel dim rules all =
    let (counts, run) = count_rules-Bounded fuel dim rules (λ i. 0) all in
    (
      sum_cells 127 0 (record { child_rulecount = counts; childs = 0; rules = 0 }),
      rw run refl,
      sum_cells-even_mark counts,
    )
