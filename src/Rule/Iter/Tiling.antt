-- ===== src/Rule/Iter/Tiling.antt =====
-- The blocks of the prefix iteration, taken together.
use choose_cut.Base.{ℕ, zero, suc, ◌+◌, ◌-◌, ◌^◌, ◌≤◌, ◌<◌, ◌≡◌, refl, arith, ◌&&◌, List, [], ◌∷◌}
use choose_cut.Base.{
  none, some, leb, ◌==◌, if◌then◌else◌, inl, inr, Bool-cases, add32, add64, sub64, ◌⊎◌,
}
use choose_cut.Base.Pow.{pow_pos}
use choose_cut.Rule.{Range, in_range}
use choose_cut.Rule.Iter.{
  PrefixIter, block_at, get_next_prefix_iter, range_to_prefix_iter, iterate, prefix_iters,
}
use choose_cut.Rule.Iter.Blocks.{IsBlock, Cuts, block_at-Cuts}

-- The blocks follow one another from `lo` to `hi` without a gap.
abbrev pub Tiles : ℕ → ℕ → List PrefixIter → Type 0
Tiles lo hi [] = lo ≡ suc hi
Tiles lo hi (b ∷ bs) = (b.start ≡ lo) × IsBlock b × Tiles (b.end + 1) hi bs

-- Behind a block stands either the end of the range or the next block.
next-Cuts :
    (start last left : ℕ) (iter : PrefixIter)
    → last < 2 ^ 32
    → Cuts start last left iter
    → ((get_next_prefix_iter iter ≡ none) × (iter.end ≡ last))
      ⊎ ((n : PrefixIter) × (get_next_prefix_iter iter ≡ some n)
          × Cuts (iter.end + 1) last iter.left n)
unfolding get_next_prefix_iter
next-Cuts start last left iter small c = elim (Bool-cases (iter.left == 0)) [
  | inl empty ↦ inl (rw empty, ground arith)
  | inr more ↦
      let pos : 0 < iter.left = ground arith in
      let e : add32 iter.end 1 ≡ iter.end + 1 = omega arith in
      inr (
        block_at (iter.end + 1) last iter.left,
        rw (more, e, c.same_last),
        block_at-Cuts (iter.end + 1) last iter.left pos small c.behind,
      )
]

iterate-Tiles :
    (fuel start last left : ℕ) (iter : PrefixIter)
    → iter.left < fuel
    → last < 2 ^ 32
    → Cuts start last left iter
    → (bs : List PrefixIter) × (iterate fuel iter ≡ some bs) × Tiles start last bs
unfolding iterate
iterate-Tiles zero start last left iter h small c = absurd (omega arith)
iterate-Tiles (suc fuel) start last left iter h small c =
    elim (next-Cuts start last left iter small c) [
      | inl (e, ends) ↦ (iter ∷ [], rw (e, iterate), (c.front, c.block, omega arith))
      | inr (n, e, next) ↦
          let (rest, run, tiles) =
            iterate-Tiles fuel (iter.end + 1) last iter.left n (omega (arith, next.less)) small
              next in
          (iter ∷ rest, rw (e, iterate) (rw run), (c.front, c.block, tiles))
    ]

-- The iteration over a range ends within one step for each number, and cuts the range into
-- blocks: each starts where the one before it ends, and each has a power of two of numbers and
-- starts at a multiple of that power.
pub prefix_iters-Tiles :
    (r : Range) (fuel : ℕ)
    → r.low ≤ r.high
    → r.high < 2 ^ 32
    → r.high + 1 - r.low ≤ fuel
    → (bs : List PrefixIter) × (prefix_iters fuel r ≡ some bs) × Tiles r.low r.high bs
unfolding prefix_iters range_to_prefix_iter
prefix_iters-Tiles r fuel ordered small enough =
    let e : add64 (sub64 r.high r.low) 1 ≡ r.high + 1 - r.low = omega arith in
    let c = block_at-Cuts r.low r.high (r.high + 1 - r.low) (omega arith) small (omega arith) in
    rw e (iterate-Tiles fuel r.low r.high _ _ (omega (arith, c.less)) small c)

-- How many of the blocks hold the number.
abbrev pub hits : ℕ → List PrefixIter → ℕ
hits x [] = 0
hits x (b ∷ bs) = (if leb b.start x && leb x b.end then 1 else 0) + hits x bs

hits-below : (x lo hi : ℕ) (bs : List PrefixIter) → Tiles lo hi bs → x < lo → hits x bs ≡ 0
hits-below x lo hi [] t h = refl
hits-below x lo hi (b ∷ bs) t h =
    let k = t.1 in ground (arith, pow_pos k.order, k.long, hits-below x (b.end + 1) hi bs t.2)

Tiles-ordered : (lo hi : ℕ) (bs : List PrefixIter) → Tiles lo hi bs → lo ≤ hi + 1
Tiles-ordered lo hi [] t = omega arith
Tiles-ordered lo hi (b ∷ bs) t =
    let k = t.1 in omega (arith, pow_pos k.order, k.long, Tiles-ordered (b.end + 1) hi bs t.2)

hits-Tiles :
    (x lo hi : ℕ) (bs : List PrefixIter)
    → Tiles lo hi bs
    → hits x bs ≡ (if leb lo x && leb x hi then 1 else 0)
hits-Tiles x lo hi [] t = ground arith
hits-Tiles x lo hi (b ∷ bs) t =
    let k = t.1 in
    ground (
      arith,
      pow_pos k.order,
      k.long,
      Tiles-ordered (b.end + 1) hi bs t.2,
      hits-below x (b.end + 1) hi bs t.2,
      hits-Tiles x (b.end + 1) hi bs t.2,
    )

-- Each number of the range lies in exactly one of the blocks, and every other number in none.
pub prefix_iters-hits :
    (r : Range) (fuel x : ℕ)
    → r.low ≤ r.high
    → r.high < 2 ^ 32
    → r.high + 1 - r.low ≤ fuel
    → (bs : List PrefixIter) × (prefix_iters fuel r ≡ some bs)
      × (hits x bs ≡ (if in_range x r then 1 else 0))
prefix_iters-hits r fuel x ordered small enough =
    let (bs, run, tiles) = prefix_iters-Tiles r fuel ordered small enough in
    (bs, run, hits-Tiles x r.low r.high bs tiles)
