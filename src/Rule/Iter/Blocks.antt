-- ===== src/Rule/Iter/Blocks.antt =====
-- One step of the prefix iteration: the block that it cuts off.
use native.Mathlib.Nat.{mul_assoc}
use choose_cut.Base.{ℕ, ◌+◌, ◌-◌, ◌*◌, ◌%◌, ◌^◌, ◌≤◌, ◌<◌, ◌≡◌, refl, sym, ◌∙◌, ap, arith}
use choose_cut.Base.{ltb, ◌==◌, inl, inr, Bool-cases, ltb→lt, ctz, clz}
use choose_cut.Base.Pow.{pow_pos, pow_le_pow, pow_split, ctz_multiple, ctz-le, clz_bounds}
use choose_cut.Rule.Iter.{PrefixIter, leap, block_at}

-- `start` is a multiple of a power of two at most 2 ^ 32, and the block is that long.
pub record IsBlock (b : PrefixIter) : Type 0 where
  pub order : ℕ
  pub index : ℕ
  pub small : order ≤ 32
  pub aligned : b.start ≡ index * 2 ^ order
  pub long : b.end + 1 ≡ b.start + 2 ^ order

-- What is left behind a block that is cut off a range: the block lies at its front.
pub record Cuts (start last left : ℕ) (b : PrefixIter) : Type 0 where
  pub block : IsBlock b
  pub front : b.start ≡ start
  pub same_last : b.last ≡ last
  pub behind : b.end + 1 + b.left ≡ last + 1
  pub less : b.left < left

-- `leap` is a power of two that divides `start` and is at most `left`.
record IsLeap (start left n : ℕ) : Type 0 where
  order : ℕ
  index : ℕ
  small : order ≤ 32
  power : n ≡ 2 ^ order
  fits : 2 ^ order ≤ left
  divides : start ≡ index * 2 ^ order

divide : (j k q n : ℕ) → j ≤ k → n ≡ q * 2 ^ k → n ≡ q * 2 ^ (k - j) * 2 ^ j
divide j k q n h e = e ∙ ap (λ (t : ℕ). q * t) (pow_split j k h) ∙ sym (mul_assoc q _ _)

fit : (j k n : ℕ) → j ≤ k → 2 ^ k ≤ n → 2 ^ j ≤ n
fit j k n h le = omega (arith, pow_le_pow j k h)

leap-IsLeap : (start left : ℕ) → 0 < left → left ≤ 2 ^ 32 → IsLeap start left (leap start left)
unfolding leap
leap-IsLeap start left pos small =
    let bounds = clz_bounds 64 left pos (omega arith) in
    let (q, e) = ctz_multiple 32 start in
    elim (Bool-cases (ltb (63 - clz 64 left) (ctz 32 start))) [
      | inl less ↦
          let lt = ltb→lt _ _ less in
          rw less (record {
            order = 63 - clz 64 left;
            index = q * 2 ^ (ctz 32 start - (63 - clz 64 left));
            small = omega (arith, ctz-le 32 start);
            power = omega arith;
            fits = omega arith;
            divides = divide (63 - clz 64 left) (ctz 32 start) q start (omega arith) e;
          })
      | inr more ↦ rw more (record {
        order = ctz 32 start;
        index = q;
        small = ctz-le 32 start;
        power = omega arith;
        fits = fit (ctz 32 start) (63 - clz 64 left) left (ground arith) bounds.1;
        divides = e;
      })
    ]

pub block_at-Cuts :
    (start last left : ℕ)
    → 0 < left
    → last < 2 ^ 32
    → start + left ≡ last + 1
    → Cuts start last left (block_at start last left)
unfolding block_at
block_at-Cuts start last left pos small e = elim (Bool-cases (start % 2 == 1)) [
  | inl odd ↦ rw odd (record {
    block = record {
      order = 0;
      index = start;
      small = omega arith;
      aligned = omega arith;
      long = omega arith;
    };
    front = refl;
    same_last = refl;
    behind = omega arith;
    less = omega arith;
  })
  | inr even ↦
      let j = leap-IsLeap start left pos (omega arith) in
      let n_pos = pow_pos j.order in
      rw even (record {
        block = record {
          order = j.order;
          index = j.index;
          small = j.small;
          aligned = j.divides;
          long = omega (arith, j.power, j.fits);
        };
        front = refl;
        same_last = refl;
        behind = omega (arith, j.power, j.fits);
        less = omega (arith, j.power, j.fits);
      })
]
