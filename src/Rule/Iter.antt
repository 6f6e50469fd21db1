-- ===== src/Rule/Iter.antt =====
-- A range as a sequence of prefixes: range_to_prefix_iter, get_next_prefix_iter and get_prefix of
-- rule.c, prefix_to_range, range_to_prefix and is_empty_prefix_iter of rule.h, and the loop with
-- which cut-bitmap.c goes through the sequence.
pub mod Blocks
pub mod Tiling
pub mod Prefixes
mod Tests
use choose_cut.Base.{ℕ, zero, suc, ◌+◌, ◌-◌, ◌%◌, ◌^◌, Bool, Option, none, some, List, [], ◌∷◌}
use choose_cut.Base.{ltb, ◌==◌, if◌then◌else◌, ◌>>=◌, u32, add32, sub32, add64, sub64, ctz, clz}
use choose_cut.Rule.{Range}

-- `prefix_t`
pub record Prefix : Type 0 where
  pub prefix : ℕ
  pub len : ℕ

-- `prefix_iter_t`: the block from `start` to `end`, the end of the whole range, and how many
-- numbers come behind the block.
pub record PrefixIter : Type 0 where
  pub start : ℕ
  pub end : ℕ
  pub last : ℕ
  pub left : ℕ

-- `1ULL << (left_leap < self_leap ? left_leap : self_leap)`
unfoldable pub leap : ℕ → ℕ → ℕ
leap start left =
    let left_leap = 63 - clz 64 left in
    let self_leap = ctz 32 start in 2 ^ (if ltb left_leap self_leap then left_leap else self_leap)

-- The part that `range_to_prefix_iter` and `get_next_prefix_iter` have in common: the block at
-- `start`, where `left` numbers are left.
unfoldable pub block_at : ℕ → ℕ → ℕ → PrefixIter
block_at start last left =
    if start % 2 == 1
    then record { start = start; end = start; last = last; left = sub64 left 1 }
    else record {
      start = start;
      end = add32 start (u32 (sub64 (leap start left) 1));
      last = last;
      left = sub64 left (leap start left);
    }

unfoldable pub range_to_prefix_iter : Range → PrefixIter
range_to_prefix_iter r = block_at r.low r.high (add64 (sub64 r.high r.low) 1)

unfoldable pub is_empty_prefix_iter : PrefixIter → Bool
is_empty_prefix_iter iter = iter.left == 0

-- `none` is the flag 0.
unfoldable pub get_next_prefix_iter : PrefixIter → Option PrefixIter
unfolding is_empty_prefix_iter
get_next_prefix_iter iter =
    if is_empty_prefix_iter iter
    then none
    else some (block_at (add32 iter.end 1) iter.last iter.left)

unfoldable pub get_prefix : PrefixIter → ℕ → Prefix
get_prefix iter bits =
    let offset = sub32 iter.end iter.start in
    if offset == 0
    then record { len = bits; prefix = iter.start }
    else record { len = sub32 bits (ctz 64 (add64 offset 1)); prefix = iter.start }

unfoldable pub prefix_to_range : Prefix → ℕ → Range
prefix_to_range p bits = record {
  low = p.prefix;
  high = u32 (p.prefix + sub64 (2 ^ sub32 bits p.len) 1);
}

pub range_to_prefix : Range → ℕ → Prefix
range_to_prefix r bits = record {
  len = sub32 bits (ctz 64 (add64 (sub32 r.high r.low) 1));
  prefix = r.low;
}

-- The sequence that `do … while(flag)` goes through, with fuel; `none` means that it ran out.
unfoldable pub iterate : ℕ → PrefixIter → Option (List PrefixIter)
iterate zero iter = none
iterate (suc fuel) iter = elim (get_next_prefix_iter iter) [
  | none ↦ some (iter ∷ [])
  | some next ↦ iterate fuel next >>= λ rest. some (iter ∷ rest)
]

unfoldable pub prefix_iters : ℕ → Range → Option (List PrefixIter)
prefix_iters fuel r = iterate fuel (range_to_prefix_iter r)
