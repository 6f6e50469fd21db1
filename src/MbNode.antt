-- ===== src/MbNode.antt =====
-- The multi-bit node of mb_node.h and mb_node.c: positions in its bitmaps, the lookup over its levels,
-- and the tables that answer the same at once.
pub mod Table
pub mod Lookup
mod Tests
use choose_cut.Base.{
  ℕ, zero, suc, ◌+◌, ◌-◌, ◌/◌, ◌^◌, Option, none, some, List, [], ◌∷◌, bit_and, bit_or,
}
use choose_cut.Base.{◌==◌, if◌then◌else◌, ◌>>=◌, get_elem?, set, add32, sub32, clz}

-- `struct mb_node`. The pointer to the children is the place in their array that it points to.
pub record MbNode : Type 0 where
  pub external : ℕ
  pub internal : ℕ
  pub child_ptr : ℕ

-- The place of the prefix `bit` of `cidr` bits among the internal ones.
abbrev pub count_inl_bitmap : ℕ → ℕ → ℕ
count_inl_bitmap bit cidr = sub32 (add32 (2 ^ cidr) bit) 1

abbrev pub set_bit : ℕ → ℕ → ℕ
set_bit bitmap pos = bit_or bitmap (2 ^ pos)

abbrev pub test_bitmap : ℕ → ℕ → ℕ
test_bitmap bitmap pos = bit_and bitmap (2 ^ pos)

-- What `tree_function` returns: -1, or a place with `*cidr`.
pub data Hit : Type 0 where
  miss : Hit
  hit : ℕ → ℕ → Hit

-- The loop of the `tree_function` that is compiled without FAST_TREE_FUNCTION, over `levels` levels.
unfoldable pub tree_levels : ℕ → ℕ → ℕ → Hit
tree_levels zero bitmap stride = miss
tree_levels (suc i) bitmap stride =
    let pos = count_inl_bitmap (stride / 2) i in
    let rest = tree_levels i bitmap (stride / 2) in
    if test_bitmap bitmap pos == 0 then rest else hit pos i

unfoldable pub tree_function_loop : ℕ → ℕ → Hit
unfolding tree_levels
tree_function_loop bitmap stride = if bitmap == 0 then miss else tree_levels 6 bitmap stride

-- The global tables `fct` and `pos2cidr`.
pub record Tables : Type 0 where
  pub fct : List ℕ
  pub pos2cidr : List ℕ

-- A store; `none` out of range.
abbrev pub store : List ℕ → ℕ → ℕ → Option (List ℕ)
store xs i v = get_elem? xs i >>= λ old. some (set xs i v)

-- The inner and the outer loop of `fast_lookup_init`.
pub init_row : ℕ → ℕ → ℕ → Tables → Option Tables
init_row zero i stride t = some t
init_row (suc j) i stride t = do
  word ← get_elem? t.fct i
  fct ← store t.fct i (set_bit word (count_inl_bitmap stride j))
  cidr ← store t.pos2cidr (count_inl_bitmap stride j) (j + 1)
  init_row j i (stride / 2) (record { fct = fct; pos2cidr = cidr })

pub init_rows : ℕ → ℕ → Tables → Option Tables
init_rows zero i t = some t
init_rows (suc left) i t = init_row 6 i i t >>= init_rows left (i + 1)

abbrev pub zeros : ℕ → List ℕ
zeros zero = []
zeros (suc n) = 0 ∷ zeros n

unfoldable pub fast_lookup_init : Option Tables
unfolding init_row init_rows
fast_lookup_init = init_rows 32 0 (record { fct = zeros 32; pos2cidr = zeros 64 })

-- `tree_function` with the tables; `none` is a read out of range.
unfoldable pub tree_function : Tables → ℕ → ℕ → Option Hit
tree_function t bitmap stride = do
  word ← get_elem? t.fct (stride / 2)
  let ret = bit_and word bitmap in
      if ret == 0
      then some miss
      else (get_elem? t.pos2cidr (64 - 1 - clz 64 ret) >>= λ cidr.
          some (hit (64 - 1 - clz 64 ret) cidr))
