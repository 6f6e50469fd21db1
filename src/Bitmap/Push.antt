-- ===== src/Bitmap/Push.antt =====
-- push_rules_even of cut-bitmap.c: each rule goes, prefix by prefix, to the child of the cell of the
-- prefix and, for a prefix of less than six bits, to the children of all cells below.
use choose_cut.Base.{ℕ, zero, suc, ◌+◌, ◌*◌, ◌%◌, ◌^◌, Bool, Option, none, some, List, [], ◌∷◌}
use choose_cut.Base.{ltb, leb, ◌==◌, if◌then◌else◌, ◌>>=◌, get_elem?, set, update, sub32}
use choose_cut.Rule.{Rule}
use choose_cut.Rule.Iter.{Prefix, PrefixIter, get_prefix, prefix_to_range, prefix_iters}
use choose_cut.RuleSet.{RuleSet, rule_set_init, append_rules}
use choose_cut.MbNode.{MbNode}
use choose_cut.Bitmap.{inl_offset, child_count, dim_bits, cell_of, child_at}

pub init_at : (ℕ → Bool) → MbNode → ℕ → ℕ → List RuleSet → Option (List RuleSet)
init_at grants n i count childs = do
  k ← child_at n i
  s ← rule_set_init grants count
  some (set childs k s)

-- The sets of the children of the cells from `i` on, with room for the rules that were counted.
pub init_cells : (ℕ → Bool) → ℕ → ℕ → MbNode → (ℕ → ℕ) → List RuleSet → Option (List RuleSet)
init_cells grants zero i n c childs = some childs
init_cells grants (suc left) i n c childs =
    (if c i == 0 then some childs else init_at grants n i (c i) childs)
    >>= init_cells grants left (i + 1) n c

pub append_at : MbNode → ℕ → Rule → List RuleSet → Option (List RuleSet)
append_at n i r childs = do
  k ← child_at n i
  child ← get_elem? childs k
  child' ← append_rules child r
  some (set childs k child')

-- `push_inl_rules_even`: a row of cells, and the rows below, with fuel for the number of rows.
pub push_row : ℕ → ℕ → MbNode → (ℕ → ℕ) → Rule → List RuleSet → Option (List RuleSet)
push_row zero i n c r childs = some childs
push_row (suc left) i n c r childs =
    (if c i == 0 then some childs else append_at n i r childs) >>= push_row left (i + 1) n c r

pub push_rows : ℕ → ℕ → ℕ → MbNode → (ℕ → ℕ) → Rule → List RuleSet → Option (List RuleSet)
push_rows zero i j n c r childs = none
push_rows (suc fuel) i j n c r childs =
    let below = push_row j i n c r childs >>= push_rows fuel (i * 2 + 1) (j * 2) n c r in
    if ltb i child_count then below else some childs

-- A row of 2, of 4, and so on: the seventh row is behind all cells.
pub push_inl_rules_even : ℕ → MbNode → (ℕ → ℕ) → Rule → List RuleSet → Option (List RuleSet)
push_inl_rules_even idx n c r childs = push_rows 7 (idx * 2 + 1) 2 n c r childs

-- What is left of a prefix in the child: its bits behind the sixth, or nothing.
abbrev pub child_prefix : Prefix → ℕ → Prefix
child_prefix p bits =
    if leb 6 p.len
    then record { len = sub32 p.len 6; prefix = p.prefix * 2 ^ 6 % 2 ^ bits }
    else record { len = 0; prefix = 0 }

abbrev pub child_rule : Prefix → ℕ → Rule → Rule
child_rule p dim r = record r {
  range = update r.range dim (prefix_to_range (child_prefix p (dim_bits dim)) (dim_bits dim));
}

-- The body of the loop over the prefixes of a rule, and this loop.
pub push_prefix : ℕ → MbNode → (ℕ → ℕ) → Rule → PrefixIter → List RuleSet → Option (List RuleSet)
push_prefix dim n c r iter childs =
    let p = get_prefix iter (dim_bits dim) in
    let idx = cell_of p (dim_bits dim) in
    let pushed = append_at n idx (child_rule p dim r) childs in
    if ltb idx inl_offset
    then (pushed >>= push_inl_rules_even idx n c (child_rule p dim r))
    else pushed

pub push_prefixes :
    ℕ → MbNode → (ℕ → ℕ) → Rule → List PrefixIter → List RuleSet → Option (List RuleSet)
push_prefixes dim n c r [] childs = some childs
push_prefixes dim n c r (iter ∷ iters) childs =
    push_prefix dim n c r iter childs >>= push_prefixes dim n c r iters

pub push_all : ℕ → ℕ → MbNode → (ℕ → ℕ) → List Rule → List RuleSet → Option (List RuleSet)
push_all fuel dim n c [] childs = some childs
push_all fuel dim n c (r ∷ rules) childs = do
  iters ← prefix_iters fuel (r.range dim)
  childs' ← push_prefixes dim n c r iters childs
  push_all fuel dim n c rules childs'

-- `push_rules_even` on the children of the node, whose sets are empty.
unfoldable pub push_rules_even :
    (ℕ → Bool) → ℕ → ℕ → MbNode → (ℕ → ℕ) → List Rule → List RuleSet → Option (List RuleSet)
unfolding init_at init_cells append_at push_row push_rows push_inl_rules_even push_prefix
    push_prefixes push_all
push_rules_even grants fuel dim n c rules childs = do
  empty ← init_cells grants child_count 0 n c childs
  push_all fuel dim n c rules empty
