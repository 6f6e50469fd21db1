-- ===== src/Bitmap.antt =====
-- The bitmap cut of cut-bitmap.c and cut-bitmap.h: six bits of a key choose a child, by the longest
-- stored prefix of at most six bits. This file has the histogram of the rules, the bitmaps that
-- even_cut makes of it, and the search. The push of the rules is in Bitmap/Push.
pub mod Fill
pub mod Slots
pub mod Search
pub mod Count
mod Cells
pub mod Push
pub mod Narrow
mod Tests
use choose_cut.Base.{
  ℕ, zero, suc, ◌+◌, ◌-◌, ◌*◌, ◌/◌, ◌%◌, ◌^◌, Bool, true, false, Option, none, some, List, [], ◌∷◌,
  bit_and,
}
use choose_cut.Base.{ltb, leb, ◌==◌, if◌then◌else◌, ◌>>=◌, ◌>>◌, assert, update, popcount, sub32}
use choose_cut.Rule.{Rule, Flow}
use choose_cut.Rule.Iter.{Prefix, PrefixIter, get_prefix, prefix_iters}
use choose_cut.MbNode.{
  MbNode, Hit, miss, hit, Tables, count_inl_bitmap, set_bit, test_bitmap, tree_function,
}

-- `INL_OFFSET` and `CHILDCOUNT`
abbrev pub inl_offset : ℕ
inl_offset = 63

abbrev pub child_count : ℕ
child_count = 127

abbrev pub dim_bits : ℕ → ℕ
dim_bits zero = 32
dim_bits (suc zero) = 32
dim_bits (suc (suc zero)) = 16
dim_bits (suc (suc (suc zero))) = 16
dim_bits (suc (suc (suc (suc d)))) = 8

-- `struct rule_hist`. The cells of `child_rulecount` are those below `child_count`: count_prefixes
-- tests each place that it writes, and the other loops stay below.
pub record RuleHist : Type 0 where
  pub child_rulecount : ℕ → ℕ
  pub childs : ℕ
  pub rules : ℕ

-- The cell of a prefix: that of its first six bits, or of all its bits if it has fewer.
unfoldable pub cell_of : Prefix → ℕ → ℕ
cell_of p bits =
    if leb 6 p.len
    then p.prefix / 2 ^ (bits - 6) + inl_offset
    else count_inl_bitmap (p.prefix / 2 ^ (bits - p.len)) p.len

-- The first loop of `get_rule_hist`. The iteration over a range has fuel; `none` means that it
-- ran out, or a write behind `child_rulecount[126]`.
pub count_prefixes : ℕ → List PrefixIter → (ℕ → ℕ) → Option (ℕ → ℕ)
unfolding cell_of
count_prefixes bits [] c = some c
count_prefixes bits (iter ∷ iters) c =
    let i = cell_of (get_prefix iter bits) bits in
    do assert (ltb i child_count); count_prefixes bits iters (update c i (c i + 1))

pub count_rules : ℕ → ℕ → List Rule → (ℕ → ℕ) → Option (ℕ → ℕ)
unfolding count_prefixes
count_rules fuel dim [] c = some c
count_rules fuel dim (r ∷ rules) c = do
  iters ← prefix_iters fuel (r.range dim)
  c' ← count_prefixes (dim_bits dim) iters c
  count_rules fuel dim rules c'

-- The inner loop of the second part: the nearest cell above that holds rules.
unfoldable pub first_parent : ℕ → (ℕ → ℕ) → ℕ → Option ℕ
first_parent zero c j = none
first_parent (suc fuel) c j =
    let parent = (j - 1) / 2 in
    let above = first_parent fuel c parent in
    if j == 0 then none else (if c parent == 0 then above else some parent)

abbrev pub rules_at : (ℕ → ℕ) → Option ℕ → ℕ
rules_at c none = 0
rules_at c (some j) = c j

-- The second loop at one cell: it sees also the rules of the nearest cell above.
unfoldable pub sum_cell : ℕ → RuleHist → RuleHist
unfolding first_parent
sum_cell i h =
    if h.child_rulecount i == 0
    then h
    else (let inherited = rules_at h.child_rulecount (first_parent 7 h.child_rulecount i) in
        let count = h.child_rulecount i + inherited in
        record {
          child_rulecount = update h.child_rulecount i count;
          childs = h.childs + 1;
          rules = h.rules + count;
        })

pub sum_cells : ℕ → ℕ → RuleHist → RuleHist
unfolding sum_cell
sum_cells zero i h = h
sum_cells (suc left) i h = sum_cells left (i + 1) (sum_cell i h)

unfoldable pub get_rule_hist : ℕ → ℕ → List Rule → Option RuleHist
unfolding count_rules sum_cells
get_rule_hist fuel dim rules = do
  counts ← count_rules fuel dim rules (λ i. 0)
  some (sum_cells child_count 0 (record { child_rulecount = counts; childs = 0; rules = 0 }))

-- `even_mem_quant`
abbrev pub even_mem_quant : RuleHist → ℕ
even_mem_quant h = h.childs

-- The children that the first loop of `even_cut` has counted, and their bitmaps.
pub record Marks : Type 0 where
  pub inl_rc : ℕ
  pub exl_rc : ℕ
  pub internal : ℕ
  pub external : ℕ

abbrev pub mark_child : ℕ → ℕ → Marks → Marks
mark_child count i m =
    if count == 0
    then m
    else (if ltb i inl_offset
        then record m { inl_rc = m.inl_rc + 1; internal = set_bit m.internal i }
        else record m { exl_rc = m.exl_rc + 1; external = set_bit m.external (i - inl_offset) })

pub mark_childs : ℕ → ℕ → (ℕ → ℕ) → Marks → Marks
mark_childs zero i c m = m
mark_childs (suc left) i c m = mark_childs left (i + 1) c (mark_child (c i) i m)

-- `even_cut` up to the push of the rules: the node, whose bitmaps are empty before, and the number of
-- its children.
unfoldable pub even_mark : RuleHist → MbNode × ℕ
unfolding mark_childs
even_mark h =
    let m =
      mark_childs child_count 0 h.child_rulecount
        (record { inl_rc = 0; exl_rc = 0; internal = 0; external = 0 }) in
    (
      record { external = m.external; internal = m.internal; child_ptr = m.inl_rc },
      m.inl_rc + m.exl_rc,
    )

-- The place of a child; `none` is a place before the array.
unfoldable pub next_inl : MbNode → ℕ → Option ℕ
next_inl n idx =
    let offset = popcount 64 (bit_and n.internal (2 ^ idx - 1)) in
    if ltb offset n.child_ptr then some (n.child_ptr - offset - 1) else none

unfoldable pub next_exl : MbNode → ℕ → Option ℕ
next_exl n idx =
    let offset = popcount 64 (bit_and n.external (2 ^ idx - 1)) in some (n.child_ptr + offset)

-- The child of a cell.
unfoldable pub child_at : MbNode → ℕ → Option ℕ
child_at n i = if ltb i inl_offset then next_inl n i else next_exl n (i - inl_offset)

abbrev pub even_search_lshift : ℕ → ℕ → ℕ → ℕ
even_search_lshift dest bits lshift =
    if bits == 8
    then dest * 2 ^ lshift % 2 ^ 8
    else (if bits == 16 then dest * 2 ^ lshift % 2 ^ 16 else dest * 2 ^ lshift % 2 ^ 32)

abbrev pub shift_key : Flow → ℕ → ℕ → Flow
shift_key f dim lshift = record {
  key = update f.key dim (even_search_lshift (f.key dim) (dim_bits dim) lshift);
}

-- `even_search`: where the search goes on, `none` for the null pointer, and the flow, whose key it
-- shifts. The outer `none` is a read or a pointer out of range.
unfoldable pub even_search : Tables → MbNode → ℕ → Flow → Option (Option ℕ × Flow)
unfolding next_inl next_exl tree_function
even_search t n dim f =
    let stride = f.key dim / 2 ^ (dim_bits dim - 6) % 2 ^ 8 in
    if test_bitmap n.external stride == 0
    then (tree_function t n.internal stride >>= λ found. elim found [
      | miss ↦ some (none, f)
      | hit pos cidr ↦ next_inl n pos >>= λ child. some (some child, shift_key f dim cidr)
    ])
    else (next_exl n stride >>= λ child. some (some child, shift_key f dim 6))

-- `even_fits_bs` on the counts, and `even_count_childs`.
pub cells_fit : ℕ → ℕ → (ℕ → ℕ) → Bool
cells_fit zero i c = true
cells_fit (suc left) i c =
    let rest = cells_fit left (i + 1) c in if ltb 16 (c i) then false else rest

unfoldable pub even_fits_bs : RuleHist → Bool
unfolding cells_fit
even_fits_bs h = cells_fit child_count 0 h.child_rulecount

unfoldable pub even_count_childs : Bool → MbNode → ℕ
even_count_childs leaf n = if leaf then 0 else popcount 64 n.external + popcount 64 n.internal
