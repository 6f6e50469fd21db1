-- ===== src/Hi.antt =====
-- The hi cut of cut-hi.c and cut-hi.h: the range of a node is divided into equal segments, and
-- neighbouring segments that see the same rules share a child.
pub mod Segments
pub mod Push
pub mod Cut
pub mod Parts
pub mod Index
pub mod Bounds
pub mod Search
pub mod Sweep
pub mod Estimate
mod Tests
use choose_cut.Base.{
  ℕ, zero, suc, ◌+◌, ◌-◌, ◌*◌, ◌/◌, ◌^◌, ◌%◌, Bool, true, false, ◌&&◌, Option, none, some, List, [],
  ◌∷◌, ◌++◌, bit_and, bit_or,
}
use choose_cut.Base.{
  ltb, leb, ◌==◌, if◌then◌else◌, ◌>>=◌, ◌>>◌, assert, length, get_elem?, set, update, popcount, u32,
  sub32, add64, sub64,
}
use choose_cut.Rule.{Range, Rule, Flow}
use choose_cut.RuleSet.{RuleSet, num, rule_set_init, or_blank, append_rules}

-- One child as hi_get_me_1d has found it: the first and the last of its segments (`node_r`), and
-- how many rules reach into them (`child_rulecount`).
pub record Seg : Type 0 where
  pub first : ℕ
  pub last : ℕ
  pub count : ℕ

-- What `hi_aux` holds for one dimension. `childs` is the number of children in the list.
pub record HiAux : Type 0 where
  pub start : ℕ
  pub shift : ℕ
  pub segs : List Seg

-- `struct hi_node`, without the pointer to the children.
pub record HiNode : Type 0 where
  pub start : ℕ
  pub shift : ℕ
  pub bitmap : ℕ

-- The segment that a number lies in.
abbrev pub segment : HiAux → ℕ → ℕ
segment aux x = sub32 x aux.start / 2 ^ aux.shift

abbrev pub within : ℕ → Seg → Bool
within s g = leb g.first s && leb s g.last

-- `if(s in the child && cs == -1) cs = i`, where -1 is `none`.
abbrev pub first_found : Bool → ℕ → Option ℕ → Option ℕ
first_found here i none = if here then some i else none
first_found here i (some c) = some c

-- The first loop of `hi_push_rule` from child `i` on: the children of both ends.
unfoldable pub find_ends : ℕ → ℕ → List Seg → ℕ → Option ℕ → Option ℕ → Option ℕ × Option ℕ
find_ends s e [] i cs ce = (cs, ce)
find_ends s e (g ∷ segs) i cs ce =
    let cs' = first_found (within s g) i cs in
    let ce' = first_found (within e g) i ce in
    let rest = find_ends s e segs (i + 1) cs' ce' in
    elim cs' [ none ↦ rest | some c ↦ elim ce' [ none ↦ rest | some d ↦ (some c, some d) ] ]

-- The bounds of a child, and a rule trimmed to them.
abbrev pub trim_start : HiAux → Seg → ℕ
trim_start aux g = add64 aux.start (g.first * 2 ^ aux.shift)

abbrev pub trim_end : HiAux → Seg → ℕ
trim_end aux g = add64 aux.start ((g.last + 1) * 2 ^ aux.shift)

abbrev pub trim_range : HiAux → Seg → Range → Range
trim_range aux g r = record {
  low = if ltb r.low (trim_start aux g) then u32 (trim_start aux g) else r.low;
  high = if leb (trim_end aux g) r.high then u32 (sub64 (trim_end aux g) 1) else r.high;
}

abbrev pub trim_to : HiAux → ℕ → Seg → Rule → Rule
trim_to aux dim g r = record r { range = update r.range dim (trim_range aux g (r.range dim)) }

-- The second loop of `hi_push_rule`, with `left` children to go from child `i` on.
unfoldable pub push_between : HiAux → ℕ → Rule → ℕ → ℕ → List RuleSet → Option (List RuleSet)
push_between aux dim r zero i childs = some childs
push_between aux dim r (suc left) i childs = do
  g ← get_elem? aux.segs i
  child ← get_elem? childs i
  child' ← append_rules child (trim_to aux dim g r)
  push_between aux dim r left (i + 1) (set childs i child')

-- An end that lies in no child is -1: then either the assertion fails, or the second loop starts
-- at -1, before the arrays. Both are `none`.
unfoldable pub hi_push_rule : HiAux → ℕ → Rule → List RuleSet → Option (List RuleSet)
hi_push_rule aux dim r childs =
    let (first, last) =
      find_ends (segment aux (r.range dim).low) (segment aux (r.range dim).high) aux.segs 0 none
        none in
    do cs ← first; ce ← last; assert (leb cs ce); push_between aux dim r (ce + 1 - cs) cs childs

-- `hi_set_bitmap`: a bit for the last segment of each child but the last. It stands for the C code where
-- those segments are below 64, as in every cut that hi_get_rule_hist leaves.
unfoldable pub hi_set_bitmap : List Seg → ℕ → ℕ
hi_set_bitmap [] bitmap = bitmap
hi_set_bitmap (g ∷ []) bitmap = bitmap
hi_set_bitmap (g ∷ h ∷ segs) bitmap = hi_set_bitmap (h ∷ segs) (bit_or bitmap (2 ^ g.last))

unfoldable pub hi_set_node : HiNode → HiAux → HiNode
unfolding hi_set_bitmap
hi_set_node n aux = record n {
  bitmap = hi_set_bitmap aux.segs n.bitmap;
  start = aux.start;
  shift = aux.shift;
}

-- The loops of `hi_cut`: the sets of the children, the rules, and the count of each.
unfoldable pub init_childs : (ℕ → Bool) → List Seg → List RuleSet
init_childs grants [] = []
init_childs grants (g ∷ segs) = or_blank (rule_set_init grants g.count) ∷ init_childs grants segs

unfoldable pub push_rules : HiAux → ℕ → List Rule → List RuleSet → Option (List RuleSet)
push_rules aux dim [] childs = some childs
push_rules aux dim (r ∷ rules) childs = do
  childs' ← hi_push_rule aux dim r childs
  push_rules aux dim rules childs'

unfoldable pub counts_hold : List Seg → List RuleSet → Bool
counts_hold [] childs = true
counts_hold (g ∷ segs) [] = false
counts_hold (g ∷ segs) (child ∷ childs) = (num child == g.count) && counts_hold segs childs

-- `hi_cut` up to its call of `cut_recursive`: the node, and the rules of its children.
unfoldable pub hi_cut : (ℕ → Bool) → HiNode → ℕ → List Rule → HiAux → Option (HiNode × List RuleSet)
hi_cut grants n dim rules aux = do
  assert (grants (length aux.segs * 48))
  childs ← push_rules aux dim rules (init_childs grants aux.segs)
  assert (counts_hold aux.segs childs)
  some (hi_set_node n aux, childs)

-- `hi_next`: the place of the child among the children, for `idx` below 64. Both callers keep to that:
-- `hi_search` below tests it, and `hi_traverse` comes from the places of ones in the bitmap.
unfoldable pub hi_next : HiNode → ℕ → ℕ
hi_next n idx = popcount 64 (bit_and n.bitmap (2 ^ idx - 1))

-- Where a search goes on: nowhere (the null pointer), at a child, or in a shift by 64 places or more,
-- which C leaves undefined.
pub data Found : Type 0 where
  null : Found
  child : ℕ → Found
  undefined : Found

unfoldable pub hi_search : HiNode → ℕ → Flow → Found
hi_search n dim f =
    if ltb (f.key dim) n.start
    then null
    else (let idx = sub32 (f.key dim) n.start / 2 ^ n.shift in
        if ltb idx 64 then child (hi_next n idx) else undefined)

-- `hi_fits_bs` on the counts, and `hi_count_childs`, which counts the ones of the low 32 bits.
unfoldable pub hi_fits_bs : List ℕ → Bool
hi_fits_bs [] = true
hi_fits_bs (c ∷ counts) = if ltb 16 c then false else hi_fits_bs counts

unfoldable pub hi_mem_quant : HiAux → ℕ
hi_mem_quant aux = length aux.segs

unfoldable pub hi_count_childs : Bool → HiNode → ℕ
hi_count_childs leaf n = if leaf then 0 else popcount 32 (u32 n.bitmap)
