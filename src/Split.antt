-- ===== src/Split.antt =====
-- The split cut of cut-split.c and cut-split.h: a node is cut at a value of one dimension, and
-- each half at a value of a dimension of its own.
pub mod Parts
pub mod Sweep
pub mod Expect
pub mod Lookup
pub mod Cut
pub mod Index
pub mod Search
mod Tests
use choose_cut.Base.{
  ℕ, zero, suc, ◌+◌, ◌-◌, ◌*◌, ◌^◌, ◌%◌, Bool, true, false, ◌&&◌, ◌||◌, not, Option, none, some,
  List, [], ◌∷◌, ◌++◌,
}
use choose_cut.Base.{ltb, leb, ◌==◌, if◌then◌else◌, ◌>>=◌, ◌>>◌, assert, length, update, popcount}
use Prim.Native.Nat.{bit_and, bit_or}
use choose_cut.Rule.{dims, Range, Rule, Flow}
use choose_cut.Ranges.{Range1d}
use choose_cut.RuleSet.{
  RuleSet, num, rule_set_init, rule_set_copy, rule_set_free, or_blank, append_rules,
}

-- `BUCKETSIZE`
abbrev pub bucket_size : ℕ
bucket_size = 16

-- `struct snode`: the two ranges of a cut are `r[0]` and `r[1]`.
pub record Snode : Type 0 where
  pub dim : ℕ
  pub flags : ℕ
  pub r0 : Range1d
  pub r1 : Range1d
  pub rule_set : RuleSet

-- `struct stree`
pub record Stree : Type 0 where
  pub root : Snode
  pub left : Snode
  pub right : Snode

-- `struct sp_node`, without the pointer to the children.
pub record SpNode : Type 0 where
  pub dim_left : ℕ
  pub dim_right : ℕ
  pub shape : ℕ
  pub root_split : ℕ
  pub left_split : ℕ
  pub right_split : ℕ

unfoldable pub split_disable_snode : Snode → Snode
split_disable_snode n = record n { flags = 0 }

unfoldable pub split_enable_snode : Snode → Snode
split_enable_snode n = record n { flags = 1 }

abbrev pub split_snode_enabled : Snode → Bool
split_snode_enabled n = n.flags == 1

-- The test of a rule against one half, and the rule cut to that half.
abbrev pub reaches : Range → Range1d → Bool
reaches r half = not (ltb r.high half.low || ltb half.high r.low)

abbrev pub trim : Range → Range1d → Range
trim r half = record {
  low = if ltb r.low half.low then half.low else r.low;
  high = if ltb half.high r.high then half.high else r.high;
}

abbrev pub trim_rule : ℕ → Range1d → Rule → Rule
trim_rule dim half rule = record rule { range = update rule.range dim (trim (rule.range dim) half) }

-- One half of the loop body of `_split_cut_1d`.
pub push_half : ℕ → Range1d → Rule → RuleSet → Option RuleSet
push_half dim half rule rs =
    if reaches (rule.range dim) half then append_rules rs (trim_rule dim half rule) else some rs

-- `_split_cut_1d`; `none` is a failed assertion in `append_rules`.
pub split_rules_1d :
    List Rule → ℕ → Range1d → Range1d → RuleSet → RuleSet → Option (RuleSet × RuleSet)
split_rules_1d [] dim left right lrs rrs = some (lrs, rrs)
split_rules_1d (rule ∷ ors) dim left right lrs rrs = do
  lrs' ← push_half dim left rule lrs
  rrs' ← push_half dim right rule rrs
  split_rules_1d ors dim left right lrs' rrs'

-- `split_cut_1d` gives back the two sides with their rules.
pub split_cut_1d : Snode → ℕ → Snode → Snode → Option (Snode × Snode)
split_cut_1d n dim left right = do
  (lrs, rrs) ← split_rules_1d n.rule_set.list dim n.r0 n.r1 left.rule_set right.rule_set
  assert (num lrs == n.r0.weight)
  assert (num rrs == n.r1.weight)
  some (record left { rule_set = lrs }, record right { rule_set = rrs })

-- `split_fill`: how many children there are, and the node.
unfoldable pub split_fill : SpNode → Stree → ℕ × SpNode
split_fill sp tree =
    let root = record sp { root_split = tree.root.r0.high; shape = bit_or sp.shape 0x5 } in
    let left =
      if split_snode_enabled tree.left
      then record root {
        left_split = tree.left.r0.high;
        dim_left = tree.left.dim;
        shape = bit_or root.shape 0x2;
      }
      else record root { dim_left = dims } in
    let right =
      if split_snode_enabled tree.right
      then record left {
        right_split = tree.right.r0.high;
        dim_right = tree.right.dim;
        shape = bit_or left.shape 0x8;
      }
      else record left { dim_right = dims } in
    (
      2
          + (if split_snode_enabled tree.left then 1 else 0)
          + (if split_snode_enabled tree.right then 1 else 0),
      right,
    )

-- `sizeof(struct cnode)`
abbrev pub cnode_bytes : ℕ
cnode_bytes = 48

module _ (grants : ℕ → Bool) where
  -- The children on one side: two if the side is cut again, else one.
  pub split_side : Snode → Option (List RuleSet)
  split_side n =
      if split_snode_enabled n
      then (do
        let first = or_blank (rule_set_init grants n.r0.weight)
        let second = or_blank (rule_set_init grants n.r1.weight)
        (first', second') ← split_rules_1d n.rule_set.list n.dim n.r0 n.r1 first second
        some (first' ∷ second' ∷ []))
      else some (or_blank (rule_set_copy grants n.rule_set) ∷ [])

  -- `split_cut` up to its call of `cut_recursive`, on the rules of the node, the space of
  -- `left_rules` and `right_rules`, and the tree that `split_match_expect` has left for `dim`. The
  -- result is the node and the rules of its children.
  pub split_cut : SpNode → ℕ → RuleSet → ℕ → ℕ → Stree → Option (SpNode × List RuleSet)
  split_cut sp dim rules left_cap right_cap tree =
      let (childs, sp') = split_fill sp tree in
      do
        assert (grants (childs * cnode_bytes))
        (left, right) ←
            split_cut_1d (record tree.root { rule_set = rules }) dim
              (record tree.left { rule_set = record { cap = left_cap; list = [] } })
              (record tree.right { rule_set = record { cap = right_cap; list = [] } })
        lefts ← split_side left
        rights ← split_side right
        some (sp', lefts ++ rights)

-- `split_next`: the place of the child among the children.
unfoldable pub split_next : SpNode → ℕ → ℕ
unfolding popcount
split_next n idx = popcount 8 (bit_and n.shape ((2 ^ idx - 1) % 2 ^ 8))

-- The position in the shape that `split_search` comes to.
unfoldable pub split_idx : SpNode → ℕ → Flow → ℕ
split_idx n dim f =
    let side = (if ltb n.root_split (f.key dim) then 1 else 0) * 2 in
    let right =
      if not (side == 0) && not (n.dim_right == dims)
      then (if ltb n.right_split (f.key n.dim_right) then side + 1 else side)
      else side in
    if (right == 0) && not (n.dim_left == dims)
    then (if ltb n.left_split (f.key n.dim_left) then right + 1 else right)
    else right

unfoldable pub split_search : SpNode → ℕ → Flow → ℕ
unfolding split_next split_idx
split_search n dim f = split_next n (split_idx n dim f)

unfoldable pub split_mem_quant : Stree → ℕ
split_mem_quant tree =
    2
    + (if split_snode_enabled tree.left then 1 else 0)
    + (if split_snode_enabled tree.right then 1 else 0)

-- One side of the test in `split_fits_bs`.
abbrev pub side_fits : Snode → Range1d → Bool
side_fits side whole =
    if split_snode_enabled side
    then not (ltb bucket_size side.r0.weight || ltb bucket_size side.r1.weight)
    else not (ltb bucket_size whole.weight)

unfoldable pub split_fits_bs : Stree → Bool
split_fits_bs tree = side_fits tree.left tree.root.r0 && side_fits tree.right tree.root.r1

-- `split_count_childs`, of a node with the bit `leaf`.
unfoldable pub split_count_childs : Bool → SpNode → ℕ
unfolding popcount
split_count_childs leaf n = if leaf then 0 else popcount 32 n.shape

-- How `split_aux_init` ends: the heap is refused, PANIC for `right_rules`, PANIC for `left_rules` with
-- what rule_set_free has left of `right_rules`, or the space of both. The array of ranges grows in ccan.
pub data SplitInit : Type 0 where
  no_heap : SplitInit
  panic_right : SplitInit
  panic_left : RuleSet → SplitInit
  ready : RuleSet → RuleSet → SplitInit

-- The two calls of the allocator have answers of their own.
unfoldable pub split_aux_init : Bool → (ℕ → Bool) → (ℕ → Bool) → RuleSet → SplitInit
split_aux_init heap_granted right_grants left_grants rules =
    if not heap_granted then no_heap else elim (rule_set_init right_grants (num rules)) [
      | none ↦ panic_right
      | some right ↦ elim (rule_set_init left_grants (num rules)) [
        | none ↦ panic_left (rule_set_free right)
        | some left ↦ ready right left
      ]
    ]
