-- ===== src/Split/Expect.antt =====
-- The expectations of cut-split.c that are computed with split_match_expect_1d: those of a node, of its
-- two sides, and of the whole tree of cuts.
pub mod Sides
pub mod Fits
pub mod Search
pub mod Init
mod Tests
use choose_cut.Base.{
  ℕ, zero, suc, ◌+◌, ◌-◌, ◌^◌, Bool, true, false, ◌&&◌, Option, none, some, List, [],
}
use choose_cut.Base.{ltb, leb, ◌==◌, if◌then◌else◌, ◌>>=◌, add32}
use choose_cut.Rule.{dims}
use choose_cut.Ranges.{Range1d}
use choose_cut.RuleSet.{RuleSet, num}
use choose_cut.Split.{
  Snode, Stree, bucket_size, split_disable_snode, split_enable_snode, split_snode_enabled,
  split_cut_1d,
}
use choose_cut.Double.{Doubles, double_equals, from_signed}
use choose_cut.Heap.{HeapOps}
use choose_cut.Split.Sweep.{split_match_expect_1d}

module _ (F : Doubles) where
  open F use {Double, from_int, sub, div, less}

  -- `min_dim`, `min_r` and `mec`.
  pub record MinCut : Type 0 where
    pub dim : ℕ
    pub r0 : Range1d
    pub r1 : Range1d
    pub mec : Double

  -- `none` stands for the `min_dim` of -1.
  unfoldable pub keep_min : Snode → ℕ → Double → Option MinCut → Option MinCut
  keep_min n i me none = some (record { dim = i; r0 = n.r0; r1 = n.r1; mec = me })
  keep_min n i me (some m) =
      if less me m.mec then some (record { dim = i; r0 = n.r0; r1 = n.r1; mec = me }) else some m

  unfoldable pub split_match_expect_subtree : Stree → Double
  split_match_expect_subtree t =
      let left =
        if split_snode_enabled t.left
        then add32 t.left.r0.weight t.left.r1.weight
        else t.root.r0.weight in
      let rules =
        if split_snode_enabled t.right
        then add32 (add32 left t.right.r0.weight) t.right.r1.weight
        else add32 left t.root.r1.weight in
      let childs =
        2
        + (if split_snode_enabled t.left then 1 else 0)
        + (if split_snode_enabled t.right then 1 else 0) in
      div (from_signed F rules) (from_int childs)

  module _ (H : HeapOps) (memory_constraints : Bool) where
    -- The loop over the dimensions, from `i` on.
    pub build_dims : ℕ → ℕ → Snode → Option MinCut → Option (Snode × Option MinCut)
    unfolding keep_min
    build_dims zero i n kept = some (n, kept)
    build_dims (suc left) i n kept = do
      (me, n') ← split_match_expect_1d F H n i
      build_dims left (i + 1) n' (keep_min n' i me kept)

    -- Behind the loop.
    unfoldable pub take_min : Snode → MinCut → Snode
    take_min n m =
        let n' =
          if double_equals F m.mec (from_int (num n.rule_set)) then split_disable_snode n else n in
        record n' { dim = m.dim; r0 = m.r0; r1 = m.r1 }

    pub split_match_build_childs : Snode → Option Snode
    unfolding build_dims take_min
    split_match_build_childs n =
        if memory_constraints && leb (num n.rule_set) bucket_size
        then some (split_disable_snode n)
        else (do
          (n', kept) ← build_dims dims 0 (split_enable_snode n) none
          m ← kept
          some (take_min n' m))

    -- What follows a root that is cut.
    pub expect_sides : ℕ → Stree → Double → Option (Double × Stree)
    unfolding split_match_build_childs
    expect_sides dim t me =
        if memory_constraints
          && (leb t.root.r0.weight bucket_size && leb t.root.r1.weight bucket_size)
        then some (
          me,
          record t { left = split_disable_snode t.left; right = split_disable_snode t.right },
        )
        else (do
          (left, right) ← split_cut_1d t.root dim t.left t.right
          left' ← split_match_build_childs left
          right' ← split_match_build_childs right
          let t' = record t { left = left'; right = right' }
          some (split_match_expect_subtree t', t'))

    -- `split_match_expect` on the rules of the node, the space of `left_rules` and `right_rules`, the
    -- dimension and its tree; `none` is a failed assertion.
    unfoldable pub split_match_expect : RuleSet → ℕ → ℕ → ℕ → Stree → Option (Double × Stree)
    unfolding expect_sides
    split_match_expect rules left_cap right_cap dim tree =
        let left = record tree.left { rule_set = record { cap = left_cap; list = [] } } in
        let right = record tree.right { rule_set = record { cap = right_cap; list = [] } } in
        split_match_expect_1d F H
          (split_enable_snode (record tree.root { rule_set = rules; dim = dim })) dim
        >>= λ found.
            if double_equals F found.0 (from_int (num found.1.rule_set))
            then some (
              found.0,
              record {
                root = split_disable_snode found.1;
                left = split_disable_snode left;
                right = split_disable_snode right;
              },
            )
            else expect_sides dim (record { root = found.1; left = left; right = right }) found.0
