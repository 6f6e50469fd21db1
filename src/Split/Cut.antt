-- ===== src/Split/Cut.antt =====
-- split_cut on a tree of cuts that fits the rules of the node.
use mathlib.Core.List.{map-append}
use choose_cut.Base.{
  ℕ, ◌+◌, ◌≤◌, ◌<◌, ◌≡◌, refl, arith, Bool, true, some, List, [], ◌∷◌, ◌++◌, All, if◌then◌else◌,
  length, inl, inr, Bool-cases, map,
}
use choose_cut.Rule.{dims, Rule}
use choose_cut.Ranges.{Range1d}
use choose_cut.RuleSet.{RuleSet, rule_set_init, rule_set_copy}
use choose_cut.Split.{
  Snode, Stree, SpNode, split_snode_enabled, split_rules_1d, split_cut_1d, split_fill, split_side,
  split_cut,
}
use choose_cut.Split.Parts.{part, split_rules_1d-part}

-- The two ranges lie side by side and around the ranges of all the rules, and their weights are
-- the numbers of rules that reach into them.
pub record Cuts (dim : ℕ) (r0 r1 : Range1d) (rules : List Rule) : Type 0 where
  pub in_dims : dim < dims
  pub adjacent : r1.low ≡ r0.high + 1
  pub from_low : All (λ r. r0.low ≤ (r.range dim).low) rules
  pub to_high : All (λ r. (r.range dim).high ≤ r1.high) rules
  pub weight0 : r0.weight ≡ length (part dim r0 rules)
  pub weight1 : r1.weight ≡ length (part dim r1 rules)

-- A side that is cut again has a cut of the rules that reach into it.
pub record IsSide (side : Snode) (rules : List Rule) : Type 0 where
  pub cuts : split_snode_enabled side ≡ true → Cuts side.dim side.r0 side.r1 rules

-- The tree cuts the rules at the root, and each side where it is cut again.
pub record IsTree (dim : ℕ) (tree : Stree) (rules : List Rule) : Type 0 where
  pub root : Cuts dim tree.root.r0 tree.root.r1 rules
  pub left : IsSide tree.left (part dim tree.root.r0 rules)
  pub right : IsSide tree.right (part dim tree.root.r1 rules)

-- The rules of the children on a side.
unfoldable pub side_rules : Snode → List Rule → List (List Rule)
side_rules side rules =
    if split_snode_enabled side
    then part side.dim side.r0 rules ∷ part side.dim side.r1 rules ∷ []
    else rules ∷ []

-- A set that is full.
abbrev pub full : List Rule → RuleSet
full rules = record { cap = length rules; list = rules }

module _ (dim : ℕ) (r0 r1 : Range1d) (rules : List Rule) (cuts : Cuts dim r0 r1 rules) where
  -- Into empty sets with enough room the rules of both halves are stored.
  pub split_rules-Cuts :
      (left_cap right_cap : ℕ)
      → r0.weight ≤ left_cap
      → r1.weight ≤ right_cap
      → split_rules_1d rules dim r0 r1
          (record { cap = left_cap; list = [] })
          (record { cap = right_cap; list = [] })
        ≡ some (
          record { cap = left_cap; list = part dim r0 rules },
          record { cap = right_cap; list = part dim r1 rules },
        )
  split_rules-Cuts left_cap right_cap lroom rroom =
      rw
        (split_rules_1d-part rules dim r0 r1 (record { cap = left_cap; list = [] })
          (record { cap = right_cap; list = [] }) (omega arith) (omega arith))
        (ground (arith, cuts.weight0, cuts.weight1))

module _ (grants : ℕ → Bool) (all_granted : (n : ℕ) → grants n ≡ true) where
  split_side-IsSide :
      (side : Snode) (cap : ℕ) (rules : List Rule)
      → IsSide side rules
      → split_side grants (record side { rule_set = record { cap = cap; list = rules } })
        ≡ some (map full (side_rules side rules))
  unfolding split_side side_rules rule_set_init rule_set_copy
  split_side-IsSide side cap rules s = elim (Bool-cases (split_snode_enabled side)) [
    | inl on ↦
        rw
          (
            on,
            all_granted,
            all_granted,
            split_rules-Cuts side.dim side.r0 side.r1 rules (s.cuts on) side.r0.weight
                side.r1.weight (omega arith) (omega arith),
          )
          (let c = s.cuts on in ground (arith, c.weight0, c.weight1))
    | inr off ↦ rw (off, all_granted) refl
  ]

  module _ (sp : SpNode) (dim : ℕ) (rules : RuleSet) (left_cap right_cap : ℕ) (tree : Stree)
      (t : IsTree dim tree rules.list) where
    abbrev pub child_rules : List (List Rule)
    child_rules =
        side_rules tree.left (part dim tree.root.r0 rules.list)
        ++ side_rules tree.right (part dim tree.root.r1 rules.list)

    split_cut_1d-IsTree :
        tree.root.r0.weight ≤ left_cap
        → tree.root.r1.weight ≤ right_cap
        → split_cut_1d
            (record tree.root { rule_set = rules })
            dim
            (record tree.left { rule_set = record { cap = left_cap; list = [] } })
            (record tree.right { rule_set = record { cap = right_cap; list = [] } })
          ≡ some (
            record tree.left {
              rule_set = record { cap = left_cap; list = part dim tree.root.r0 rules.list };
            },
            record tree.right {
              rule_set = record { cap = right_cap; list = part dim tree.root.r1 rules.list };
            },
          )
    unfolding split_cut_1d
    split_cut_1d-IsTree lroom rroom =
        rw
          (split_rules-Cuts dim tree.root.r0 tree.root.r1 rules.list t.root left_cap right_cap lroom
            rroom)
          (let c = t.root in ground (arith, c.weight0, c.weight1))

    -- With memory granted, room for the rules of both sides, and a tree that fits the rules of
    -- the node, split_cut passes all its assertions: each child gets, in a set that they fill, the
    -- rules of its part.
    pub split_cut-IsTree :
        tree.root.r0.weight ≤ left_cap
        → tree.root.r1.weight ≤ right_cap
        → split_cut grants sp dim rules left_cap right_cap tree
          ≡ some ((split_fill sp tree).1, map full child_rules)
    unfolding split_cut
    split_cut-IsTree lroom rroom =
        rw
          (
            all_granted,
            split_cut_1d-IsTree lroom rroom,
            split_side-IsSide tree.left left_cap (part dim tree.root.r0 rules.list) t.left,
            split_side-IsSide tree.right right_cap (part dim tree.root.r1 rules.list) t.right,
            map-append,
          )
          refl
