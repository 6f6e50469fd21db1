-- ===== src/Split/Expect/Fits.antt =====
-- split_match_expect leaves a tree of cuts that fits the rules of the node.
use choose_cut.Base.{
  ℕ, ◌^◌, ◌≤◌, ◌<◌, ◌≡◌, refl, arith, ◌⊎◌, inl, inr, Bool, true, ◌&&◌, some, List, [], ◌∷◌, All,
  All-map, ltb, leb, ◌==◌, if◌then◌else◌, length, Bool-cases, update,
}
use choose_cut.Rule.{dims, Rule}
use choose_cut.Ranges.{Range1d}
use choose_cut.Heap.{HeapOps, IsLawful}
use choose_cut.Double.{IsReflexive, Doubles, double_equals}
use choose_cut.RuleSet.{RuleSet, num}
use choose_cut.Split.{
  Snode, Stree, reaches, trim, trim_rule, bucket_size, split_disable_snode, split_enable_snode,
  split_cut_1d,
}
use choose_cut.Split.Parts.{part}
use choose_cut.Split.Cut.{Cuts, IsSide, IsTree, split_rules-Cuts}
use choose_cut.Split.Sweep.Fits.{split_match_expect_1d-Cuts}
use choose_cut.Split.Expect.{expect_sides, split_match_expect, split_match_expect_subtree}
use choose_cut.Split.Expect.Sides.{IsBox, in_dim, split_match_build_childs-IsSide}

-- A rule that is trimmed to a half that it reaches into is a box still, if the half is no further in
-- than the rule at one end.
trim-IsRange :
    (l h low high w : ℕ)
    → l ≤ h
    → h < 2 ^ 32
    → (low ≤ l) ⊎ (h ≤ high)
    → reaches (record { low = l; high = h }) (record { low = low; high = high; weight = w }) ≡ true
    → ((if ltb l low then low else l) ≤ (if ltb high h then high else h))
      × ((if ltb high h then high else h) < 2 ^ 32)
trim-IsRange l h low high w le word out reach = ground arith

update-other :
    {A : Type 0} (f : ℕ → A) (i j : ℕ) (a : A)
    → (P : A → Type 0) → P a
    → P (f j)
    → P (update f i a j)
update-other f i j a P here there = elim (Bool-cases (j == i)) [
  | inl e ↦ rw e here
  | inr e ↦ rw e there
]

module _ (dim : ℕ) (half : Range1d) where
  trim_rule-IsBox :
      (r : Rule)
      → IsBox r
      → (half.low ≤ (r.range dim).low) ⊎ ((r.range dim).high ≤ half.high)
      → reaches (r.range dim) half ≡ true
      → dim < dims
      → IsBox (trim_rule dim half r)
  trim_rule-IsBox r box out reach lt j jlt =
      update-other r.range dim j (trim (r.range dim) half)
        (λ t. (t.low ≤ t.high) × (t.high < 2 ^ 32))
        (trim-IsRange (r.range dim).low (r.range dim).high half.low half.high half.weight
          (box dim lt).0 (box dim lt).1 out reach)
        (box j jlt)

  part-IsBox :
      (rules : List Rule)
      → dim < dims
      → All IsBox rules
      → All (λ r. (half.low ≤ (r.range dim).low) ⊎ ((r.range dim).high ≤ half.high)) rules
      → All IsBox (part dim half rules)
  unfolding part
  part-IsBox [] lt boxes out = tt
  part-IsBox (r ∷ rules) lt boxes out = elim (Bool-cases (reaches (r.range dim) half)) [
    | inl e ↦ rw e (trim_rule-IsBox r boxes.0 out.0 e lt, part-IsBox rules lt boxes.1 out.1)
    | inr e ↦ rw e (part-IsBox rules lt boxes.1 out.1)
  ]

  pub length-part : (rules : List Rule) → length (part dim half rules) ≤ length rules
  unfolding part
  length-part [] = omega arith
  length-part (r ∷ rules) = elim (Bool-cases (reaches (r.range dim) half)) [
    | inl e ↦ rw e (omega (arith, length-part rules))
    | inr e ↦ rw e (omega (arith, length-part rules))
  ]

module _ (dim : ℕ) (r0 r1 : Range1d) (rules : List Rule) (cuts : Cuts dim r0 r1 rules)
    (boxes : All IsBox rules) where
  part0-IsBox : All IsBox (part dim r0 rules)
  part0-IsBox =
      part-IsBox dim r0 rules cuts.in_dims boxes (All-map rules (λ r le. inl le) cuts.from_low)

  part1-IsBox : All IsBox (part dim r1 rules)
  part1-IsBox =
      part-IsBox dim r1 rules cuts.in_dims boxes (All-map rules (λ r le. inr le) cuts.to_high)

split_cut_1d-Cuts :
    (n : Snode) (dim : ℕ) (left right : Snode) (left_cap right_cap : ℕ)
    → Cuts dim n.r0 n.r1 n.rule_set.list
    → num n.rule_set ≤ left_cap
    → num n.rule_set ≤ right_cap
    → split_cut_1d n dim
        (record left { rule_set = record { cap = left_cap; list = [] } })
        (record right { rule_set = record { cap = right_cap; list = [] } })
      ≡ some (
        record left { rule_set = record { cap = left_cap; list = part dim n.r0 n.rule_set.list } },
        record right {
          rule_set = record { cap = right_cap; list = part dim n.r1 n.rule_set.list };
        },
      )
unfolding split_cut_1d
split_cut_1d-Cuts n dim left right left_cap right_cap cuts lroom rroom =
    let rules = n.rule_set.list in
    rw
      (split_rules-Cuts dim n.r0 n.r1 rules cuts left_cap right_cap
        (omega (arith, cuts.weight0, length-part dim n.r0 rules))
        (omega (arith, cuts.weight1, length-part dim n.r1 rules)))
      (ground (arith, cuts.weight0, cuts.weight1))

module _ (F : Doubles) (H : HeapOps) (law : IsLawful H) (memory_constraints : Bool)
    (reflexive : IsReflexive F) where
  off-IsSide : (side : Snode) (rules : List Rule) → IsSide (split_disable_snode side) rules
  unfolding split_disable_snode
  off-IsSide side rules = record { cuts = λ on. absurd (ground (arith, on)) }

  abbrev Sided : ℕ → Stree → F.Double → List Rule → Type 0
  Sided dim t me rules =
      (me' : F.Double) × (t' : Stree) × (expect_sides F H memory_constraints dim t me
        ≡ some (me', t'))
      × IsTree dim t' rules

  expect_sides-IsTree :
      (dim : ℕ) (root left right : Snode) (left_cap right_cap : ℕ) (me : F.Double)
      → Cuts dim root.r0 root.r1 root.rule_set.list
      → num root.rule_set < 2 ^ 32
      → All IsBox root.rule_set.list
      → num root.rule_set ≤ left_cap
      → num root.rule_set ≤ right_cap
      → Sided dim
          (record {
            root = root;
            left = record left { rule_set = record { cap = left_cap; list = [] } };
            right = record right { rule_set = record { cap = right_cap; list = [] } };
          })
          me
          root.rule_set.list
  unfolding expect_sides
  expect_sides-IsTree dim root left right left_cap right_cap me cuts word boxes lroom rroom =
      let rules = root.rule_set.list in
      let left0 = record left { rule_set = record { cap = left_cap; list = [] } } in
      let right0 = record right { rule_set = record { cap = right_cap; list = [] } } in
      elim (Bool-cases (
        memory_constraints && (leb root.r0.weight bucket_size && leb root.r1.weight bucket_size))) [
          | inl few ↦ (
            me,
            record {
              root = root;
              left = split_disable_snode left0;
              right = split_disable_snode right0;
            },
            rw few refl,
            record {
              root = cuts;
              left = off-IsSide left0 (part dim root.r0 rules);
              right = off-IsSide right0 (part dim root.r1 rules);
            },
          )
          | inr many ↦
              let left1 = record left {
                rule_set = record { cap = left_cap; list = part dim root.r0 rules };
              } in
              let right1 = record right {
                rule_set = record { cap = right_cap; list = part dim root.r1 rules };
              } in
              let l =
                split_match_build_childs-IsSide F H law memory_constraints reflexive left1
                  (omega (arith, length-part dim root.r0 rules))
                  (part0-IsBox dim root.r0 root.r1 rules cuts boxes) in
              let r =
                split_match_build_childs-IsSide F H law memory_constraints reflexive right1
                  (omega (arith, length-part dim root.r1 rules))
                  (part1-IsBox dim root.r0 root.r1 rules cuts boxes) in
              let t' : Stree = record { root = root; left = l.0; right = r.0 } in
              (
                split_match_expect_subtree F t',
                t',
                rw
                    (
                      many,
                      split_cut_1d-Cuts root dim left right left_cap right_cap cuts lroom rroom,
                      l.1,
                      r.1,
                    )
                    refl,
                record { root = cuts; left = l.3; right = r.3 },
              )
        ]

  module _ (rules : RuleSet) (left_cap right_cap dim : ℕ) (tree : Stree) (in_dims : dim < dims)
      (word : num rules < 2 ^ 32) (boxes : All IsBox rules.list) (lroom : num rules ≤ left_cap)
      (rroom : num rules ≤ right_cap) where
    -- With a heap that keeps its promises, floating point in which every integer equals itself, fewer than
    -- 2 ^ 32 rules, each with low <= high < 2 ^ 32 in all five dimensions, and room for the rules of the node on
    -- both sides, split_match_expect comes to an end and passes its assertions. What it returns equals the number of rules as the program
    -- compares, or the tree that it leaves fits the rules of the node: the root is a cut of them, and each
    -- side that is cut again is so at a cut of its part.
    pub split_match_expect-IsTree :
        (me : F.Double) × (tree' : Stree) × (split_match_expect F H memory_constraints rules
            left_cap right_cap dim tree
          ≡ some (me, tree'))
        × ((double_equals F me (F.from_int (num rules)) ≡ true) ⊎ IsTree dim tree' rules.list)
    unfolding split_match_expect split_enable_snode
    split_match_expect-IsTree =
        let n = split_enable_snode (record tree.root { rule_set = rules; dim = dim }) in
        let (me, r0, r1, run, fitting) =
          split_match_expect_1d-Cuts F H law n dim in_dims word
            (in_dim dim rules.list in_dims boxes) in
        let n' = record n { r0 = r0; r1 = r1 } in
        let left = record tree.left { rule_set = record { cap = left_cap; list = [] } } in
        let right = record tree.right { rule_set = record { cap = right_cap; list = [] } } in
        elim (Bool-cases (double_equals F me (F.from_int (num rules)))) [
          | inl no_gain ↦ (
            me,
            record {
              root = split_disable_snode n';
              left = split_disable_snode left;
              right = split_disable_snode right;
            },
            rw (run, no_gain) refl,
            inl no_gain,
          )
          | inr gain ↦ elim fitting [
            | inl same ↦
                absurd (let gain' = rw same at gain in ground (arith, gain', reflexive (num rules)))
            | inr cut ↦
                let s =
                  expect_sides-IsTree dim n' tree.left tree.right left_cap right_cap me cut.0 word
                    boxes lroom rroom in
                (s.0, s.1, rw (run, gain) s.2, inr s.3)
          ]
        ]
