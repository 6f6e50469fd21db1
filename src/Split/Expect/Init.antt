-- ===== src/Split/Expect/Init.antt =====
-- split_aux_init: how it ends, and that the room that it makes is enough for split_match_expect.
use choose_cut.Base.{
  ℕ, ◌*◌, ◌^◌, ◌<◌, ◌≡◌, refl, arith, ◌⊎◌, inl, inr, Bool, true, false, some, [], All, Bool-cases,
}
use choose_cut.Rule.{dims}
use choose_cut.Heap.{HeapOps, IsLawful}
use choose_cut.Double.{Doubles, IsReflexive, double_equals}
use choose_cut.RuleSet.{RuleSet, num, rule_bytes, rule_set_init, rule_set_free}
use choose_cut.Split.{Stree, SplitInit, no_heap, panic_right, panic_left, ready, split_aux_init}
use choose_cut.Split.Cut.{IsTree}
use choose_cut.Split.Expect.{split_match_expect}
use choose_cut.Split.Expect.Sides.{IsBox}
use choose_cut.Split.Expect.Fits.{split_match_expect-IsTree}

module _ (F : Doubles) (H : HeapOps) (memory_constraints : Bool) (rules : RuleSet) (dim : ℕ)
    (tree : Stree) where
  -- What split_match_expect comes to with the room of these sets.
  abbrev pub Estimated : RuleSet → RuleSet → Type 0
  Estimated right left =
      (me : F.Double) × (tree' : Stree) × (split_match_expect F H memory_constraints rules left.cap
          right.cap dim tree
        ≡ some (me, tree'))
      × ((double_equals F me (F.from_int (num rules)) ≡ true) ⊎ IsTree dim tree' rules.list)

  -- Why split_aux_init ends so, or what its sets are good for.
  abbrev pub Explains : Bool → (ℕ → Bool) → (ℕ → Bool) → SplitInit → Type 0
  Explains heap_granted right_grants left_grants no_heap = heap_granted ≡ false
  Explains heap_granted right_grants left_grants panic_right =
      right_grants (num rules * rule_bytes) ≡ false
  Explains heap_granted right_grants left_grants (panic_left freed) =
      (left_grants (num rules * rule_bytes) ≡ false) × (freed.cap ≡ 0) × (freed.list ≡ [])
  Explains heap_granted right_grants left_grants (ready right left) =
      (heap_granted ≡ true)
      × (right_grants (num rules * rule_bytes) ≡ true)
      × (left_grants (num rules * rule_bytes) ≡ true)
      × (right.list ≡ [])
      × (left.list ≡ [])
      × Estimated right left

module _ (F : Doubles) (H : HeapOps) (law : IsLawful H) (memory_constraints : Bool)
    (reflexive : IsReflexive F) (rules : RuleSet) (dim : ℕ) (tree : Stree) (in_dims : dim < dims)
    (word : num rules < 2 ^ 32) (boxes : All IsBox rules.list) where
  -- Let the heap keep its promises, let every integer equal itself in floating point, and let there be fewer
  -- than 2 ^ 32 rules, each with low <= high < 2 ^ 32 in all five dimensions. split_aux_init gives up at the heap
  -- only if that is refused, and ends the program only where the memory of one of the two sets is refused, with
  -- the right one freed if it is that of the left. Only if
  -- all of it is granted it makes both sets; they are empty, and their room is enough:
  -- split_match_expect, on the rules of the node with that room, passes its assertions, and what it returns
  -- equals the number of rules as the program compares, or the tree that it leaves fits the rules.
  pub split_aux_init-Explains :
      (heap_granted : Bool) (right_grants left_grants : ℕ → Bool)
      → Explains F H memory_constraints rules dim tree heap_granted right_grants left_grants
          (split_aux_init heap_granted right_grants left_grants rules)
  unfolding split_aux_init rule_set_init rule_set_free
  split_aux_init-Explains false right_grants left_grants = refl
  split_aux_init-Explains true right_grants left_grants =
      elim (Bool-cases (right_grants (num rules * rule_bytes))) [
        | inr refused ↦ rw refused refused
        | inl granted ↦ rw granted (elim (Bool-cases (left_grants (num rules * rule_bytes))) [
          | inr refused ↦ rw refused (refused, refl, refl)
          | inl granted' ↦ rw granted' (
            refl,
            granted,
            granted',
            refl,
            refl,
            split_match_expect-IsTree F H law memory_constraints reflexive rules (num rules)
                (num rules) dim tree in_dims word boxes (omega arith) (omega arith),
          )
        ])
      ]
