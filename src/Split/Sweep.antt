-- ===== src/Split/Sweep.antt =====
-- split_match_expect_1d of cut-split.c: the sweep over the ranges of the rules in one dimension that
-- finds where to cut. The ranges are ordered by their lower bounds, a heap holds those that have begun
-- and not ended, and each end and each start is tried as a cut.
pub mod Pops
pub mod State
pub mod Ends
pub mod Steps
pub mod Whole
pub mod Outcome
pub mod Rules
pub mod Fits
use choose_cut.Base.{
  ℕ, zero, suc, ◌+◌, ◌-◌, ◌*◌, Bool, true, false, Option, none, some, List, [], ◌∷◌, map,
}
use choose_cut.Base.{ltb, ◌==◌, if◌then◌else◌, ◌>>=◌, ◌>>◌, assert, length, u32, add32, sub32}
use choose_cut.Rule.{Rule}
use choose_cut.Ranges.{Range1d, sort_ranges, unique_ranges}
use choose_cut.RuleSet.{num}
use choose_cut.Split.{Snode}
use choose_cut.Double.{Doubles}
use choose_cut.Heap.{HeapOps}

-- The ranges of the rules, each with weight 1.
abbrev pub rule_range : ℕ → Rule → Range1d
rule_range dim r = record { low = (r.range dim).low; high = (r.range dim).high; weight = 1 }

abbrev pub bigger : ℕ → ℕ → ℕ
bigger a b = if ltb b a then a else b

-- The loop that adds up `dup`, from a sum so far.
unfoldable pub add_weights : ℕ → List Range1d → ℕ
add_weights dup [] = dup
add_weights dup (o ∷ os) = add_weights (add32 dup o.weight) os

module _ (F : Doubles) where
  open F use {Double, from_int, add, div, less}

  unfoldable pub split_match_expect_heuristic : ℕ → ℕ → Double
  split_match_expect_heuristic left right =
      add (div (from_int (u32 (right * right))) (from_int (add32 right left)))
        (div (from_int (u32 (left * left))) (from_int (add32 right left)))

  -- The least expectation so far, its cut, and the weights of the two ranges.
  pub record Best : Type 0 where
    pub min_me : Double
    pub split : ℕ
    pub weight0 : ℕ
    pub weight1 : ℕ

  unfoldable pub find_min_me_do : Best → Double → ℕ → ℕ → ℕ → Best
  find_min_me_do b curr scurr left right =
      if less curr b.min_me
      then record { min_me = curr; split = scurr; weight0 = left; weight1 = right }
      else b

  -- The variables of the sweep: `r1_high` is `n->r[1].high`.
  pub record Sweep : Type 0 where
    pub heap : List Range1d
    pub left : ℕ
    pub s : ℕ
    pub r1_high : ℕ
    pub best : Best

  -- The cut at `scurr`, with the ranges of the heap on both sides.
  unfoldable pub consider : ℕ → ℕ → Sweep → Sweep
  unfolding find_min_me_do add_weights
  consider count scurr st =
      let dup = add_weights 0 st.heap in
      let right = sub32 count st.left in
      let curr = split_match_expect_heuristic (add32 st.left dup) right in
      record st { best = find_min_me_do st.best curr scurr (add32 st.left dup) right }

  module _ (H : HeapOps) where
    open H use {heap_push, heap_pop}

    -- The inner loop: the ranges that end at `e` leave the heap. It has fuel; `none` means that it
    -- ran out, here and below.
    pub pop_equal : ℕ → ℕ → ℕ → List Range1d → Option (ℕ × List Range1d)
    pop_equal zero e left h = none
    pop_equal (suc fuel) e left [] = some (left, [])
    pop_equal (suc fuel) e left (top ∷ rest) = elim (top.high == e) [
      | true ↦ pop_equal fuel e (add32 left top.weight) (heap_pop (top ∷ rest))
      | false ↦ some (left, top ∷ rest)
    ]

    -- The first end `e` in the heap is passed.
    pub pass_end : ℕ → Sweep → Option Sweep
    unfolding pop_equal
    pass_end e st = do
      (left, h) ← pop_equal (length st.heap + 1) e st.left st.heap
      some (record st { heap = h; left = left; r1_high = bigger e st.r1_high })

    -- The ends before the start `low` of the next range, each tried as a cut.
    pub sweep_ends : ℕ → ℕ → ℕ → Sweep → Option Sweep
    unfolding pass_end consider
    sweep_ends zero count low st = none
    sweep_ends (suc fuel) count low st = elim st.heap [
      | [] ↦ some st
      | top ∷ rest ↦ elim (ltb top.high low) [
        | true ↦
            pass_end top.high st >>= λ st'. sweep_ends fuel count low (consider count top.high st')
        | false ↦ some st
      ]
    ]

    -- The body of the loop over the ranges.
    pub sweep_range : ℕ → Range1d → Sweep → Option Sweep
    unfolding sweep_ends
    sweep_range count r st = do
      st' ← sweep_ends (length st.heap + 1) count r.low st
      some (
          if r.low == st'.s
          then record st' { heap = heap_push st'.heap r }
          else (let tried = consider count (sub32 r.low 1) st' in
              record tried { s = r.low; heap = heap_push tried.heap r }))

    pub sweep_ranges : ℕ → List Range1d → Sweep → Option Sweep
    unfolding sweep_range
    sweep_ranges count [] st = some st
    sweep_ranges count (r ∷ rs) st = sweep_range count r st >>= λ st'. sweep_ranges count rs st'

    -- The loop over the ends that are left.
    pub sweep_rest : ℕ → ℕ → Sweep → Option Sweep
    unfolding pass_end consider
    sweep_rest zero count st = none
    sweep_rest (suc fuel) count st = elim st.heap [
      | [] ↦ some st
      | top ∷ rest ↦ elim (ltb 1 (length st.heap)) [
        | false ↦ some st
        | true ↦ pass_end top.high st >>= λ st'.
            sweep_rest fuel count
              (if ltb 0 (length st'.heap) then consider count top.high st' else st')
      ]
    ]

    -- The last range leaves the heap.
    pub pop_last : Sweep → Sweep
    pop_last st = elim st.heap [
      | [] ↦ st
      | top ∷ rest ↦ record st {
        heap = heap_pop (top ∷ rest);
        r1_high = bigger top.high st.r1_high;
      }
    ]

    abbrev pub sweep_start : Snode → Range1d → Sweep
    sweep_start n first = record {
      heap = heap_push [] first;
      left = 0;
      s = first.low;
      r1_high = first.high;
      best = record {
        min_me = from_int (num n.rule_set);
        split = first.low;
        weight0 = n.r0.weight;
        weight1 = n.r1.weight;
      };
    }

    pub sweep : Snode → Range1d → List Range1d → Option (Double × Snode)
    unfolding sweep_ranges sweep_rest pop_last
    sweep n first rs = do
      st ← sweep_ranges (num n.rule_set) rs (sweep_start n first)
      st' ← sweep_rest (length st.heap + 1) (num n.rule_set) st
      let end = pop_last st'
      assert (length end.heap == 0)
      some (
        end.best.min_me,
        record n {
          r0 = record { low = first.low; high = end.best.split; weight = end.best.weight0 };
          r1 = record {
            low = add32 end.best.split 1;
            high = end.r1_high;
            weight = end.best.weight1;
          };
        },
      )

    -- `split_match_expect_1d`: what it returns, and the node with its two ranges. If the ranges are all
    -- the same it leaves the node as it is; so it does where there are no rules, since unique_ranges
    -- counts 1 then too.
    unfoldable pub split_match_expect_1d : Snode → ℕ → Option (Double × Snode)
    unfolding sweep
    split_match_expect_1d n dim =
        elim (unique_ranges (sort_ranges (map (rule_range dim) n.rule_set.list))) [
          | none ↦ some (from_int (num n.rule_set), n)
          | some ranges ↦ elim ranges [
            | [] ↦ some (from_int (num n.rule_set), n)
            | first ∷ rs ↦ elim rs [
              | [] ↦ some (from_int (num n.rule_set), n)
              | second ∷ more ↦ sweep n first (second ∷ more)
            ]
          ]
        ]
