-- ===== src/Hi/Estimate.antt =====
-- hi_get_rule_hist and hi_match_expect of cut-hi.c, with roundup_log2 of cut-inl.c: how many segments a hi
-- cut divides the range of a node into.
pub mod Rounding
pub mod Tries
pub mod Fits
pub mod Search
mod Tests
use choose_cut.Base.{
  ℕ, zero, suc, ◌+◌, ◌-◌, ◌*◌, ◌/◌, ◌^◌, Bool, true, false, ◌&&◌, ◌||◌, not, Option, none, some,
  List, [], ◌∷◌, map,
}
use choose_cut.Base.{
  ltb, leb, ◌==◌, if◌then◌else◌, ◌>>=◌, ◌>>◌, assert, length, u32, sub32, add64, sub64, clz,
}
use choose_cut.Rule.{Rule}
use choose_cut.Ranges.{Range1d, sort_ranges, unique_ranges}
use choose_cut.Double.{Doubles}
use choose_cut.Heap.{HeapOps}
use choose_cut.RuleSet.{RuleSet, num}
use choose_cut.Split.Sweep.{rule_range, bigger}
use choose_cut.Hi.{Seg, HiAux}
use choose_cut.Hi.Sweep.{hi_get_me_1d}

-- An `int` in 32 bits, to 64 bits.
abbrev signed_long : ℕ → ℕ
signed_long n = if ltb n (2 ^ 31) then n else n + (2 ^ 64 - 2 ^ 32)

-- `roundup_log2` of the pattern of an `int`; `none` is a failed assertion.
unfoldable pub roundup_log2 : ℕ → Option ℕ
roundup_log2 n = do
  assert (not (n == 0))
  let shift = 32 - clz 32 n
  some (if signed_long n == 2 ^ (shift - 1) then shift - 1 else shift)

-- The argument of `roundup_log2`: the length of a segment, if there are `div` of them.
abbrev pub seg_length : ℕ → ℕ → ℕ
seg_length len div = u32 (sub64 (add64 len div) 1 / div)

-- The loop over the upper bounds.
pub highest : ℕ → List Range1d → ℕ
highest high [] = high
highest high (r ∷ rs) = highest (bigger r.high high) rs

module _ (F : Doubles) (H : HeapOps) where
  open F use {Double, from_int, sub, less}

  unfoldable pub calc_me_ratio : ℕ → ℕ → Double → Double
  calc_me_ratio rulenum dup_rules me =
      if not (dup_rules == rulenum)
      then F.div (sub (from_int rulenum) me) (from_int (sub32 dup_rules rulenum))
      else sub (from_int rulenum) me

  -- The loop that tries more segments, from the ranges, the number of rules, `len`, `div`, `shift`, and
  -- the children, `me` and `me_ratio` of the last try. The result is `me`, and `start`, `shift`, `node_r`
  -- and `hist` of the dimension. It has fuel; `none` means that it ran out.
  pub hi_try :
      ℕ
      → Range1d
      → List Range1d
      → ℕ
      → ℕ
      → ℕ
      → ℕ
      → Double × List Seg × ℕ
      → Double
      → Option (Double × HiAux × ℕ)
  hi_try zero first rs rulenum len div shift last me_ratio = none
  hi_try (suc fuel) first rs rulenum len div shift (me, segs, rules) me_ratio =
      let kept = some (me, record { start = first.low; shift = shift; segs = segs }, rules) in
      roundup_log2 (seg_length len (div * 2)) >>= λ shift'.
      elim (ltb 64 (div * 2) || ltb len (div * 2) || (shift' == shift)) [
        | true ↦ kept
        | false ↦ hi_get_me_1d F H first rs first.low (u32 (2 ^ shift')) (div * 2) >>= λ next.
            elim (leb (div * 2) 64 && less me_ratio (calc_me_ratio rulenum rules next.0)) [
              | true ↦
                  hi_try fuel first rs rulenum len (div * 2) shift' next
                    (calc_me_ratio rulenum rules next.0)
              | false ↦ kept
            ]
      ]

  -- From the ranges on; `aux` and `hist_rules` are what the dimension held before.
  pub hi_divide : Range1d → List Range1d → ℕ → HiAux → ℕ → Option (Double × HiAux × ℕ)
  unfolding hi_try highest
  hi_divide first rs rulenum aux hist_rules =
      let len = add64 (sub64 (highest first.high rs) first.low) 1 in
      if ltb len 4 then some (from_int rulenum, aux, hist_rules) else (do
        shift ← roundup_log2 (seg_length len 4)
        found ← hi_get_me_1d F H first rs first.low (u32 (2 ^ shift)) 4
        hi_try 5 first rs rulenum len 4 shift found (calc_me_ratio rulenum hist_rules found.0))

  -- `hi_get_rule_hist`; where there are no rules it reads a range that was never written.
  unfoldable pub hi_get_rule_hist : RuleSet → ℕ → HiAux → ℕ → Option (Double × HiAux × ℕ)
  unfolding hi_divide
  hi_get_rule_hist rules dim aux hist_rules =
      unique_ranges (sort_ranges (map (rule_range dim) rules.list)) >>= λ ranges. elim ranges [
        | [] ↦ none
        | first ∷ rs ↦ hi_divide first rs (num rules) aux hist_rules
      ]

  unfoldable pub hi_match_expect : RuleSet → ℕ → HiAux → ℕ → Option (Double × HiAux × ℕ)
  hi_match_expect rules dim aux hist_rules = hi_get_rule_hist rules dim aux hist_rules
