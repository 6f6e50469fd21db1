-- ===== src/Rule.antt =====
-- The types of rule.h and the tests on one rule: rule.h, and rule_contained and
-- _rule_pri_compare of utils.c, with the test of one rule in lsearch of cut.c.
pub mod Iter
pub mod Matching
mod Tests
use choose_cut.Base.{ℕ, zero, suc, ◌+◌, ◌-◌, ◌≤◌, ◌≡◌, Bool, true, false, ◌&&◌, ◌||◌}
use choose_cut.Base.{ltb, leb, ◌==◌, if◌then◌else◌}
use choose_cut.Base.Int.{ℤ, pos, negsuc}

-- `DIM`
abbrev pub dims : ℕ
dims = 5

-- `range_t[2]`
pub record Range : Type 0 where
  pub low : ℕ
  pub high : ℕ

-- `rule_t`. An array indexed by the dimension is a function; no index past `DIM` is read.
pub record Rule : Type 0 where
  pub pri : ℕ
  pub range : ℕ → Range

-- `struct flow`
pub record Flow : Type 0 where
  pub key : ℕ → ℕ

-- The loop of `rule_contained`: how many of the dimensions `i`, `i + 1`, … with `left` of them
-- to go have a range of `a` around the one of `b`.
count_around : Rule → Rule → ℕ → ℕ → ℕ → ℕ
count_around a b zero i count = count
count_around a b (suc left) i count = count_around a b left (i + 1) (
    if leb (a.range i).low (b.range i).low && leb (b.range i).high (a.range i).high
    then count + 1
    else count)

-- `a` contains `b`
unfoldable pub rule_contained : Rule → Rule → Bool
unfolding count_around
rule_contained a b = count_around a b dims 0 0 == dims

-- `_rule_pri_compare`
unfoldable pub rule_pri_compare : Rule → Rule → ℤ
rule_pri_compare a b =
    if ltb a.pri b.pri then negsuc 0 else if ltb b.pri a.pri then pos 1 else pos 0

-- `range_overlap`
unfoldable pub range_overlap : Range → Range → Bool
range_overlap a b = if ltb b.high a.low || ltb a.high b.low then false else true

-- One dimension of the test in `lsearch`.
abbrev pub in_range : ℕ → Range → Bool
in_range x r = leb r.low x && leb x r.high

-- The whole test in `lsearch`, in the order of the code.
unfoldable pub matches : Rule → Flow → Bool
matches r f =
    in_range (f.key 0) (r.range 0)
    && in_range (f.key 1) (r.range 1)
    && in_range (f.key 2) (r.range 2)
    && in_range (f.key 3) (r.range 3)
    && in_range (f.key 4) (r.range 4)
