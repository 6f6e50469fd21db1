-- ===== src/RuleSet.antt =====
-- Sets of rules: rule_set_init, rule_set_free and rule_set_copy of rule.c, append_rules of
-- cut-inl.h, and lsearch of cut.c.
pub mod Laws
pub mod Clip
mod Tests
use choose_cut.Base.{
  ℕ, zero, suc, ◌+◌, ◌-◌, ◌*◌, ◌^◌, Bool, true, false, Option, none, some, List, [], ◌∷◌, ◌++◌,
}
use choose_cut.Base.{ltb, if◌then◌else◌, ◌>>=◌, ◌>>◌, assert, length}
use choose_cut.Rule.{Rule, Flow, matches}

-- `rule_set_t`: the list holds the first `num` cells of `ruleList`.
pub record RuleSet : Type 0 where
  pub cap : ℕ
  pub list : List Rule

abbrev pub num : RuleSet → ℕ
num s = length s.list

-- `sizeof(rule_t)`
abbrev pub rule_bytes : ℕ
rule_bytes = 44

-- What `lsearch` and `search` return where no rule matches: the pattern of the `int` -1.
abbrev pub not_found : ℕ
not_found = 2 ^ 32 - 1

-- The priority of the first rule that matches; `int` and `unsigned int` are both their patterns.
unfoldable pub lsearch : List Rule → Flow → ℕ
lsearch [] f = not_found
lsearch (r ∷ rs) f = if matches r f then r.pri else lsearch rs f

-- The allocator answers whether it grants so many bytes; `none` is the return of -1.
module _ (grants : ℕ → Bool) where
  unfoldable pub rule_set_init : ℕ → Option RuleSet
  rule_set_init count =
      if grants (count * rule_bytes) then some (record { cap = count; list = [] }) else none

  unfoldable pub rule_set_copy : RuleSet → Option RuleSet
  rule_set_copy src =
      if grants (num src * rule_bytes)
      then some (record { cap = num src; list = src.list })
      else none

-- The set of a child, zeroed by its calloc, after a call whose return value is not looked at: where the
-- memory was refused it holds nothing and has no room.
abbrev pub or_blank : Option RuleSet → RuleSet
or_blank none = record { cap = 0; list = [] }
or_blank (some s) = s

unfoldable pub rule_set_free : RuleSet → RuleSet
rule_set_free s = record { cap = 0; list = [] }

-- `none` is a failed assertion.
unfoldable pub append_rules : RuleSet → Rule → Option RuleSet
append_rules s r = do assert (ltb (num s) s.cap); some (record s { list = s.list ++ (r ∷ []) })
