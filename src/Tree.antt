-- ===== src/Tree.antt =====
-- The tree of cut.c, and the walk of `search` from the root to a leaf.
pub mod Walk
pub mod Choice
pub mod Traverse
pub mod Example
mod Tests
use choose_cut.Base.{ℕ, Bool, Option, none, some, List, [], ◌∷◌, ◌>>=◌}
use choose_cut.Rule.{Rule, Flow}
use choose_cut.RuleSet.{not_found, lsearch}
use choose_cut.MbNode.{MbNode, Tables}
use choose_cut.Bitmap.{even_search}
use choose_cut.Split.{SpNode, split_search}
use choose_cut.Hi.{HiNode, Found, null, child, undefined, hi_search}

-- `struct cnode`: a leaf with its rules, or a node of one of the cuts with its dimension and the
-- array behind its child pointer.
pub data Tree : Type 0 where
  leaf : List Rule → Tree
  bitmap_node : MbNode → ℕ → (ℕ → Tree) → Tree
  split_node : SpNode → ℕ → (ℕ → Tree) → Tree
  hi_node : HiNode → ℕ → (ℕ → Tree) → Tree

-- `search`; `none` is a read out of range or an undefined shift.
unfoldable pub search : Tables → Tree → Flow → Option ℕ
search t (leaf rules) f = some (lsearch rules f)
search t (bitmap_node n dim childs) f = even_search t n dim f >>= λ next. elim next.0 [
  | none ↦ some not_found
  | some j ↦ search t (childs j) next.1
]
search t (split_node n dim childs) f = search t (childs (split_search n dim f)) f
search t (hi_node n dim childs) f = elim (hi_search n dim f) [
  | null ↦ some not_found
  | child j ↦ search t (childs j) f
  | undefined ↦ none
]
