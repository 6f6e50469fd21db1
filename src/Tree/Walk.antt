-- ===== src/Tree/Walk.antt =====
-- The walk over a tree that split_cut and hi_cut have cut finds what the rules of the root say.
use mathlib.Core.Option
use choose_cut.Base.{
  ℕ, ◌^◌, ◌<◌, ◌≤◌, ◌≡◌, refl, sym, ◌∙◌, ap, true, Option, none, some, List, [], ◌∷◌, All,
  get_elem?,
}
use choose_cut.Rule.{dims, Rule, Flow}
use choose_cut.RuleSet.{RuleSet, lsearch, not_found}
use choose_cut.Redund.{remove_redund}
use choose_cut.Redund.Search.{IsLive, lsearch-remove_redund}
use choose_cut.MbNode.{Tables}
use choose_cut.Split.{SpNode, Stree, split_search}
use choose_cut.Split.Cut.{IsTree}
use choose_cut.Split.Search.{split_search-split_cut}
use choose_cut.Hi.{HiNode, HiAux, Found, null, child, undefined, segment, hi_search, hi_set_node}
use choose_cut.Hi.Cut.{IsHiCut}
use choose_cut.Hi.Search.{Placed, Answers, hi_search-hi_cut}
use choose_cut.Tree.{Tree, leaf, split_node, hi_node, search}
use choose_cut.Split
use choose_cut.Hi

-- What `remove_redund` leaves of rules whose priorities are not the mark.
abbrev pub Kept : List Rule → List Rule → Type 0
Kept rules out = All IsLive rules × (remove_redund rules ≡ some out)

lsearch-Kept : (rules out : List Rule) (f : Flow) → Kept rules out → lsearch out f ≡ lsearch rules f
unfolding remove_redund
lsearch-Kept [] out f k = cc
lsearch-Kept (r ∷ rs) out f k =
    let (out', run, same) = lsearch-remove_redund r rs f k.0 in
    ap (λ rules. lsearch rules f) (Option.some_inj.0 (sym k.1 ∙ run)) ∙ same

-- The trees that the cuts make of rules, for a flow: leaves, and nodes whose children are cut from what
-- remove_redund leaves of the children's rules. Where a hi node takes the key, it lies not behind
-- segment 63.
pub data Cuts (f : Flow) : Tree → List Rule → Type 0 where
  at_leaf : (rules : List Rule) → Cuts f (leaf rules) rules
  by_split :
      (sp : SpNode) (dim : ℕ) (rules : RuleSet) (left_cap right_cap : ℕ) (tree : Stree) (n : SpNode)
      (children : List RuleSet) (childs : ℕ → Tree) (out : ℕ → List Rule)
      → sp.shape ≡ 0
      → IsTree dim tree rules.list
      → tree.root.r0.weight ≤ left_cap
      → tree.root.r1.weight ≤ right_cap
      → Split.split_cut (λ _. true) sp dim rules left_cap right_cap tree ≡ some (n, children)
      → ((j : ℕ) (c : RuleSet) → get_elem? children j ≡ some c → Kept c.list (out j))
      → ((j : ℕ) (c : RuleSet) → get_elem? children j ≡ some c → Cuts f (childs j) (out j))
      → Cuts f (split_node n dim childs) rules.list
  by_hi :
      (blank n : HiNode) (dim : ℕ) (rules : List Rule) (aux : HiAux) (top : ℕ)
      (children : List RuleSet) (childs : ℕ → Tree) (out : ℕ → List Rule)
      → blank.bitmap ≡ 0
      → dim < dims
      → top < 64
      → IsHiCut aux dim rules top
      → All (Placed aux dim top) rules
      → (aux.start ≤ f.key dim → segment aux (f.key dim) < 64)
      → Hi.hi_cut (λ _. true) blank dim rules aux ≡ some (n, children)
      → ((j : ℕ) (c : RuleSet) → get_elem? children j ≡ some c → Kept c.list (out j))
      → ((j : ℕ) (c : RuleSet) → get_elem? children j ≡ some c → Cuts f (childs j) (out j))
      → Cuts f (hi_node n dim childs) rules

-- The walk goes on where hi_search says.
walk_on : Tables → (ℕ → Tree) → Flow → Found → Option ℕ
walk_on t childs f null = some not_found
walk_on t childs f (child j) = search t (childs j) f
walk_on t childs f undefined = none

walk_on-Answers :
    (t : Tables) (childs : ℕ → Tree) (f : Flow) (children : List RuleSet) (rules : List Rule)
    (found : Found)
    → Answers children rules f found
    → ((j : ℕ) (c : RuleSet)
        → get_elem? children j ≡ some c
        → search t (childs j) f ≡ some (lsearch c.list f))
    → walk_on t childs f found ≡ some (lsearch rules f)
unfolding walk_on
walk_on-Answers t childs f children rules null a below = ap some (sym a)
walk_on-Answers t childs f children rules (child j) a below =
    let (c, place, same) = a in below j c place ∙ ap some same
walk_on-Answers t childs f children rules undefined a below = absurd a

search-walk_on :
    (t : Tables) (n : HiNode) (dim : ℕ) (childs : ℕ → Tree) (f : Flow) (found : Found)
    → hi_search n dim f ≡ found
    → search t (hi_node n dim childs) f ≡ walk_on t childs f found
unfolding search walk_on
search-walk_on t n dim childs f null e = rw (e, search) refl
search-walk_on t n dim childs f (child j) e = rw (e, search) refl
search-walk_on t n dim childs f undefined e = rw (e, search) refl

-- Of a flow whose keys are words, in a tree that the split cut and the hi cut make of rules, with
-- memory granted, cuts that fit the rules, no empty child, no priority equal to the mark, and no
-- key behind segment 63 of a hi node, the walk reads nothing out of range, ends at a leaf or
-- where no rule matches, and finds the priority that the linear search finds in the rules.
pub search-Cuts :
    (t : Tables) (f : Flow) (node : Tree) (rules : List Rule)
    → ((d : ℕ) → f.key d < 2 ^ 32)
    → Cuts f node rules
    → search t node f ≡ some (lsearch rules f)
unfolding search
search-Cuts t f _ _ word (at_leaf rules) = refl
search-Cuts t f _ _ word
      (by_split sp dim set left_cap right_cap tree n children childs out empty is_tree lroom rroom
        run kept cuts) =
    let (n', children', c, run', place, same) =
      split_search-split_cut (λ _. true) (λ _. refl) sp dim set left_cap right_cap tree f empty
        is_tree lroom rroom in
    let same_run = Option.some_inj.0 (sym run ∙ run') in
    let j = split_search n dim f in
    let found : get_elem? children j ≡ some c =
      rw (ap (λ r. r.0) same_run, ap (λ r. r.1) same_run) place in
    search-Cuts t f (childs j) (out j) word (cuts j c found)
    ∙ ap some (lsearch-Kept c.list (out j) f (kept j c found) ∙ same)
search-Cuts t f _ _ word
      (by_hi blank n dim rules aux top children childs out empty small few is_cut placed near run
        kept cuts) =
    let (children', run', answers) =
      hi_search-hi_cut (λ _. true) (λ _. refl) blank dim rules aux top f empty small few is_cut
        placed (word dim) near in
    let same_run = Option.some_inj.0 (sym run' ∙ run) in
    let answers' = rw (ap (λ r. r.0) same_run, ap (λ r. r.1) same_run) at answers in
    search-walk_on t n dim childs f (hi_search n dim f) refl
    ∙ walk_on-Answers t childs f children rules (hi_search n dim f) answers' (λ j c at_child.
      search-Cuts t f (childs j) (out j) word (cuts j c at_child)
      ∙ ap some (lsearch-Kept c.list (out j) f (kept j c at_child)))
