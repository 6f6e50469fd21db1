-- ===== src/Tree/Tests.antt =====
-- A run of the walk, and its theorem at an input.
use choose_cut.Base.{◌≡◌, arith, some, []}
use choose_cut.Rule.{Flow}
use choose_cut.RuleSet.{lsearch}
use choose_cut.MbNode.{Tables}
use choose_cut.Tree.{search}
use choose_cut.Tree.Walk.{search-Cuts}
use choose_cut.Tree.Example.{rules, tree, tree-Cuts}

abbrev fifteen : Flow
fifteen = record { key = λ i. 15 }

abbrev no_tables : Tables
no_tables = record { fct = []; pos2cidr = [] }

search-Cuts_example : search no_tables tree fifteen ≡ some (lsearch rules fifteen)
search-Cuts_example =
    search-Cuts no_tables fifteen tree rules (λ d. omega arith) (tree-Cuts fifteen (omega arith))
