-- ===== src/Lib.antt =====
-- A packet classifier that cuts a rule set into a decision tree, choosing at each node one of three
-- ways to cut (bitmap, split, hi) and a dimension, and that looks a flow up by walking the tree to
-- a leaf and searching its rules in order.
--
-- The parts, and the files that model them:
--   Base          lists, words and the compiler's builtins ctz, clz and popcount
--   Rule          rule.h, and the tests on rules in utils.c and cut.c
--   Rule/Iter     range_to_prefix_iter, get_next_prefix_iter, get_prefix of rule.c and the
--                 conversions of rule.h
--   Ranges        struct range1d, _range_compare and unique_ranges of rule.c, aux_heap_less of
--                 cut-inl.c
--   RuleSet       rule_set_init, rule_set_copy, rule_set_free, append_rules (cut-inl.h), lsearch
--                 (cut.c)
--   RuleSet/Clip  what is left of rules for a part of a dimension, said without the cuts
--   Redund        remove_redund of cut-inl.c
--   Double, Heap  the interfaces of `double` and of ccan's heap, with double_equals of utils.c
--   Split         cut-split.h and cut-split.c: the cut and the search, in Split/Sweep
--                 split_match_expect_1d, and in Split/Expect the estimates that call it
--   Hi            cut-hi.h and cut-hi.c: the cut and the search, in Hi/Sweep hi_get_me_1d, and in
--                 Hi/Estimate hi_get_rule_hist, with roundup_log2 and get_match_expect of
--                 cut-inl.c
--   MbNode        mb_node.h and mb_node.c: the bitmaps of a bitmap node and their lookup
--   Bitmap        cut-bitmap.h, and the histogram, the bitmaps and the push of the rules of
--                 cut-bitmap.c
--   Tree          search of cut.c, over nodes of all three cuts; in Tree/Choice what cut_node
--                 chooses, with struct cut_method of cut-inl.h as an interface, and in
--                 Tree/Traverse the traversals of cut-split.c, cut-hi.c and cut-bitmap.c
--   Sample        sample_rules and sample_testing of main.c
--   Filter        ReadIPRange, ReadPort and ReadProtocol of utils.c, from the scanned numbers on
--
-- How the code is read. An unsigned number is a native natural number, with the wrap-around of its
-- width written out. An `int` that a function returns as a priority or as -1 is its 32-bit pattern.
-- An array indexed by the dimension is a function of the index. A rule set is its list of rules
-- with the capacity of its memory. A failed `assert`, a PANIC, a -1 of rule_set_init or rule_set_copy,
-- a read of a cell that was never written and a write behind the histogram of the bitmap cut are
-- `none`; where the code does not look at that -1, the set is as its calloc has left it. The allocator
-- is a parameter, which answers whether it grants a number of bytes, and so is `rand`, as the sequence
-- of its answers. `__builtin_ctz(0)` is the width of the word, which is what the instruction that the
-- build asks for (-mbmi) gives.
--
-- `double` is a parameter with the operations that the program calls, and so is the heap of ccan:
-- a list whose first item is what heap_peek gives, with what its documentation promises of
-- heap_push and heap_pop as named hypotheses.
--
-- The loop over the prefixes of a range has fuel. It ends within one step for each number of the
-- range, which is proved. The loops over the heap have one step more than the heap has items, and
-- each step takes an item out. The loop over the segments has one step for each range and
-- each segment, and one more; the loop that doubles the segments has five, and a loop over the
-- ones of a word has one more than its bits. That this is enough is proved too.
--
-- Not modelled: the arrays of ranges that ccan grows, the recursion of cut_node through the cuts,
-- get_tree_info and the copy of the tree in cut.c, the scanning of a filter file, the options,
-- the printing and the timing in main.c, test.c, and ccan, which is a library of another project.
pub mod Base
pub mod Rule
pub mod Ranges
pub mod RuleSet
pub mod Redund
pub mod Split
pub mod Hi
pub mod MbNode
pub mod Bitmap
pub mod Filter
pub mod Tree
pub mod Double
pub mod Heap
pub mod Sample
