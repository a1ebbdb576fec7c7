-- ===== src/Lib.antt =====
-- Mergiraf, a syntax-aware merge driver: a merge of three revisions of a file starts from a line-based
-- merge (src/line_based.rs, a library), whose conflicts are parsed and resolved on syntax trees. The
-- trees are matched, their structure is encoded as triples, the triples of the base that another
-- revision overrides are removed, and a merged tree is built and printed. Of several results the best
-- is chosen.
--
-- The parts and their files:
--
-- Newline: src/newline.rs. `infer_newline_style`, `imitate_newline_style`, `normalize_to_lf`.
-- ParsedMerge: src/parsed_merge.rs. The chunks of a file with conflict markers and the maps between
--   its positions and those of each revision. Parse has the loop of `ParsedMerge::parse`, Search the
--   loop of `binary_search`, Ranges `rev_range_to_merged_range`, Render `render` and
--   `into_merge_result`; Parse/Layout, Index, Views and Unchanged are proofs.
-- Settings: src/settings.rs. `DisplaySettings` with its markers and the cached expressions.
-- MergedText: src/merged_text.rs. Merged text and conflicts that need not end at lines. Reindent has
--   `push_line_based_merge`, Render the two displays; the modules below Render read the display back.
-- MergeResult, Merge, Solve: src/merge_result.rs, src/merge.rs and src/solve.rs. The attempts one
--   after the other, as lists of results, and the choice between them.
-- Ast: src/ast.rs. Nodes, walks (`DfsIterator` is in Walk) and `isomorphic_to`; Truncate has
--   `truncate`, Ancestors the way from a node to the root.
-- Matching: src/matching.rs. The two maps of a matching; OneToOne, Extend and SameKind are proofs.
-- TreeMatcher: src/tree_matcher.rs and src/tree_matcher/priority_list.rs. PriorityList is the queue of
--   trees, TopDown the first pass, Linear and Recovery the two ways of `last_chance_match`, BottomUp
--   the second pass and `match_trees`.
-- MergedTree: src/merged_tree.rs. Merged trees, spurious conflicts and the fallback to lines,
--   and in Source the comparison with a parsed source.
-- Signature: the extraction of signatures of src/signature.rs from nodes and from merged trees.
-- TreeBuilder: src/tree_builder.rs. The sides of a conflict, and in Commutative the merge of lists
--   without an order.
-- RevisionSet, ClassMapping: the sets of revisions and the classes of src/class_mapping.rs.
-- Pcs: the triples of src/pcs.rs, with the nodes of classes; Revision is the enum of src/pcs.rs.
-- MultiMap, ChangeSet: src/multimap.rs and src/changeset.rs. ChangeSet/Refines relates the three
--   indexes to one set of triples, and ChangeSet/Tree has `add_tree`, and `generate_pcs_triples` of
--   src/merge_3dm.rs.
-- Merge3dm: `fix_pcs_inconsistencies` of src/merge_3dm.rs; Matchings has `generate_matchings` and
--   `create_class_mapping`.
-- Base: what they share. Base/Text has the operations on strings, Base/Run what a call comes to,
--   Base/HashMap maps and sets. The modules called Examples hold runs and instances.
--
-- How the code is modelled. A string is the list of its bytes, and a position counts bytes. A call that
-- can panic returns a `Run`, which is a value, a panic, or, for a loop on fuel, the end of the fuel. A
-- hash map is a list of pairs and a hash set a list without equal elements, both compared by the
-- type's own `==`; since the order of iteration is not specified, theorems speak of lookups and tests.
-- Numbers are not bounded, but for the subtraction of `rev_range_to_merged_range` and the counter of
-- exact matchings of a class, which wrap around. A tree is a value: its nodes are compared by the fields
-- that `==` compares, and references between nodes and their parents are left out.
--
-- The debug assertions of `Matching::add` and `Matching::extend` on kind and language are left out: the
-- matcher is modelled as it runs in builds without debug assertions. The assertion of
-- `conflict_regexes` is modelled.
--
-- Fuel: the loop of `parse` is given one more round than the source has bytes, and the search one more
-- than there are sections; in both each round makes what is left smaller. The walk of a tree is given
-- its fuel by the caller, and one round for each node is enough. The top-down pass of the matcher takes
-- trees out of two queues and puts back their children or nothing, so that it needs at most one round
-- for each node of the two trees. The linear matching is given a round for each level of the left
-- tree, and the side of a conflict one for each key of the map of successors, and two more.
--
-- Parameters: the crate `regex`, with what its documentation says of a match (`IsLawful`: it lies in
-- the text that is searched; that it is not empty is seen from the expressions). What the attempts of
-- a merge return (`resolve_merge`, `structured_merge`, the revisions read from Git) is an argument of
-- the cascade, and so is whether they end before the timeout. The edit scripts of the crate
-- `tree_edit_distance` are a function of the two trees, with the hypothesis `Fits`: they replace only
-- where there is a node on both sides, of one kind. The floats of the matcher are a type with the
-- comparison that it uses, without laws; `duplicates` of the crate `itertools` is any function. The
-- hash of a mixed tree and the line-based merge of the sources of three nodes are any functions, and
-- so is `build_subtree` for the merge of commutative lists.
--
-- Not modelled: parsing with tree-sitter, the tables of languages, the equality of signatures, the
-- post-processing and printing of merged trees, the recursion of the tree builder, and what reads and
-- writes files, calls Git or logs.
pub mod Base
pub mod Revision
pub mod RevisionSet
pub mod Newline
pub mod ParsedMerge
pub mod Settings
pub mod MergedText
pub mod Ast
pub mod MultiMap
pub mod Pcs
pub mod Matching
pub mod ClassMapping
pub mod TreeMatcher
pub mod MergedTree
pub mod ChangeSet
pub mod TreeBuilder
pub mod Merge3dm
pub mod MergeResult
pub mod Merge
pub mod Signature
pub mod Solve
