-- ===== src/TreeMatcher/Recovery.antt =====
-- src/tree_matcher.rs: matches from an edit script between two trees.
pub mod Strip
pub mod Converts
use mirror_mergiraf.Base.{
  ℕ, ◌+◌, Bool, true, false, Option, none, some, List, [], ◌∷◌, if◌then◌else◌, is_some,
}
use mirror_mergiraf.Base.Run.{Run, done, panicked, ◌>>=◌}
use mirror_mergiraf.Base.Text.{Text, text_eq}
use mirror_mergiraf.Ast.{AstNode, Children, node, nil, cons, info}
use mirror_mergiraf.Ast.Ancestors.{is_root}
use mirror_mergiraf.Matching.{Matching, get_from_left, get_from_right, can_be_matched}
use mirror_mergiraf.TreeMatcher.Linear.{Recovered, add_recovered}

-- `TEDTree`: the node, `matched_to_id`, the children, the weight and the size.
mutual
  pub data TedTree : Type 0 where
    ted : AstNode → Option ℕ → TedTrees → ℕ → ℕ → TedTree

  pub data TedTrees : Type 0 where
    none_left : TedTrees
    and_then : TedTree → TedTrees → TedTrees

abbrev pub ted_node : TedTree → AstNode
ted_node (ted n _ _ _ _) = n

abbrev pub ted_children : TedTree → TedTrees
ted_children (ted _ _ ts _ _) = ts

abbrev pub ted_size : TedTree → ℕ
ted_size (ted _ _ _ _ size) = size

abbrev pub ted_weight : TedTree → ℕ
ted_weight (ted _ _ _ weight _) = weight

abbrev pub sum_of_sizes : TedTrees → ℕ
sum_of_sizes none_left = 0
sum_of_sizes (and_then t ts) = ted_size t + sum_of_sizes ts

-- `kind` of the trait `Node`, of which the edit distance takes equal ones to be replaceable.
abbrev pub source_of_leaf : AstNode → TedTrees → Option Text
source_of_leaf n none_left = some (info n).source
source_of_leaf n (and_then _ _) = none

unfoldable pub ted_kind : TedTree → Text × Option Text × Option ℕ
ted_kind (ted n matched_to_id ts _ _) = ((info n).kind, source_of_leaf n ts, matched_to_id)

-- The match of a node, which is not looked for at the root.
unfoldable pub matched_node : AstNode → Matching → Bool → AstNode → Option AstNode
unfolding is_root get_from_left get_from_right
matched_node root m left_side n =
    if is_root root n then none else if left_side then get_from_left m n else get_from_right m n

-- Children are kept under a node without a match.
abbrev pub unless_matched : Option AstNode → TedTrees → TedTrees
unless_matched none ts = ts
unless_matched (some _) ts = none_left

abbrev pub id_of_match : Bool → AstNode → Option AstNode → Option ℕ
id_of_match left_side n none = none
id_of_match left_side n (some other) = some (if left_side then (info n).id else (info other).id)

abbrev pub weight_of_match : Bool → AstNode → Option AstNode → ℕ
weight_of_match left_side n none = 1
weight_of_match left_side n (some other) =
    if left_side then (info n).descendant_count else (info other).descendant_count

abbrev pub stripped : Bool → AstNode → Option AstNode → TedTrees → TedTree
stripped left_side n matched ts =
    ted n (id_of_match left_side n matched) ts (weight_of_match left_side n matched)
      (sum_of_sizes ts + 1)

unfoldable mutual
  unfolding matched_node

  pub strip_matched_subtrees : AstNode → Matching → Bool → AstNode → TedTree
  strip_matched_subtrees root m left_side (node i ns) =
      let matched = matched_node root m left_side (node i ns) in
      stripped left_side (node i ns) matched
        (unless_matched matched (strip_children root m left_side ns))

  pub strip_children : AstNode → Matching → Bool → Children → TedTrees
  strip_children root m left_side nil = none_left
  strip_children root m left_side (cons n ns) =
      and_then (strip_matched_subtrees root m left_side n) (strip_children root m left_side ns)

-- `Edit` of the crate `tree_edit_distance`, and edit scripts.
mutual
  pub data Edit : Type 0 where
    replace : Edits → Edit
    insert remove : Edit

  pub data Edits : Type 0 where
    finished : Edits
    next : Edit → Edits → Edits

-- `iterator.next()`
abbrev pub advance : TedTrees → TedTrees
advance none_left = none_left
advance (and_then _ ts) = ts

unfoldable pub convert_tree_edits_to_matches :
    Edits → TedTrees → TedTrees → Recovered → Run Recovered
convert_tree_edits_to_matches finished lefts rights s = done s
convert_tree_edits_to_matches (next (Edit.replace child_edits) edits) none_left rights s = panicked
convert_tree_edits_to_matches (next (Edit.replace child_edits) edits) (and_then l ls) none_left s =
    panicked
convert_tree_edits_to_matches (next (Edit.replace child_edits) edits) (and_then l ls)
      (and_then r rs) s =
    elim (text_eq (info (ted_node l)).kind (info (ted_node r)).kind) [
      | false ↦ panicked
      | true ↦ elim (can_be_matched s.matching (ted_node l) (ted_node r)) [
        | false ↦ convert_tree_edits_to_matches edits ls rs s
        | true ↦
            convert_tree_edits_to_matches child_edits (ted_children l) (ted_children r)
              (add_recovered s (ted_node l) (ted_node r))
            >>= λ s'. convert_tree_edits_to_matches edits ls rs s'
      ]
    ]
convert_tree_edits_to_matches (next Edit.insert edits) lefts rights s =
    convert_tree_edits_to_matches edits lefts (advance rights) s
convert_tree_edits_to_matches (next Edit.remove edits) lefts rights s =
    convert_tree_edits_to_matches edits (advance lefts) rights s
