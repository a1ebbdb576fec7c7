-- ===== src/MergedTree/Source.antt =====
-- src/merged_tree.rs: the check that a merged tree agrees with the tree of its own rendering.
pub mod Conflicts
use mirror_mergiraf.Base.{
  Bool, true, false, not, ◌&&◌, ◌||◌, Option, none, some, List, [], ◌∷◌, if◌then◌else◌, filter,
}
use mirror_mergiraf.Base.Run.{Run, done, panicked, ◌>>=◌}
use mirror_mergiraf.Base.Text.{Text, text_eq, is_empty, trim}
use mirror_mergiraf.Ast.{AstNode, info, children, isomorphic_to}
use mirror_mergiraf.Revision.{Revision}
use mirror_mergiraf.ClassMapping.{ClassMapping}
use mirror_mergiraf.MergedTree.{
  MergedTree, MergedTrees, nil, cons, exact_tree, mixed_tree, conflict, line_based_merge,
  commutative_child_separator, node_at_any, side,
}

abbrev pub has_source : AstNode → Bool
has_source n = not (is_empty (info n).source)

abbrev pub is_line_based : MergedTree → Bool
is_line_based (line_based_merge _ _) = true
is_line_based _ = false

abbrev pub contains_line_based_merge : MergedTrees → Bool
contains_line_based_merge nil = false
contains_line_based_merge (cons t ts) = is_line_based t || contains_line_based_merge ts

-- `zip_longest` and `all` over the nodes of one side: the nodes of the source that are left, or `none`
-- if one pair differs.
unfoldable pub match_nodes : List AstNode → List AstNode → Option (List AstNode)
match_nodes [] others = some others
match_nodes (n ∷ ns) [] = if has_source n then none else match_nodes ns []
match_nodes (n ∷ ns) (o ∷ os) =
    if has_source n
    then if isomorphic_to n o then match_nodes ns os else none
    else match_nodes ns (o ∷ os)

abbrev pub after_nodes : Option (List AstNode) → (List AstNode → Run Bool) → Run Bool
after_nodes none rest = done false
after_nodes (some others) rest = rest others

abbrev pub with_next : List AstNode → (AstNode → List AstNode → Run Bool) → Run Bool
with_next [] rest = done false
with_next (o ∷ os) rest = rest o os

abbrev pub has_children : MergedTrees → Bool
has_children nil = false
has_children (cons _ _) = true

-- Whether a child is expected in a parsed tree.
unfoldable pub is_present : MergedTree → ClassMapping → Run Bool
is_present (commutative_child_separator separator) cm = done (not (is_empty (trim separator)))
is_present (mixed_tree _ ts _) cm = done (has_children ts)
is_present (exact_tree leader revisions _) cm =
    node_at_any cm leader revisions >>= λ n. done (has_source n)
is_present (conflict _ _ _) cm = done true
is_present (line_based_merge _ _) cm = done true

unfoldable mutual
  pub isomorphic_to_source : MergedTree → AstNode → Revision → ClassMapping → Run Bool
  isomorphic_to_source (exact_tree leader revisions _) other_node revision cm =
      node_at_any cm leader revisions >>= λ n. done (isomorphic_to n other_node)
  isomorphic_to_source (mixed_tree leader ts _) other_node revision cm =
      if not (text_eq (info leader.node).kind (info other_node).kind)
        || not (text_eq (info leader.node).lang_name (info other_node).lang_name)
      then done false
      else if contains_line_based_merge ts
      then done true
      else match_children ts (filter has_source (children other_node)) revision cm
  isomorphic_to_source (line_based_merge _ _) other_node revision cm = done true
  isomorphic_to_source (conflict _ _ _) other_node revision cm = done false
  isomorphic_to_source (commutative_child_separator separator) other_node revision cm =
      done (text_eq (trim separator) (trim (info other_node).source))

  -- The children of the source that have no text are filtered before.
  pub match_children : MergedTrees → List AstNode → Revision → ClassMapping → Run Bool
  match_children nil [] revision cm = done true
  match_children nil (_ ∷ _) revision cm = done false
  match_children (cons (conflict base left right) ts) others revision cm =
      after_nodes (match_nodes (side base left right revision) others)
        (λ os. match_children ts os revision cm)
  match_children (cons (line_based_merge _ _) ts) others revision cm = panicked
  match_children (cons t ts) others revision cm = is_present t cm >>= λ present.
      if present
      then with_next others (λ o os. isomorphic_to_source t o revision cm >>= λ same.
          if same then match_children ts os revision cm else done false)
      else match_children ts others revision cm
