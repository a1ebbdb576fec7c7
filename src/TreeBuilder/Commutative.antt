-- ===== src/TreeBuilder/Commutative.antt =====
-- src/tree_builder.rs: merging lists of which the order does not matter.
pub mod Members
pub mod ThreeWay
use mirror_mergiraf.Base.{
  ℕ, zero, suc, Bool, true, false, not, ◌&&◌, ◌||◌, Option, none, some, List, [], ◌∷◌, ◌++◌,
  if◌then◌else◌, map, filter,
}
use mirror_mergiraf.Base.HashMap.{set_contains, set_insert}
use mirror_mergiraf.Base.Run.{Result, ok, err}
use mirror_mergiraf.Base.Text.{Text, text_eq, trim}
use mirror_mergiraf.Ast.{AstNode, info}
use mirror_mergiraf.Revision.{Revision}
use mirror_mergiraf.RevisionSet
use mirror_mergiraf.RevisionSet.{RevisionNeSet}
use mirror_mergiraf.Pcs.{Leader, PcsNode, node, rev_node_eq}
use mirror_mergiraf.Pcs.Equality.{rev_node_Eq}
use mirror_mergiraf.ClassMapping.{ClassMapping, rev_node, map_to_leader, revision_set}
use mirror_mergiraf.MergedTree.{MergedTree, exact_tree}

pub record VisitingState : Type 0 where
  pub deleted_and_modified : List Leader
  pub visited_nodes : List Leader

pub data TreeBuildingError : Type 0 where
  node_encountered_twice : Leader → TreeBuildingError
  uncommutable_children : TreeBuildingError
  more_than_two_conflicting_sides : PcsNode → TreeBuildingError
  no_virtual_root_child_found line_based_fallback_on_virtual_node : TreeBuildingError
  build_subtree_for_virtual_marker : TreeBuildingError

-- The children of a commutative node without separators and delimiters.
unfoldable pub keep_content_only :
    ClassMapping → List AstNode → Revision → Text → Text → Text → List Leader
unfolding map_to_leader trim
keep_content_only cm slice revision trimmed_sep trimmed_left_delim trimmed_right_delim =
    map (λ n. map_to_leader cm (rev_node revision n))
      (filter
        (λ n.
          not (text_eq (trim (info n).source) trimmed_sep)
          && not (text_eq (trim (info n).source) trimmed_left_delim)
          && not (text_eq (trim (info n).source) trimmed_right_delim))
        slice)

-- `collect` into a set.
unfoldable pub collect_onto : List Leader → List Leader → List Leader
unfolding rev_node_Eq
collect_onto set [] = set
collect_onto set (x ∷ xs) = collect_onto (set_insert x set) xs

unfoldable pub collect : List Leader → List Leader
unfolding collect_onto
collect xs = collect_onto [] xs

abbrev pub is_in : List Leader → Leader → Bool
is_in xs x = set_contains xs x

unfoldable pub left_added : List Leader → List Leader → List Leader
left_added base_leaders left_leaders = filter (λ x. not (is_in base_leaders x)) left_leaders

unfoldable pub right_added : List Leader → List Leader → List Leader → List Leader
unfolding left_added
right_added base_leaders left_leaders right_leaders =
    filter (λ x. not (is_in base_leaders x) && not (is_in (left_added base_leaders left_leaders) x))
      right_leaders

unfoldable pub right_removed : List Leader → List Leader → List Leader
unfolding collect
right_removed base_leaders right_leaders =
    filter (λ x. not (is_in right_leaders x)) (collect base_leaders)

-- The left list without what the right side removed, and with what it added.
unfoldable pub apply_difference :
    List Leader → List Leader → List Leader → List Leader → List Leader
unfolding right_added
apply_difference base_leaders left_leaders right_leaders removed_and_not_modified =
    filter (λ x. not (is_in removed_and_not_modified x)) left_leaders
    ++ right_added base_leaders left_leaders right_leaders

-- An exact tree that the base has.
abbrev pub is_unmodified : MergedTree → Bool
is_unmodified (exact_tree _ revisions _) = RevisionSet.contains revisions.revisions Revision.base
is_unmodified _ = false

-- `build_subtree`, with the state that it leaves, also in case of an error.
abbrev pub Builder : Type 0
Builder = PcsNode → VisitingState → Result TreeBuildingError MergedTree × VisitingState

abbrev pub cons_ok :
    MergedTree
    → Result TreeBuildingError (List MergedTree) × VisitingState
    → Result TreeBuildingError (List MergedTree) × VisitingState
cons_ok t (ok ts, state) = (ok (t ∷ ts), state)
cons_ok t (err e, state) = (err e, state)

abbrev pub of_leader : ClassMapping → Leader → PcsNode
of_leader cm leader = node (revision_set cm leader) leader

-- Those of the removed leaders that the other side did not modify, by the tree of each.
abbrev pub unmodified_of : List Leader → List MergedTree → List Leader
unmodified_of [] ts = []
unmodified_of (leader ∷ leaders) [] = []
unmodified_of (leader ∷ leaders) (t ∷ ts) =
    if is_unmodified t then leader ∷ unmodified_of leaders ts else unmodified_of leaders ts

-- The merged list, from the trees that are built for the removed leaders.
abbrev pub leaders_from :
    List Leader
    → List Leader
    → List Leader
    → Result TreeBuildingError (List MergedTree)
    → Result TreeBuildingError (List Leader)
leaders_from base_leaders left_leaders right_leaders (err e) = err e
leaders_from base_leaders left_leaders right_leaders (ok ts) = ok (
    apply_difference base_leaders left_leaders right_leaders
      (unmodified_of (right_removed base_leaders right_leaders) ts))

module _ (cm : ClassMapping) (build_subtree : Builder) where
  -- The trees of some leaders, up to the first error.
  unfoldable pub build_all :
      List Leader → VisitingState → Result TreeBuildingError (List MergedTree) × VisitingState
  build_all [] state = (ok [], state)
  build_all (leader ∷ leaders) state =
      let (built, state') = build_subtree (of_leader cm leader) state in
      elim built [ err e ↦ (err e, state') | ok t ↦ cons_ok t (build_all leaders state') ]

  -- The leaders of the merged list. What is built for the removed ones changes a copy of the state only.
  unfoldable pub merged_leaders :
      List Leader
      → List Leader
      → List Leader
      → VisitingState
      → Result TreeBuildingError (List Leader)
  unfolding build_all
  merged_leaders base_leaders left_leaders right_leaders visiting_state =
      leaders_from base_leaders left_leaders right_leaders
        (build_all (right_removed base_leaders right_leaders) visiting_state).0

  -- The result trees of the merged list: the part of `commutatively_merge_lists` between the search for
  -- the separator and the search for delimiters.
  unfoldable pub merged_content :
      List Leader
      → List Leader
      → List Leader
      → VisitingState
      → Result TreeBuildingError (List MergedTree) × VisitingState
  merged_content base_leaders left_leaders right_leaders visiting_state =
      elim (merged_leaders base_leaders left_leaders right_leaders visiting_state) [
        | err e ↦ (err e, visiting_state)
        | ok leaders ↦ build_all leaders visiting_state
      ]

-- `common_prefix`
unfoldable pub common_prefix : List Leader → List Leader → List Leader → ℕ
unfolding rev_node_eq
common_prefix (x ∷ first) (y ∷ second) (z ∷ third) = elim (rev_node_eq x y && rev_node_eq y z) [
  | true ↦ suc (common_prefix first second third)
  | false ↦ 0
]
common_prefix [] second third = 0
common_prefix (x ∷ first) [] third = 0
common_prefix (x ∷ first) (y ∷ second) [] = 0
