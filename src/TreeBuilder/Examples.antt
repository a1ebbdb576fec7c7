-- ===== src/TreeBuilder/Examples.antt =====
-- A node with children that differ in each revision, and instances of the theorems about its merge.
use mirror_mergiraf.Base.{ℕ, true, false, none, List, [], ◌∷◌, ◌≡◌, refl, leb, map}
use mirror_mergiraf.Base.HashMap
use mirror_mergiraf.Base.Run.{ok, err}
use mirror_mergiraf.Ast.{AstNode, node, nil, info}
use mirror_mergiraf.Revision.{Revision}
use mirror_mergiraf.RevisionSet
use mirror_mergiraf.RevisionSet.{RevisionNeSet}
use mirror_mergiraf.Pcs.{PcsNode, left_marker, right_marker, Leader, rev_node_eq}
use mirror_mergiraf.Pcs.Equality.{pcs_node_Eq, rev_node_Eq}
use mirror_mergiraf.ClassMapping
use mirror_mergiraf.ClassMapping.{ClassMapping, rev_node, node_at_rev}
use mirror_mergiraf.MergedTree.{MergedTree, exact_tree}
use mirror_mergiraf.TreeBuilder.{Successors, successor_Eq}
use mirror_mergiraf.TreeBuilder.Commutative.{
  VisitingState, TreeBuildingError, Builder, right_removed, collect, collect_onto, apply_difference,
  left_added, right_added, build_all, merged_leaders,
}
use mirror_mergiraf.TreeBuilder.Commutative.ThreeWay.{
  Trees, IsThreeWayMerge, merged_leaders-IsThreeWayMerge,
}

abbrev leaf : ℕ → AstNode
leaf id =
    node
      (record {
        hash = id;
        source = [];
        kind = [];
        field_name = none;
        start = id;
        end = id;
        id = id;
        is_extra = false;
        descendant_count = 1;
        lang_name = [];
      })
      nil

abbrev leader : Revision → ℕ → Leader
leader r id = rev_node r (leaf id)

abbrev at : Revision → ℕ → PcsNode
at r id =
    PcsNode.node (record { revisions = record { base = false; left = true; right = true } })
      (leader r id)

-- Left has the child 1 alone, right the child 2, and the base none.
abbrev merged : Successors
merged = record {
  map =
      (
        left_marker,
        (Revision.left, at Revision.left 1) ∷ (Revision.right, at Revision.right 2) ∷ [],
      )
      ∷ (at Revision.left 1, (Revision.left, right_marker) ∷ [])
      ∷ (at Revision.right 2, (Revision.right, right_marker) ∷ [])
      ∷ [];
}

abbrev base : Successors
base = record { map = (left_marker, (Revision.base, right_marker) ∷ []) ∷ [] }

-- The trees of the nodes, of which the base has those with ids up to 2.
abbrev tree_of : Leader → MergedTree
tree_of l =
    exact_tree l
      (record { revisions = record { base = leb (info l.node).id 2; left = true; right = false } })
      0

abbrev builder : Builder
builder (PcsNode.node revisions l) state = (ok (tree_of l), state)
builder other state = (err TreeBuildingError.build_subtree_for_virtual_marker, state)

-- The base has 1 and 2; the left side adds 3, and the right side removes 1 and adds 4.
abbrev base_leaders : List Leader
base_leaders = leader Revision.base 1 ∷ leader Revision.base 2 ∷ []

abbrev left_leaders : List Leader
left_leaders = leader Revision.base 1 ∷ leader Revision.base 2 ∷ leader Revision.left 3 ∷ []

abbrev right_leaders : List Leader
right_leaders = leader Revision.base 2 ∷ leader Revision.right 4 ∷ []

abbrev start : VisitingState
start = record { deleted_and_modified = []; visited_nodes = [] }

merged_leaders_run :
    merged_leaders ClassMapping.new builder base_leaders left_leaders right_leaders start
    ≡ ok (leader Revision.base 2 ∷ leader Revision.left 3 ∷ leader Revision.right 4 ∷ [])
unfolding merged_leaders ClassMapping.new build_all apply_difference right_removed right_added
    left_added collect collect_onto RevisionSet.contains rev_node_eq rev_node_Eq HashMap.set_insert
merged_leaders_run = refl

merged_leaders-IsThreeWayMerge_example :
    (trees : Trees) × ((build_all ClassMapping.new builder (map (λ p. p.0) trees) start).0
      ≡ ok (map (λ p. p.1) trees))
    × IsThreeWayMerge base_leaders left_leaders right_leaders trees
        (leader Revision.base 2 ∷ leader Revision.left 3 ∷ leader Revision.right 4 ∷ [])
merged_leaders-IsThreeWayMerge_example =
    merged_leaders-IsThreeWayMerge ClassMapping.new builder base_leaders left_leaders right_leaders
      start (leader Revision.base 2 ∷ leader Revision.left 3 ∷ leader Revision.right 4 ∷ [])
      merged_leaders_run
