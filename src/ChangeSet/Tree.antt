-- ===== src/ChangeSet/Tree.antt =====
-- `add_tree` of src/changeset.rs, and `generate_pcs_triples` of src/merge_3dm.rs, which adds the trees of
-- the three revisions.
pub mod Listing
use mirror_mergiraf.Base.{Bool, true, false, if◌then◌else◌}
use mirror_mergiraf.Ast.{AstNode, Children, node, nil, cons}
use mirror_mergiraf.Revision.{Revision}
use mirror_mergiraf.RevisionSet
use mirror_mergiraf.Pcs
use mirror_mergiraf.Pcs.{PcsNode, virtual_root, left_marker, right_marker, Pcs}
use mirror_mergiraf.ClassMapping.{
  ClassMapping, rev_node, map_to_leader, revision_set, is_isomorphic_in_all_revisions,
}
use mirror_mergiraf.ChangeSet
use mirror_mergiraf.ChangeSet.{ChangeSet}

abbrev pub triple : Revision → PcsNode → PcsNode → PcsNode → Pcs
triple revision parent predecessor successor = record {
  parent = parent;
  predecessor = predecessor;
  successor = successor;
  revision = revision;
}

module _ (classmapping : ClassMapping) (revision : Revision) where
  unfoldable pub wrapped : AstNode → PcsNode
  unfolding map_to_leader revision_set
  wrapped n =
      let leader = map_to_leader classmapping (rev_node revision n) in
      Pcs.node (RevisionSet.add_ne (revision_set classmapping leader) revision) leader

  unfoldable pub is_leaf_class : AstNode → Bool
  unfolding is_isomorphic_in_all_revisions map_to_leader
  is_leaf_class n =
      is_isomorphic_in_all_revisions classmapping (map_to_leader classmapping (rev_node revision n))

  unfoldable mutual
    unfolding ChangeSet.add wrapped is_leaf_class

    pub add_node_recursively : AstNode → PcsNode → PcsNode → ChangeSet → ChangeSet × PcsNode
    add_node_recursively (node i ns) parent predecessor cs =
        let here = wrapped (node i ns) in
        let added = ChangeSet.add cs (triple revision parent predecessor here) in
        let below = add_children ns here left_marker added in
        if is_leaf_class (node i ns)
        then (added, here)
        else (ChangeSet.add below.0 (triple revision here below.1 right_marker), here)

    -- The loop over the children, with `current_predecessor`.
    pub add_children : Children → PcsNode → PcsNode → ChangeSet → ChangeSet × PcsNode
    add_children nil parent current_predecessor cs = (cs, current_predecessor)
    add_children (cons child ns) parent current_predecessor cs =
        let added = add_node_recursively child parent current_predecessor cs in
        add_children ns parent added.1 added.0

  unfoldable pub add_tree : ChangeSet → AstNode → ChangeSet
  unfolding add_node_recursively ChangeSet.add
  add_tree cs tree =
      let root = add_node_recursively tree virtual_root left_marker cs in
      ChangeSet.add root.0 (triple revision virtual_root root.1 right_marker)

-- The change set of all three trees, and that of the base.
unfoldable pub generate_pcs_triples :
    AstNode → AstNode → AstNode → ClassMapping → ChangeSet × ChangeSet
unfolding add_tree ChangeSet.new
generate_pcs_triples base left right class_mapping =
    let base_changeset = add_tree class_mapping Revision.base ChangeSet.new base in
    (
      add_tree class_mapping Revision.right
          (add_tree class_mapping Revision.left base_changeset left) right,
      base_changeset,
    )
