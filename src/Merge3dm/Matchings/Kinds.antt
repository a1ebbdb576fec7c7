-- ===== src/Merge3dm/Matchings/Kinds.antt =====
-- The classes made of the matchings between the three revisions have nodes of one kind.
use mirror_mergiraf.Base.{ℕ, true, false, some, ◌≡◌, all, arith}
use mirror_mergiraf.Base.Text.{Text, text_eq}
use mirror_mergiraf.Ast.{AstNode, info}
use mirror_mergiraf.Ast.Equality.{text_eq_trans, text_eq_sym}
use mirror_mergiraf.Revision.{Revision}
use mirror_mergiraf.Pcs.{Leader}
use mirror_mergiraf.ClassMapping
use mirror_mergiraf.ClassMapping.{ClassMapping, rev_node, map_to_leader, node_at_rev, add_matching}
use mirror_mergiraf.ClassMapping.Kinds.{
  has_its_kind, led_by_its_kind, code, pair_of_kind, KindsAgree, new-KindsAgree,
  add_matching-KindsAgree, map_to_leader-kind, node_at_rev-kind, by_codes,
}
use mirror_mergiraf.TreeMatcher.BottomUp.{DetailedMatching}
use mirror_mergiraf.Merge3dm.Matchings.{create_class_mapping}

-- The pairs that are added to the class mapping, of the full and the exact matching.
pub record MatchesOfKind (kind_at : Revision → ℕ → Text) (from_rev to_rev : Revision)
    (d : DetailedMatching) : Type 0 where
  pub exact : all (pair_of_kind kind_at from_rev to_rev) d.exact.right_to_left ≡ true
  pub full : all (pair_of_kind kind_at from_rev to_rev) d.full.right_to_left ≡ true

module _ (kind_at : Revision → ℕ → Text) (base_left base_right left_right : DetailedMatching) where
  create_class_mapping-KindsAgree :
      MatchesOfKind kind_at Revision.base Revision.left base_left
      → MatchesOfKind kind_at Revision.base Revision.right base_right
      → MatchesOfKind kind_at Revision.left Revision.right left_right
      → KindsAgree kind_at (create_class_mapping base_left base_right left_right)
  unfolding create_class_mapping
  create_class_mapping-KindsAgree bl br lr =
      let cm = ClassMapping.new in
      let k1 =
        add_matching-KindsAgree kind_at cm base_left.exact Revision.base Revision.left true bl.exact
          (new-KindsAgree kind_at) in
      let k2 =
        add_matching-KindsAgree kind_at _ base_right.exact Revision.base Revision.right true
          br.exact k1 in
      let k3 =
        add_matching-KindsAgree kind_at _ base_left.full Revision.base Revision.left false bl.full
          k2 in
      let k4 =
        add_matching-KindsAgree kind_at _ base_right.full Revision.base Revision.right false br.full
          k3 in
      let k5 =
        add_matching-KindsAgree kind_at _ left_right.exact Revision.left Revision.right true
          lr.exact k4 in
      add_matching-KindsAgree kind_at _ left_right.full Revision.left Revision.right false lr.full
        k5

  -- If the three matchings relate nodes of one kind, and in each revision the ids of the nodes determine
  -- their kinds, then in the class mapping that is made of them the node that a class has at any revision
  -- has the kind of every node of the class.
  pub create_class_mapping-node_at_rev :
      MatchesOfKind kind_at Revision.base Revision.left base_left
      → MatchesOfKind kind_at Revision.base Revision.right base_right
      → MatchesOfKind kind_at Revision.left Revision.right left_right
      → (r q : Revision) (n m : AstNode) → has_its_kind kind_at (rev_node r n) ≡ true
      → node_at_rev
          (create_class_mapping base_left base_right left_right)
          (map_to_leader (create_class_mapping base_left base_right left_right) (rev_node r n))
          q
        ≡ some m
      → text_eq (info m).kind (info n).kind ≡ true
  create_class_mapping-node_at_rev bl br lr r q n m h e =
      let cm = create_class_mapping base_left base_right left_right in
      let k = create_class_mapping-KindsAgree bl br lr in
      let leader : Leader = map_to_leader cm (rev_node r n) in
      let led : led_by_its_kind kind_at (rev_node r n, leader) ≡ true =
        map_to_leader-kind kind_at cm (rev_node r n) k h in
      text_eq_trans (info m).kind (info leader.node).kind (info n).kind
        (node_at_rev-kind kind_at cm leader q m k (ground arith) e)
        (by_codes leader.node n (code kind_at leader) (code kind_at (rev_node r n)) (ground arith)
          (text_eq_sym (code kind_at (rev_node r n)) (code kind_at leader) (ground arith)) h)
