-- ===== src/Merge3dm/Examples.antt =====
-- Instances of the theorems about the clean-up and the class mapping of src/merge_3dm.rs.
use mirror_mergiraf.Base.{
  ℕ, true, false, none, some, [], ◌∷◌, ◌&&◌, ◌≡◌, refl, any, if◌then◌else◌, zero, suc, ◌-◌,
}
use mirror_mergiraf.Base.Text.{Text, text_eq}
use mirror_mergiraf.Ast.{AstNode, node, nil, info, node_eq}
use mirror_mergiraf.Ast.Equality.{node_Eq}
use mirror_mergiraf.Revision.{Revision, rev_eq}
use mirror_mergiraf.Matching.{Matching}
use mirror_mergiraf.TreeMatcher.BottomUp.{DetailedMatching}
use mirror_mergiraf.Merge3dm.Matchings.{create_class_mapping}
use mirror_mergiraf.Merge3dm.Matchings.Kinds.{MatchesOfKind, create_class_mapping-node_at_rev}
use mirror_mergiraf.Base.HashMap
use mirror_mergiraf.Base.HashMap.{set_contains, set_insert}
use mirror_mergiraf.MultiMap
use mirror_mergiraf.Pcs.{rev_node_eq, pcs_eq, pcs_node_eq}
use mirror_mergiraf.Pcs.Equality.{rev_node_Eq, pcs_Eq, pcs_node_Eq}
use mirror_mergiraf.ChangeSet
use mirror_mergiraf.ChangeSet.{ChangeSet, iter}
use mirror_mergiraf.ChangeSet.Examples.{
  of_left, both, both_triples, both-Refines, base_tree, left_tree, right_tree,
}
use mirror_mergiraf.Merge3dm.{is_changed, fix_pcs_inconsistencies}
use mirror_mergiraf.ClassMapping
use mirror_mergiraf.ClassMapping.{
  rev_node, map_to_leader, node_at_rev, is_inconsistent, join, add_pair, add_matching, revision_Eq,
}
use mirror_mergiraf.ChangeSet.Tree.{generate_pcs_triples}
use mirror_mergiraf.Merge3dm.Generated.{fix_pcs_inconsistencies-generate_pcs_triples}
use mirror_mergiraf.Merge3dm.CleanUp.{
  is_contradicted, fix_pcs_inconsistencies-IsConsistent, keeps_changes,
}

fix_pcs_inconsistencies-IsConsistent_example :
    any
      (is_contradicted (iter (fix_pcs_inconsistencies both)))
      (iter (fix_pcs_inconsistencies both))
    ≡ false
fix_pcs_inconsistencies-IsConsistent_example =
    fix_pcs_inconsistencies-IsConsistent both both_triples both-Refines

changed_in_both : any (λ p. is_changed p && pcs_eq p of_left) (iter both) ≡ true
unfolding ChangeSet.iter ChangeSet.new ChangeSet.add MultiMap.new MultiMap.values MultiMap.insert
    HashMap.get HashMap.insert set_insert pcs_eq pcs_node_eq pcs_Eq pcs_node_Eq
changed_in_both = refl

keeps_changes_example : set_contains (iter (fix_pcs_inconsistencies both)) of_left ≡ true
keeps_changes_example = keeps_changes both of_left changed_in_both

fix_pcs_inconsistencies-generate_pcs_triples_example :
    any
      (is_contradicted (
        iter (
          fix_pcs_inconsistencies
            (generate_pcs_triples base_tree left_tree right_tree ClassMapping.new).0)))
      (iter (
        fix_pcs_inconsistencies
          (generate_pcs_triples base_tree left_tree right_tree ClassMapping.new).0))
    ≡ false
fix_pcs_inconsistencies-generate_pcs_triples_example =
    fix_pcs_inconsistencies-generate_pcs_triples base_tree left_tree right_tree ClassMapping.new

-- A node with one letter for its kind.
abbrev of_kind : ℕ → ℕ → AstNode
of_kind id letter =
    node
      (record {
        hash = id;
        source = [];
        kind = letter ∷ [];
        field_name = none;
        start = id;
        end = id;
        id = id;
        is_extra = false;
        descendant_count = 1;
        lang_name = [];
      })
      nil

abbrev letter_of : ℕ → Text
letter_of zero = 97 ∷ []
letter_of (suc _) = 98 ∷ []

-- The left revision has the two nodes of the other revisions in the other order.
abbrev kind_at : Revision → ℕ → Text
kind_at r i = if rev_eq r Revision.left then letter_of (1 - i) else letter_of i

abbrev exactly : Matching → DetailedMatching
exactly m = record { full = m; exact = m; container = m; recovery = m }

abbrev swapped : DetailedMatching
swapped = exactly (record {
  left_to_right = (of_kind 0 97, of_kind 1 97) ∷ (of_kind 1 98, of_kind 0 98) ∷ [];
  right_to_left = (of_kind 1 97, of_kind 0 97) ∷ (of_kind 0 98, of_kind 1 98) ∷ [];
})

abbrev kept : DetailedMatching
kept = exactly (record {
  left_to_right = (of_kind 0 97, of_kind 0 97) ∷ (of_kind 1 98, of_kind 1 98) ∷ [];
  right_to_left = (of_kind 0 97, of_kind 0 97) ∷ (of_kind 1 98, of_kind 1 98) ∷ [];
})

abbrev back : DetailedMatching
back = exactly (record {
  left_to_right = swapped.exact.right_to_left;
  right_to_left = swapped.exact.left_to_right;
})

swapped-MatchesOfKind : MatchesOfKind kind_at Revision.base Revision.left swapped
swapped-MatchesOfKind = record { exact = refl; full = refl }

kept-MatchesOfKind : MatchesOfKind kind_at Revision.base Revision.right kept
kept-MatchesOfKind = record { exact = refl; full = refl }

back-MatchesOfKind : MatchesOfKind kind_at Revision.left Revision.right back
back-MatchesOfKind = record { exact = refl; full = refl }

at_left :
    node_at_rev
      (create_class_mapping swapped kept back)
      (map_to_leader
        (create_class_mapping swapped kept back)
        (rev_node Revision.right (of_kind 1 98)))
      Revision.left
    ≡ some (of_kind 0 98)
unfolding create_class_mapping ClassMapping.new add_matching add_pair join is_inconsistent
    map_to_leader node_at_rev rev_node_eq rev_node_Eq revision_Eq HashMap.get HashMap.insert node_eq
at_left = refl

create_class_mapping-node_at_rev_example :
    text_eq (info (of_kind 0 98)).kind (info (of_kind 1 98)).kind ≡ true
create_class_mapping-node_at_rev_example =
    create_class_mapping-node_at_rev kind_at swapped kept back swapped-MatchesOfKind
      kept-MatchesOfKind back-MatchesOfKind Revision.right Revision.left (of_kind 1 98)
      (of_kind 0 98) refl at_left
