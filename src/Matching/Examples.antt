-- ===== src/Matching/Examples.antt =====
-- Instances of the theorems about src/matching.rs.
use mirror_mergiraf.Base.{ℕ, true, List, ◌∷◌, false, ◌&&◌, ◌||◌, not, none, [], ◌≡◌, refl}
use mirror_mergiraf.Base.HashMap
use mirror_mergiraf.Ast.{AstNode, node, nil, node_eq}
use mirror_mergiraf.Ast.Equality.{node_Eq}
use mirror_mergiraf.Matching.{
  Matching, new, get_from_right, is_node, are_matched, remove_entry, remove, add, extend,
}
use mirror_mergiraf.Matching.Extend.{has_pair, has_left, has_right, one_to_one, are_matched-extend}
use mirror_mergiraf.Matching.OneToOne.{
  IsOneToOne, new-IsOneToOne, add-IsOneToOne, are_matched-add, are_matched-remove,
}

abbrev leaf : ℕ → AstNode
leaf id =
    node
      (record {
        hash = id;
        source = [];
        kind = [];
        field_name = none;
        start = id;
        end = id;
        id = id;
        is_extra = false;
        descendant_count = 1;
        lang_name = [];
      })
      nil

-- The node 1 is matched to the node 4.
abbrev one_pair : Matching
unfolding new add
one_pair = add new (leaf 1) (leaf 4)

one_pair-IsOneToOne : IsOneToOne one_pair
unfolding new add
one_pair-IsOneToOne = add-IsOneToOne new (leaf 1) (leaf 4) new-IsOneToOne

-- The node 1 gets another match, and the node 2 gets one.
abbrev two_pairs : List (AstNode × AstNode)
two_pairs = (leaf 1, leaf 5) ∷ (leaf 2, leaf 6) ∷ []

two_pairs-one_to_one : one_to_one two_pairs ≡ true
unfolding node_eq
two_pairs-one_to_one = refl

are_matched-extend_example :
    (are_matched (extend one_pair two_pairs) (leaf 1) (leaf 4) ≡ (
      has_pair two_pairs (leaf 1) (leaf 4)
      || (are_matched one_pair (leaf 1) (leaf 4)
          && (not (has_left two_pairs (leaf 1)) && not (has_right two_pairs (leaf 4))))))
    × (is_node (get_from_right (extend one_pair two_pairs) (leaf 4)) (leaf 1)
        ≡ are_matched (extend one_pair two_pairs) (leaf 1) (leaf 4))
are_matched-extend_example =
    are_matched-extend one_pair two_pairs one_pair-IsOneToOne two_pairs-one_to_one (leaf 1) (leaf 4)

-- As in the test `remove_previously_matched` of the source.
matched_again : get_from_right (add one_pair (leaf 1) (leaf 5)) (leaf 4) ≡ none
unfolding new add remove remove_entry get_from_right HashMap.get HashMap.insert HashMap.remove
    node_eq node_Eq
matched_again = refl

are_matched-add_example :
    (are_matched (add one_pair (leaf 1) (leaf 5)) (leaf 1) (leaf 5) ≡ (
      (node_eq (leaf 1) (leaf 1) && node_eq (leaf 5) (leaf 5))
      || (are_matched one_pair (leaf 1) (leaf 5)
          && (not (node_eq (leaf 1) (leaf 1)) && not (node_eq (leaf 5) (leaf 5))))))
    × (is_node (get_from_right (add one_pair (leaf 1) (leaf 5)) (leaf 5)) (leaf 1)
        ≡ are_matched (add one_pair (leaf 1) (leaf 5)) (leaf 1) (leaf 5))
are_matched-add_example =
    are_matched-add one_pair (leaf 1) (leaf 5) one_pair-IsOneToOne (leaf 1) (leaf 5)

are_matched-remove_example :
    (are_matched (remove one_pair (leaf 1) (leaf 4)) (leaf 1) (leaf 4) ≡ (
      are_matched one_pair (leaf 1) (leaf 4)
      && (not (node_eq (leaf 1) (leaf 1)) && not (node_eq (leaf 4) (leaf 4)))))
    × (is_node (get_from_right (remove one_pair (leaf 1) (leaf 4)) (leaf 4)) (leaf 1)
        ≡ are_matched (remove one_pair (leaf 1) (leaf 4)) (leaf 1) (leaf 4))
are_matched-remove_example =
    are_matched-remove one_pair (leaf 1) (leaf 4) one_pair-IsOneToOne (leaf 1) (leaf 4)
