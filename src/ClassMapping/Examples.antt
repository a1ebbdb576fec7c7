-- ===== src/ClassMapping/Examples.antt =====
-- A class mapping with one matching to the base, and instances of the theorems about it.
use mirror_mergiraf.Base.{ℕ, ◌⊎◌, true, false, none, [], ◌∷◌, ◌≡◌, refl}
use mirror_mergiraf.Base.HashMap
use mirror_mergiraf.Ast.{AstNode, node, nil}
use mirror_mergiraf.Revision.{Revision}
use mirror_mergiraf.Pcs.{rev_node_eq}
use mirror_mergiraf.Pcs.Equality.{rev_node_Eq}
use mirror_mergiraf.Matching.{Matching}
use mirror_mergiraf.ClassMapping.{
  ClassMapping, new, rev_node, map_to_leader, is_inconsistent, join, add_pair, add_matching, rev_lt,
  revision_Eq,
}
use mirror_mergiraf.ClassMapping.Bases.{led_by_base, add_matching-led_by_base, join-one_leader}

abbrev leaf : ℕ → AstNode
leaf id =
    node
      (record {
        hash = id;
        source = [];
        kind = [];
        field_name = none;
        start = id;
        end = id;
        id = id;
        is_extra = false;
        descendant_count = 1;
        lang_name = [];
      })
      nil

-- The base nodes 1 and 2 are matched to the left nodes 3 and 4, and 1 to the right node 5.
abbrev base_left : Matching
base_left = record {
  left_to_right = (leaf 1, leaf 3) ∷ (leaf 2, leaf 4) ∷ [];
  right_to_left = (leaf 3, leaf 1) ∷ (leaf 4, leaf 2) ∷ [];
}

abbrev base_right : Matching
base_right = record { left_to_right = (leaf 1, leaf 5) ∷ []; right_to_left = (leaf 5, leaf 1) ∷ [] }

-- A wrong match of the left node 4 with the right node 5.
abbrev left_right : Matching
left_right = record { left_to_right = (leaf 4, leaf 5) ∷ []; right_to_left = (leaf 5, leaf 4) ∷ [] }

abbrev mapping : ClassMapping
mapping =
    add_matching (add_matching new base_left Revision.base Revision.left true) base_right
      Revision.base Revision.right true

led_before :
    led_by_base mapping (rev_node Revision.left (leaf 4)) (rev_node Revision.base (leaf 2)) ≡ true
unfolding new add_matching add_pair join is_inconsistent map_to_leader rev_node_eq rev_node_Eq
    revision_Eq HashMap.get HashMap.insert
led_before = refl

add_matching-led_by_base_example :
    led_by_base
      (add_matching mapping left_right Revision.left Revision.right true)
      (rev_node Revision.left (leaf 4))
      (rev_node Revision.base (leaf 2))
    ≡ true
add_matching-led_by_base_example =
    add_matching-led_by_base mapping left_right true (rev_node Revision.left (leaf 4))
      (rev_node Revision.base (leaf 2)) led_before

join-one_leader_example :
    (map_to_leader
        (join mapping (rev_node Revision.left (leaf 3)) (rev_node Revision.right (leaf 5)) true)
        (rev_node Revision.left (leaf 3))
      ≡ map_to_leader
          (join mapping (rev_node Revision.left (leaf 3)) (rev_node Revision.right (leaf 5)) true)
          (rev_node Revision.right (leaf 5)))
    × ((map_to_leader
            (join mapping (rev_node Revision.left (leaf 3)) (rev_node Revision.right (leaf 5)) true)
            (rev_node Revision.left (leaf 3))
          ≡ map_to_leader mapping (rev_node Revision.left (leaf 3)))
        ⊎ (map_to_leader
              (join mapping
                (rev_node Revision.left (leaf 3))
                (rev_node Revision.right (leaf 5))
                true)
              (rev_node Revision.left (leaf 3))
            ≡ map_to_leader mapping (rev_node Revision.right (leaf 5))))
    × (rev_lt
          (map_to_leader mapping (rev_node Revision.left (leaf 3))).rev
          (map_to_leader
            (join mapping (rev_node Revision.left (leaf 3)) (rev_node Revision.right (leaf 5)) true)
            (rev_node Revision.left (leaf 3))).rev
        ≡ false)
    × (rev_lt
          (map_to_leader mapping (rev_node Revision.right (leaf 5))).rev
          (map_to_leader
            (join mapping (rev_node Revision.left (leaf 3)) (rev_node Revision.right (leaf 5)) true)
            (rev_node Revision.left (leaf 3))).rev
        ≡ false)
join-one_leader_example =
    join-one_leader mapping (rev_node Revision.left (leaf 3)) (rev_node Revision.right (leaf 5))
      true
