-- ===== src/ChangeSet/Examples.antt =====
-- Instances of the theorems about src/changeset.rs.
use mirror_mergiraf.Base.{◌&&◌, List, [], ◌≡◌, any, ℕ, ◌++◌, none, false}
use mirror_mergiraf.Base.HashMap.{set_insert}
use mirror_mergiraf.Revision.{Revision, rev_eq}
use mirror_mergiraf.Pcs.{Pcs, virtual_root, left_marker, right_marker}
use mirror_mergiraf.Pcs.Equality.{pcs_Eq}
use mirror_mergiraf.ChangeSet.{ChangeSet, new, add, inconsistent_triples}
use mirror_mergiraf.Ast.{AstNode, node, Children, nil, cons}
use mirror_mergiraf.ClassMapping
use mirror_mergiraf.ClassMapping.{ClassMapping}
use mirror_mergiraf.ChangeSet.Tree.{generate_pcs_triples}
use mirror_mergiraf.ChangeSet.Tree.Listing.{tree_triples, insert_all, generate_pcs_triples-Refines}
use mirror_mergiraf.ChangeSet.Refines.{Refines, new-Refines, add-Refines}
use mirror_mergiraf.ChangeSet.Inconsistent.{inconsistent, inconsistent_triples_lem}

-- The empty root of the base, and a triple of the left revision that disagrees with it.
abbrev pub of_base : Pcs
of_base = record {
  parent = virtual_root;
  predecessor = left_marker;
  successor = right_marker;
  revision = Revision.base;
}

abbrev pub of_left : Pcs
of_left = record {
  parent = virtual_root;
  predecessor = left_marker;
  successor = virtual_root;
  revision = Revision.left;
}

abbrev pub both : ChangeSet
unfolding new add
both = add (add new of_base) of_left

abbrev pub both_triples : List Pcs
unfolding set_insert
both_triples = set_insert of_left (set_insert of_base [])

pub both-Refines : Refines both both_triples
unfolding new add set_insert
both-Refines =
    add-Refines (add new of_base) (set_insert of_base []) of_left
      (add-Refines new [] of_base new-Refines)

add-Refines_example : Refines (add new of_base) (set_insert of_base [])
add-Refines_example = add-Refines new [] of_base new-Refines

inconsistent_triples_lem_example :
    any (λ x. rev_eq x.revision Revision.left) (inconsistent_triples both of_base)
    ≡ any (λ x. inconsistent of_base x && rev_eq x.revision Revision.left) both_triples
inconsistent_triples_lem_example =
    inconsistent_triples_lem both both_triples both-Refines (λ x. rev_eq x.revision Revision.left)
      of_base

abbrev pub named : ℕ → Children → AstNode
named id ns =
    node
      (record {
        hash = id;
        source = [];
        kind = [];
        field_name = none;
        start = id;
        end = id;
        id = id;
        is_extra = false;
        descendant_count = 1;
        lang_name = [];
      })
      ns

-- A tree for each revision, of one, two and three nodes.
abbrev pub base_tree : AstNode
base_tree = named 1 nil

abbrev pub left_tree : AstNode
left_tree = named 2 (cons (named 3 nil) nil)

abbrev pub right_tree : AstNode
right_tree = named 4 (cons (named 5 nil) (cons (named 6 nil) nil))

generate_pcs_triples-Refines_example :
    Refines (generate_pcs_triples base_tree left_tree right_tree ClassMapping.new).0 (
      insert_all [] (
        tree_triples ClassMapping.new Revision.base base_tree
        ++ (tree_triples ClassMapping.new Revision.left left_tree
            ++ tree_triples ClassMapping.new Revision.right right_tree)))
    × Refines
        (generate_pcs_triples base_tree left_tree right_tree ClassMapping.new).1
        (insert_all [] (tree_triples ClassMapping.new Revision.base base_tree))
generate_pcs_triples-Refines_example =
    generate_pcs_triples-Refines base_tree left_tree right_tree ClassMapping.new
