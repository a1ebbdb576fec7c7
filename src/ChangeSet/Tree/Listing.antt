-- ===== src/ChangeSet/Tree/Listing.antt =====
-- The triples that encode a tree, listed: `add_tree` adds these.
use mirror_mergiraf.Base.{
  Bool, true, false, List, [], ◌∷◌, ◌++◌, ◌≡◌, refl, sym, subst, ◌∙◌, if◌then◌else◌, Bool-cases,
  inl, inr,
}
use mirror_mergiraf.Base.HashMap.{set_insert}
use mirror_mergiraf.Ast.{AstNode, Children, node, nil, cons}
use mirror_mergiraf.Revision.{Revision}
use mirror_mergiraf.Pcs.{PcsNode, virtual_root, left_marker, right_marker, Pcs}
use mirror_mergiraf.Pcs.Equality.{pcs_Eq}
use mirror_mergiraf.ClassMapping.{ClassMapping}
use mirror_mergiraf.ChangeSet
use mirror_mergiraf.ChangeSet.{ChangeSet}
use mirror_mergiraf.ChangeSet.Refines.{Refines, new-Refines, add-Refines}
use mirror_mergiraf.ChangeSet.Tree.{
  triple, wrapped, is_leaf_class, add_node_recursively, add_children, add_tree,
  generate_pcs_triples,
}

abbrev pub insert_all : List Pcs → List Pcs → List Pcs
insert_all ts [] = ts
insert_all ts (p ∷ ps) = insert_all (set_insert p ts) ps

insert_all-append :
    (ts ps qs : List Pcs) → insert_all ts (ps ++ qs) ≡ insert_all (insert_all ts ps) qs
insert_all-append ts [] qs = refl
insert_all-append ts (p ∷ ps) qs = insert_all-append (set_insert p ts) ps qs

module _ (cm : ClassMapping) (revision : Revision) where
  -- The children of a node are listed between its markers: each adjacent pair is a triple, and below
  -- each child stand its own children, unless its class is known to be the same in all revisions.
  unfoldable mutual
    pub node_triples : AstNode → PcsNode → PcsNode → List Pcs
    node_triples (node i ns) parent predecessor =
        triple revision parent predecessor (wrapped cm revision (node i ns))
        ∷ (if is_leaf_class cm revision (node i ns)
            then []
            else child_triples ns (wrapped cm revision (node i ns)) left_marker)

    pub child_triples : Children → PcsNode → PcsNode → List Pcs
    child_triples nil parent predecessor = triple revision parent predecessor right_marker ∷ []
    child_triples (cons child ns) parent predecessor =
        node_triples child parent predecessor ++ child_triples ns parent (wrapped cm revision child)

  added_node :
      (n : AstNode) (parent predecessor : PcsNode) (cs : ChangeSet)
      → (add_node_recursively cm revision n parent predecessor cs).1 ≡ wrapped cm revision n
  unfolding add_node_recursively
  added_node (node i ns) parent predecessor cs =
      elim (Bool-cases (is_leaf_class cm revision (node i ns))) [
        | inl leaf ↦ rw leaf
        | inr inner ↦ rw inner
      ]

  -- The children with the triple that ends them.
  abbrev closed : ChangeSet × PcsNode → PcsNode → ChangeSet
  closed below parent = ChangeSet.add below.0 (triple revision parent below.1 right_marker)

  mutual
    unfolding add_node_recursively add_children node_triples child_triples

    add_node-Refines :
        (n : AstNode) (parent predecessor : PcsNode) (cs : ChangeSet) (ts : List Pcs)
        → Refines cs ts
        → Refines
            (add_node_recursively cm revision n parent predecessor cs).0
            (insert_all ts (node_triples n parent predecessor))
    add_node-Refines (node i ns) parent predecessor cs ts r =
        by_class (is_leaf_class cm revision (node i ns)) added (
          add_children-Refines ns here left_marker (ChangeSet.add cs first) (set_insert first ts)
            added)
      where
        here : PcsNode
        here = wrapped cm revision (node i ns)

        first : Pcs
        first = triple revision parent predecessor here

        added : Refines (ChangeSet.add cs first) (set_insert first ts)
        added = add-Refines cs ts first r

        result : Bool → ChangeSet × PcsNode
        result b = if b then (ChangeSet.add cs first, here) else (
          closed (add_children cm revision ns here left_marker (ChangeSet.add cs first)) here,
          here,
        )

        by_class :
            (b : Bool)
            → Refines (ChangeSet.add cs first) (set_insert first ts)
            → Refines
                (closed
                  (add_children cm revision ns here left_marker (ChangeSet.add cs first))
                  here)
                (insert_all (set_insert first ts) (child_triples ns here left_marker))
            → Refines (result b).0 (
                insert_all
                  (set_insert first ts)
                  (if b then [] else child_triples ns here left_marker))
        by_class true a c = a
        by_class false a c = c

    add_children-Refines :
        (ns : Children) (parent predecessor : PcsNode) (cs : ChangeSet) (ts : List Pcs)
        → Refines cs ts
        → Refines
            (closed (add_children cm revision ns parent predecessor cs) parent)
            (insert_all ts (child_triples ns parent predecessor))
    add_children-Refines nil parent predecessor cs ts r =
        add-Refines cs ts (triple revision parent predecessor right_marker) r
    add_children-Refines (cons child ns) parent predecessor cs ts r =
        subst
          (λ (p : PcsNode × List Pcs).
            Refines
              (closed
                (add_children cm revision ns parent p.0
                  (add_node_recursively cm revision child parent predecessor cs).0)
                parent)
              p.1)
          (λ i. (
            sym (added_node child parent predecessor cs) i,
            sym
                (insert_all-append ts (node_triples child parent predecessor)
                  (child_triples ns parent (wrapped cm revision child)))
                i,
          ))
          (add_children-Refines ns parent (wrapped cm revision child)
            (add_node_recursively cm revision child parent predecessor cs).0
            (insert_all ts (node_triples child parent predecessor))
            (add_node-Refines child parent predecessor cs ts r))

  -- All triples of a tree.
  abbrev pub tree_triples : AstNode → List Pcs
  tree_triples tree = child_triples (cons tree nil) virtual_root left_marker

  -- Adding a tree to a change set that represents a set of triples adds the listed triples of the tree.
  pub add_tree-Refines :
      (cs : ChangeSet) (ts : List Pcs) (tree : AstNode)
      → Refines cs ts
      → Refines (add_tree cm revision cs tree) (insert_all ts (tree_triples tree))
  unfolding add_tree add_children
  add_tree-Refines cs ts tree r =
      add_children-Refines (cons tree nil) virtual_root left_marker cs ts r

-- The change sets that are generated represent the triples of the base, and those of the base, the left
-- and the right tree, in this order: of equal triples the first is kept, with its revision.
pub generate_pcs_triples-Refines :
    (base left right : AstNode) (cm : ClassMapping)
    → Refines (generate_pcs_triples base left right cm).0 (
        insert_all [] (
          tree_triples cm Revision.base base
          ++ (tree_triples cm Revision.left left ++ tree_triples cm Revision.right right)))
      × Refines
          (generate_pcs_triples base left right cm).1
          (insert_all [] (tree_triples cm Revision.base base))
unfolding generate_pcs_triples
generate_pcs_triples-Refines base left right cm = (
  subst (Refines _)
      (sym (insert_all-append [] bs (ls ++ rs) ∙ insert_all-append (insert_all [] bs) ls rs)) all,
  of_base,
)
  where
    bs : List Pcs
    bs = tree_triples cm Revision.base base

    ls : List Pcs
    ls = tree_triples cm Revision.left left

    rs : List Pcs
    rs = tree_triples cm Revision.right right

    of_base : Refines (add_tree cm Revision.base ChangeSet.new base) (insert_all [] bs)
    of_base = add_tree-Refines cm Revision.base ChangeSet.new [] base new-Refines

    all :
        Refines
          (add_tree cm Revision.right
            (add_tree cm Revision.left (add_tree cm Revision.base ChangeSet.new base) left)
            right)
          (insert_all (insert_all (insert_all [] bs) ls) rs)
    all =
        add_tree-Refines cm Revision.right _ _ right
          (add_tree-Refines cm Revision.left _ _ left of_base)
