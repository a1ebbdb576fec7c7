-- ===== src/MergedTree/Source/Conflicts.antt =====
-- A conflict among the children of a merged tree is compared by its side at the revision.
use mirror_mergiraf.Base.{
  ℕ, Bool, true, false, not, ◌||◌, List, [], ◌∷◌, ◌≡◌, refl, sym, ap, ap₂, Bool-cases, inl, inr,
  if◌then◌else◌, filter,
}
use mathlib.Core.Path.{fun_ext}
use mirror_mergiraf.Base.Run.{Run, done, ◌>>=◌}
use mirror_mergiraf.Base.Text.{text_eq}
use mirror_mergiraf.Ast.{AstNode, info, children, isomorphic_to}
use mirror_mergiraf.Revision.{Revision}
use mirror_mergiraf.RevisionSet.{RevisionNeSet}
use mirror_mergiraf.Pcs.{Leader}
use mirror_mergiraf.ClassMapping.{ClassMapping}
use mirror_mergiraf.MergedTree.{
  MergedTree, MergedTrees, nil, cons, exact_tree, mixed_tree, conflict, line_based_merge,
  commutative_child_separator, node_at_any, side,
}
use mirror_mergiraf.MergedTree.Source.{
  has_source, contains_line_based_merge, match_nodes, after_nodes, with_next, is_present,
  isomorphic_to_source, match_children,
}

-- The class, the revisions and the hash of an exact tree.
abbrev pub Parts : Type 0
Parts = Leader × RevisionNeSet × ℕ

-- Exact trees in front of other trees.
abbrev pub exact_trees : List Parts → MergedTrees → MergedTrees
exact_trees [] ts = ts
exact_trees (e ∷ es) ts = cons (exact_tree e.0 e.1 e.2) (exact_trees es ts)

abbrev pub append : MergedTrees → MergedTrees → MergedTrees
append nil ts = ts
append (cons t pre) ts = cons t (append pre ts)

-- The exact trees stand for these nodes.
abbrev pub StandFor : ClassMapping → List Parts → List AstNode → Type 0
StandFor cm [] [] = Unit
StandFor cm (e ∷ es) (n ∷ ns) = (node_at_any cm e.0 e.1 ≡ done n) × StandFor cm es ns
StandFor cm [] (_ ∷ _) = ⊥
StandFor cm (_ ∷ _) [] = ⊥

-- What the other children are compared with, after one that is no conflict.
abbrev after_child :
    MergedTree → List AstNode → Revision → ClassMapping → (List AstNode → Run Bool) → Run Bool
after_child t others r cm rest = is_present t cm >>= λ present.
    if present
    then with_next others
        (λ o os. isomorphic_to_source t o r cm >>= λ same. if same then rest os else done false)
    else rest others

module _ (r : Revision) (cm : ClassMapping) where
  match_children-exact_trees :
      (es : List Parts) (ns : List AstNode) (ts : MergedTrees) (others : List AstNode)
      → StandFor cm es ns
      → match_children (exact_trees es ts) others r cm
        ≡ after_nodes (match_nodes ns others) (λ os. match_children ts os r cm)
  unfolding match_children match_nodes is_present
  match_children-exact_trees [] [] ts others h = refl
  match_children-exact_trees [] (_ ∷ _) ts others h = absurd h
  match_children-exact_trees (_ ∷ _) [] ts others h = absurd h
  match_children-exact_trees (e ∷ es) (n ∷ ns) ts [] h = elim (Bool-cases (has_source n)) [
    | inl some_text ↦ rw (h.0, some_text) refl
    | inr no_text ↦ rw (h.0, no_text) (match_children-exact_trees es ns ts [] h.1)
  ]
  match_children-exact_trees (e ∷ es) (n ∷ ns) ts (o ∷ os) h = elim (Bool-cases (has_source n)) [
    | inl some_text ↦ elim (Bool-cases (isomorphic_to n o)) [
      | inl same ↦ rw (h.0, some_text, same) (match_children-exact_trees es ns ts os h.1)
      | inr other ↦ rw (h.0, some_text, other) refl
    ]
    | inr no_text ↦ rw (h.0, no_text) (match_children-exact_trees es ns ts (o ∷ os) h.1)
  ]

  on_first :
      (t : MergedTree) (us vs : MergedTrees) (others : List AstNode)
      → ◌≡◌ {A = List AstNode → Run Bool}
          (λ os. match_children us os r cm)
          (λ os. match_children vs os r cm)
      → match_children (cons t us) others r cm ≡ match_children (cons t vs) others r cm
  unfolding match_children isomorphic_to_source
  on_first (conflict a b c) us vs others h = ap (after_nodes (match_nodes (side a b c r) others)) h
  on_first (line_based_merge _ _) us vs others h = refl
  on_first (exact_tree l q k) us vs others h = ap (after_child (exact_tree l q k) others r cm) h
  on_first (mixed_tree l ts k) us vs others h = ap (after_child (mixed_tree l ts k) others r cm) h
  on_first (commutative_child_separator s) us vs others h =
      ap (after_child (commutative_child_separator s) others r cm) h

  match_children-append :
      (pre us vs : MergedTrees)
      → ((others : List AstNode) → match_children us others r cm ≡ match_children vs others r cm)
      → (others : List AstNode)
      → match_children (append pre us) others r cm ≡ match_children (append pre vs) others r cm
  match_children-append nil us vs h others = h others
  match_children-append (cons t pre) us vs h others =
      on_first t (append pre us) (append pre vs) others
        (fun_ext (match_children-append pre us vs h))

contains-exact_trees :
    (es : List Parts) (ts : MergedTrees)
    → contains_line_based_merge (exact_trees es ts) ≡ contains_line_based_merge ts
contains-exact_trees [] ts = refl
contains-exact_trees (e ∷ es) ts = contains-exact_trees es ts

contains-append :
    (pre us vs : MergedTrees)
    → contains_line_based_merge us ≡ contains_line_based_merge vs
    → contains_line_based_merge (append pre us) ≡ contains_line_based_merge (append pre vs)
contains-append nil us vs h = h
contains-append (cons t pre) us vs h = rw (contains-append pre us vs h) refl

-- A mixed tree with a conflict among its children is compared to a source, at a revision, like the mixed
-- tree with exact trees of the nodes of the conflict's side at that revision in the place of the conflict.
pub isomorphic_to_source-conflict :
    (leader : Leader) (pre ts : MergedTrees) (base left right : List AstNode) (es : List Parts)
    (hash hash_of_side : ℕ) (other_node : AstNode) (r : Revision) (cm : ClassMapping)
    → StandFor cm es (side base left right r)
    → isomorphic_to_source
        (mixed_tree leader (append pre (cons (conflict base left right) ts)) hash)
        other_node
        r
        cm
      ≡ isomorphic_to_source
          (mixed_tree leader (append pre (exact_trees es ts)) hash_of_side)
          other_node
          r
          cm
unfolding isomorphic_to_source
isomorphic_to_source-conflict leader pre ts base left right es hash hash_of_side other_node r cm h =
    let us = cons (conflict base left right) ts in
    let vs = exact_trees es ts in
    ap₂
      (λ b m.
        if not (text_eq (info leader.node).kind (info other_node).kind)
          || not (text_eq (info leader.node).lang_name (info other_node).lang_name)
        then done false
        else if b
        then done true
        else m)
      (contains-append pre us vs (sym (contains-exact_trees es ts)))
      (match_children-append r cm pre us vs
        (λ os.
          unfold match_children in
          sym (match_children-exact_trees r cm es (side base left right r) ts os h))
        (filter has_source (children other_node)))
