-- ===== src/MergedTree.antt =====
-- src/merged_tree.rs: trees that mix nodes of the revisions with conflicts and line-based merges.
pub mod Forced
pub mod Source
mod Examples
use mirror_mergiraf.Base.{
  ℕ, Bool, true, false, ◌&&◌, ◌||◌, ◌==◌, Option, none, some, List, [], ◌∷◌, ◌++◌, if◌then◌else◌,
  length, zip, all, any, map,
}
use mirror_mergiraf.Base.HashMap.{set_contains}
use mirror_mergiraf.Base.Run.{Run, done, panicked, ◌>>=◌, ◌>>◌, expect}
use mirror_mergiraf.Base.Text.{Text}
use mirror_mergiraf.Ast.{AstNode, Children, info, dfs, isomorphic_to}
use mirror_mergiraf.Ast as Ast
use mirror_mergiraf.Revision.{Revision}
use mirror_mergiraf.RevisionSet
use mirror_mergiraf.RevisionSet.{RevisionNeSet}
use mirror_mergiraf.Pcs.{RevNode, Leader, rev_node_eq}
use mirror_mergiraf.Pcs.Equality.{rev_node_Eq}
use mirror_mergiraf.ClassMapping
use mirror_mergiraf.ClassMapping.{ClassMapping, rev_node, map_to_leader, node_at_rev}
use mirror_mergiraf.ParsedMerge.{ParsedMerge}

mutual
  pub data MergedTree : Type 0 where
    exact_tree : Leader → RevisionNeSet → ℕ → MergedTree
    mixed_tree : Leader → MergedTrees → ℕ → MergedTree
    conflict : List AstNode → List AstNode → List AstNode → MergedTree
    line_based_merge : Leader → ParsedMerge → MergedTree
    commutative_child_separator : Text → MergedTree

  pub data MergedTrees : Type 0 where
    nil : MergedTrees
    cons : MergedTree → MergedTrees → MergedTrees

-- `node_at_rev(node, revisions.any()).expect(…)`, with the panic.
unfoldable pub node_at_any : ClassMapping → Leader → RevisionNeSet → Run AstNode
unfolding node_at_rev
node_at_any cm leader revisions =
    RevisionSet.any_ne revisions >>= λ r. expect (node_at_rev cm leader r)

unfoldable pub new_exact : Leader → RevisionNeSet → ClassMapping → Run MergedTree
unfolding node_at_any
new_exact leader revisions cm = node_at_any cm leader revisions >>= λ representative.
    done (exact_tree leader revisions (info representative).hash)

-- The hash of a child, for the hash of its parent.
abbrev pub child_hash : MergedTree → ℕ
child_hash (exact_tree _ _ hash) = hash
child_hash (mixed_tree _ _ hash) = hash
child_hash (conflict _ _ _) = 1
child_hash (line_based_merge _ _) = 2
child_hash (commutative_child_separator _) = 3

abbrev pub child_hashes : MergedTrees → List ℕ
child_hashes nil = []
child_hashes (cons t ts) = child_hash t ∷ child_hashes ts

abbrev pub is_exact : MergedTree → Bool
is_exact (exact_tree _ _ _) = true
is_exact _ = false

abbrev pub all_exact : MergedTrees → Bool
all_exact nil = true
all_exact (cons t ts) = is_exact t && all_exact ts

unfoldable pub isomorphic_sides : List AstNode → List AstNode → Bool
unfolding isomorphic_to
isomorphic_sides first_side second_side =
    length first_side == length second_side
    && all (λ p. isomorphic_to p.0 p.1) (zip first_side second_side)

unfoldable pub extract_rev :
    List AstNode → Revision → Revision → ClassMapping → Run (List MergedTree)
unfolding new_exact map_to_leader
extract_rev [] first_rev second_rev cm = done []
extract_rev (n ∷ ns) first_rev second_rev cm =
    new_exact (map_to_leader cm (rev_node first_rev n))
      (RevisionSet.add_ne (RevisionSet.singleton first_rev) second_rev) cm
    >>= λ t. extract_rev ns first_rev second_rev cm >>= λ ts. done (t ∷ ts)

unfoldable pub new_conflict :
    List AstNode → List AstNode → List AstNode → ClassMapping → Run (List MergedTree)
new_conflict base left right cm =
    if isomorphic_sides left right
    then extract_rev left Revision.left Revision.right cm
    else if isomorphic_sides base right
    then extract_rev left Revision.left Revision.left cm
    else if isomorphic_sides base left
    then extract_rev right Revision.right Revision.right cm
    else done (conflict base left right ∷ [])

unfoldable pub field_name : MergedTree → ClassMapping → Option Text
unfolding ClassMapping.field_name
field_name (exact_tree leader _ _) cm = ClassMapping.field_name cm leader
field_name (line_based_merge leader _) cm = ClassMapping.field_name cm leader
field_name (mixed_tree leader _ _) cm = ClassMapping.field_name cm leader
field_name (conflict _ _ _) cm = none
field_name (commutative_child_separator _) cm = none

unfoldable pub kind : MergedTree → Option Text
kind (exact_tree leader _ _) = some (info leader.node).kind
kind (line_based_merge leader _) = some (info leader.node).kind
kind (mixed_tree leader _ _) = some (info leader.node).kind
kind (conflict _ _ _) = none
kind (commutative_child_separator _) = none

-- `RevNode::contains` of src/class_mapping.rs
unfoldable pub rev_node_contains : RevNode → Leader → ClassMapping → Bool
unfolding rev_node_eq map_to_leader dfs
rev_node_contains rn other cm =
    any (λ descendant. rev_node_eq (map_to_leader cm (rev_node rn.rev descendant)) other)
      (dfs rn.node)

abbrev pub any_contains : List AstNode → Revision → Leader → ClassMapping → Bool
unfolding rev_node_contains
any_contains ns r leader cm = any (λ n. rev_node_contains (rev_node r n) leader cm) ns

abbrev pub side : List AstNode → List AstNode → List AstNode → Revision → List AstNode
side base left right Revision.base = base
side base left right Revision.left = left
side base left right Revision.right = right

-- The panic for a revision set that does not fit the class mapping is a result.
unfoldable mutual
  pub contains : MergedTree → Leader → ClassMapping → Run Bool
  contains (exact_tree own revisions _) leader cm = RevisionSet.any_ne revisions >>= λ r.
      expect (node_at_rev cm own r) >>= λ n. done (rev_node_contains (rev_node r n) leader cm)
  contains (mixed_tree own children _) leader cm =
      if rev_node_eq own leader then done true else contains_any children leader cm
  contains (conflict base left right) leader cm =
      done (any_contains (side base left right leader.rev) leader.rev leader cm)
  contains (line_based_merge own _) leader cm = done (rev_node_eq own leader)
  contains (commutative_child_separator _) leader cm = done false

  pub contains_any : MergedTrees → Leader → ClassMapping → Run Bool
  contains_any nil leader cm = done false
  contains_any (cons t ts) leader cm =
      contains t leader cm >>= λ found. if found then done true else contains_any ts leader cm

-- The hash of a mixed tree, and `line_based_merge_parsed` on the sources of the nodes without their
-- indentation, are parameters.
module _ (hash_mixed : Text → Text → List ℕ → ℕ)
    (merge_lines : Option AstNode → AstNode → AstNode → ParsedMerge) where
  unfoldable pub new_mixed : Leader → MergedTrees → MergedTree
  new_mixed leader children =
      mixed_tree leader children
        (hash_mixed (info leader.node).kind (info leader.node).lang_name (child_hashes children))

  -- The branches, by the nodes at the three revisions.
  abbrev pub fallback_on :
      Leader → Option AstNode → Option AstNode → Option AstNode → ClassMapping → Run MergedTree
  unfolding new_exact
  fallback_on leader none none none cm = panicked
  fallback_on leader base (some l) none cm =
      new_exact leader (RevisionSet.singleton Revision.left) cm
  fallback_on leader base none (some r) cm =
      new_exact leader (RevisionSet.singleton Revision.right) cm
  fallback_on leader (some b) none none cm =
      new_exact leader (RevisionSet.singleton Revision.base) cm
  fallback_on leader base (some l) (some r) cm =
      if isomorphic_to l r
      then new_exact leader
          (RevisionSet.add_ne (RevisionSet.singleton Revision.left) Revision.right) cm
      else done (line_based_merge leader (merge_lines base l r))

  unfoldable pub line_based_local_fallback_for_revnode : Leader → ClassMapping → Run MergedTree
  unfolding node_at_rev
  line_based_local_fallback_for_revnode leader cm =
      fallback_on leader (node_at_rev cm leader Revision.base) (node_at_rev cm leader Revision.left)
        (node_at_rev cm leader Revision.right) cm

  -- The tree for a node none of whose descendants counts on its own, or that mixes them.
  unfoldable pub rebuild : Leader → Revision → ClassMapping → MergedTrees → Run MergedTree
  unfolding new_exact new_mixed
  rebuild leader revision cm children =
      if all_exact children
      then new_exact leader (RevisionSet.singleton revision) cm
      else done (new_mixed leader children)

  -- `force_line_based_fallback_on_specific_nodes_in_astnode`
  unfoldable mutual
    pub force_in_astnode : Revision → AstNode → List Leader → ClassMapping → Run MergedTree
    force_in_astnode revision (Ast.node i ns) nodes cm =
        let leader = map_to_leader cm (rev_node revision (Ast.node i ns)) in
        if set_contains nodes leader
        then line_based_local_fallback_for_revnode leader cm
        else force_in_children revision ns nodes cm >>= rebuild leader revision cm

    pub force_in_children : Revision → Children → List Leader → ClassMapping → Run MergedTrees
    force_in_children revision Ast.nil nodes cm = done nil
    force_in_children revision (Ast.cons n ns) nodes cm =
        force_in_astnode revision n nodes cm >>= λ t.
        force_in_children revision ns nodes cm >>= λ ts. done (cons t ts)

  -- The same on a merged tree, for a set that is not empty.
  unfoldable mutual
    pub force_on_nodes : MergedTree → List Leader → ClassMapping → Run MergedTree
    force_on_nodes (exact_tree leader revisions hash) nodes cm =
        if set_contains nodes leader
        then line_based_local_fallback_for_revnode leader cm
        else (RevisionSet.any_ne revisions >>= λ r.
            expect (node_at_rev cm leader r) >>= λ n. force_in_astnode r n nodes cm)
    force_on_nodes (mixed_tree leader children hash) nodes cm =
        let forced = force_on_children children nodes cm in
        if set_contains nodes leader
        then line_based_local_fallback_for_revnode leader cm
        else (forced >>= λ ts. done (new_mixed leader ts))
    force_on_nodes (conflict base left right) nodes cm = done (conflict base left right)
    force_on_nodes (line_based_merge leader parsed) nodes cm = done (line_based_merge leader parsed)
    force_on_nodes (commutative_child_separator separator) nodes cm =
        done (commutative_child_separator separator)

    pub force_on_children : MergedTrees → List Leader → ClassMapping → Run MergedTrees
    force_on_children nil nodes cm = done nil
    force_on_children (cons t ts) nodes cm = force_on_nodes t nodes cm >>= λ t'.
        force_on_children ts nodes cm >>= λ ts'. done (cons t' ts')

  unfoldable pub force_line_based_fallback_on_specific_nodes :
      MergedTree → List Leader → ClassMapping → Run MergedTree
  unfolding force_on_nodes
  force_line_based_fallback_on_specific_nodes t [] cm = done t
  force_line_based_fallback_on_specific_nodes t (leader ∷ nodes) cm =
      force_on_nodes t (leader ∷ nodes) cm
