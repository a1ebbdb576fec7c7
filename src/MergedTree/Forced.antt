-- ===== src/MergedTree/Forced.antt =====
-- Forcing line-based merges onto some nodes leaves the trees alone in which none of them stands.
use mirror_mergiraf.Base.{
  ℕ, Bool, true, false, not, ◌&&◌, Option, List, ◌≡◌, refl, sym, ap, ◌∙◌, arith, all, all-append,
  is_some, Option-cases, inl, inr,
}
use mirror_mergiraf.Base.HashMap.{set_contains}
use mirror_mergiraf.Base.Run.{Run, done, expect, ◌>>=◌}
use mirror_mergiraf.Base.Text.{Text}
use mirror_mergiraf.Ast.{AstNode, Children, info, dfs, dfs_all}
use mirror_mergiraf.Ast as Ast
use mirror_mergiraf.Revision.{Revision}
use mirror_mergiraf.RevisionSet.{singleton}
use mirror_mergiraf.RevisionSet.Laws.{any_ne-singleton}
use mirror_mergiraf.Pcs.{Leader}
use mirror_mergiraf.Pcs.Equality.{rev_node_Eq}
use mirror_mergiraf.ClassMapping.{ClassMapping, rev_node, map_to_leader, node_at_rev}
use mirror_mergiraf.ParsedMerge.{ParsedMerge}
use mirror_mergiraf.MergedTree.{
  MergedTree, MergedTrees, exact_tree, nil, cons, new_exact, node_at_any, all_exact, rebuild,
  force_in_astnode, force_in_children,
}

-- The class of a node has a node at a revision, and it is not in a set.
abbrev pub stays : ClassMapping → List Leader → Revision → AstNode → Bool
stays cm nodes r n =
    is_some (node_at_rev cm (map_to_leader cm (rev_node r n)) r)
    && not (set_contains nodes (map_to_leader cm (rev_node r n)))

not_in_set : (b : Bool) → not b ≡ true → b ≡ false
not_in_set b h = ground arith

new_exact-at :
    (cm : ClassMapping) (leader : Leader) (r : Revision)
    → is_some (node_at_rev cm leader r) ≡ true
    → (h : ℕ) × (new_exact leader (singleton r) cm ≡ done (exact_tree leader (singleton r) h))
unfolding new_exact
new_exact-at cm leader r there = elim (Option-cases (node_at_rev cm leader r)) [
  | inl absent ↦ absurd (ground (arith, ap (is_some {A = AstNode}) absent))
  | inr (n, found) ↦ ((info n).hash, rw (any_ne-singleton r, node_at_any) (rw (found, expect) refl))
]

module _ (hash_mixed : Text → Text → List ℕ → ℕ)
    (merge_lines : Option AstNode → AstNode → AstNode → ParsedMerge) (cm : ClassMapping)
    (nodes : List Leader) (r : Revision) where
  abbrev IsExactAt : Leader → Run MergedTree → Type 0
  IsExactAt leader t = (h : ℕ) × (t ≡ done (exact_tree leader (singleton r) h))

  rebuild-exact :
      (leader : Leader) (ts : MergedTrees)
      → is_some (node_at_rev cm leader r) ≡ true
      → all_exact ts ≡ true
      → IsExactAt leader (rebuild hash_mixed merge_lines leader r cm ts)
  unfolding rebuild
  rebuild-exact leader ts there exact = rw exact (new_exact-at cm leader r there)

  step :
      (i : Ast.Info) (ns : Children) (ts : MergedTrees)
      → stays cm nodes r (Ast.node i ns) ≡ true
      → force_in_children hash_mixed merge_lines r ns nodes cm ≡ done ts
      → all_exact ts ≡ true
      → IsExactAt
          (map_to_leader cm (rev_node r (Ast.node i ns)))
          (force_in_astnode hash_mixed merge_lines r (Ast.node i ns) nodes cm)
  unfolding force_in_astnode rev_node_Eq
  step i ns ts kept e exact =
      rw
        (not_in_set (set_contains nodes (map_to_leader cm (rev_node r (Ast.node i ns))))
          (ground arith))
        (rw (e, ◌>>=◌)
          (rebuild-exact (map_to_leader cm (rev_node r (Ast.node i ns))) ts (ground arith) exact))

  next_child :
      (n : AstNode) (ns : Children) (t : MergedTree) (ts : MergedTrees)
      → force_in_astnode hash_mixed merge_lines r n nodes cm ≡ done t
      → force_in_children hash_mixed merge_lines r ns nodes cm ≡ done ts
      → force_in_children hash_mixed merge_lines r (Ast.cons n ns) nodes cm ≡ done (cons t ts)
  unfolding force_in_astnode
  next_child n ns t ts e f = rw (e, ◌>>=◌) (rw (f, ◌>>=◌) refl)

  no_child : force_in_children hash_mixed merge_lines r Ast.nil nodes cm ≡ done nil
  unfolding force_in_astnode
  no_child = refl

  mutual
    unfolding dfs

    untouched :
        (n : AstNode)
        → all (stays cm nodes r) (dfs n) ≡ true
        → IsExactAt
            (map_to_leader cm (rev_node r n))
            (force_in_astnode hash_mixed merge_lines r n nodes cm)
    untouched (Ast.node i ns) kept =
        let (ts, e, exact) = untouched_all ns (ground arith) in step i ns ts (ground arith) e exact

    untouched_all :
        (ns : Children)
        → all (stays cm nodes r) (dfs_all ns) ≡ true
        → (ts : MergedTrees) × (force_in_children hash_mixed merge_lines r ns nodes cm ≡ done ts)
          × (all_exact ts ≡ true)
    untouched_all Ast.nil kept = (nil, no_child, refl)
    untouched_all (Ast.cons n ns) kept =
        let both : (all (stays cm nodes r) (dfs n) && all (stays cm nodes r) (dfs_all ns)) ≡ true =
          sym (all-append (stays cm nodes r) (dfs n) (dfs_all ns)) ∙ kept in
        let (h, e) = untouched n (ground arith) in
        let (ts, f, exact) = untouched_all ns (ground arith) in
        (
          cons (exact_tree (map_to_leader cm (rev_node r n)) (singleton r) h) ts,
          next_child n ns _ ts e f,
          exact,
        )

  -- If no node of a subtree has its class among those that are to be merged by lines, and the classes have
  -- nodes at the revision, then the subtree stays what it was: the exact tree of this revision, in
  -- whatever way mixed trees are hashed and lines are merged.
  pub force_in_astnode-untouched :
      (n : AstNode)
      → all (stays cm nodes r) (dfs n) ≡ true
      → (h : ℕ) × (force_in_astnode hash_mixed merge_lines r n nodes cm
          ≡ done (exact_tree (map_to_leader cm (rev_node r n)) (singleton r) h))
  force_in_astnode-untouched n kept = untouched n kept
