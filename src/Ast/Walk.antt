-- ===== src/Ast/Walk.antt =====
-- The iterators `DfsIterator` and `PostfixIterator`, which keep stacks of nodes.
use mirror_mergiraf.Base.{
  ℕ, zero, suc, ◌≤◌, List, [], ◌∷◌, ◌++◌, ◌≡◌, refl, sym, ap, ◌∙◌, length, arith, append_assoc,
  append-nil,
}
use mirror_mergiraf.Base.Run.{Run, done, panicked, out_of_fuel}
use mirror_mergiraf.Ast.{AstNode, Children, node, nil, cons, children, to_list, dfs, dfs_all}

-- A node that the iterator yields, before all later ones.
abbrev emit : AstNode → Run (List AstNode) → Run (List AstNode)
emit n (done ns) = done (n ∷ ns)
emit n panicked = panicked
emit n out_of_fuel = out_of_fuel

-- All nodes that `DfsIterator` yields. The head of the list is the top of the stack, on which the
-- children are put last child first.
pub dfs_loop : ℕ → List AstNode → Run (List AstNode)
dfs_loop fuel [] = done []
dfs_loop zero (n ∷ stack) = out_of_fuel
dfs_loop (suc fuel) (n ∷ stack) = emit n (dfs_loop fuel (children n ++ stack))

pub calculate_dfs : ℕ → AstNode → Run (List AstNode)
unfolding dfs_loop
calculate_dfs fuel n = dfs_loop fuel (n ∷ [])

abbrev dfs_list : List AstNode → List AstNode
unfolding dfs
dfs_list [] = []
dfs_list (n ∷ ns) = dfs n ++ dfs_list ns

dfs_list-append :
    (ns : Children) (stack : List AstNode)
    → dfs_list (to_list ns ++ stack) ≡ dfs_all ns ++ dfs_list stack
unfolding dfs
dfs_list-append nil stack = refl
dfs_list-append (cons n ns) stack =
    ap (λ s. dfs n ++ s) (dfs_list-append ns stack)
    ∙ sym (append_assoc (dfs n) (dfs_all ns) (dfs_list stack))

dfs_loop_lem :
    (fuel : ℕ) (stack : List AstNode)
    → length (dfs_list stack) ≤ fuel
    → dfs_loop fuel stack ≡ done (dfs_list stack)
unfolding dfs_loop dfs
dfs_loop_lem zero [] h = refl
dfs_loop_lem (suc fuel) [] h = refl
dfs_loop_lem zero (node i ns ∷ stack) h = absurd (omega arith)
dfs_loop_lem (suc fuel) (node i ns ∷ stack) h =
    let e : dfs_list (to_list ns ++ stack) ≡ dfs_all ns ++ dfs_list stack =
      dfs_list-append ns stack in
    ap (emit (node i ns)) (
      dfs_loop_lem fuel (to_list ns ++ stack) (omega (arith, ap (length {A = AstNode}) e))
      ∙ ap done e)

-- With fuel for each node of the subtree the iterator ends, and it yields the nodes in the order that
-- is computed once for the root: each node before its children, and these from the first to the last.
pub calculate_dfs_lem :
    (fuel : ℕ) (n : AstNode) → length (dfs n) ≤ fuel → calculate_dfs fuel n ≡ done (dfs n)
unfolding calculate_dfs dfs_list
calculate_dfs_lem fuel n h =
    let e : dfs n ++ [] ≡ dfs n = append-nil (dfs n) in
    dfs_loop_lem fuel (n ∷ []) (omega (arith, ap (length {A = AstNode}) e)) ∙ ap done e
