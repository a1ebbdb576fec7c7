-- ===== src/TreeMatcher/Recovery/Strip.antt =====
-- The size of a stripped tree.
use mirror_mergiraf.Base.{
  ℕ, suc, ◌+◌, ◌≤◌, Bool, Option, none, some, ◌≡◌, refl, sym, arith, length, length-append,
}
use mirror_mergiraf.Ast.{AstNode, Children, node, nil, cons, dfs, dfs_all}
use mirror_mergiraf.Matching.{Matching}
use mirror_mergiraf.TreeMatcher.Recovery.{
  TedTree, TedTrees, ted, none_left, and_then, ted_size, sum_of_sizes, unless_matched, matched_node,
  strip_matched_subtrees, strip_children,
}

-- The nodes of a tree.
mutual
  pub count : TedTree → ℕ
  count (ted n matched ts w s) = suc (count_all ts)

  pub count_all : TedTrees → ℕ
  count_all none_left = 0
  count_all (and_then t ts) = count t + count_all ts

-- A tree of which all nodes under a matched one are left out.
count_unless :
    (o : Option AstNode) (ts : TedTrees)
    → count_all ts ≡ sum_of_sizes ts
    → suc (count_all (unless_matched o ts)) ≡ sum_of_sizes (unless_matched o ts) + 1
unfolding count
count_unless none ts e = omega arith
count_unless (some other) ts e = omega arith

le_unless :
    (o : Option AstNode) (ts : TedTrees) (n : ℕ)
    → sum_of_sizes ts ≤ n
    → sum_of_sizes (unless_matched o ts) ≤ n
le_unless none ts n le = le
le_unless (some other) ts n le = omega arith

mutual
  unfolding count strip_matched_subtrees

  count-strip :
      (root : AstNode) (m : Matching) (left_side : Bool) (n : AstNode)
      → count (strip_matched_subtrees root m left_side n)
        ≡ ted_size (strip_matched_subtrees root m left_side n)
  count-strip root m left_side (node i ns) =
      count_unless (matched_node root m left_side (node i ns)) (strip_children root m left_side ns)
        (count-strip_children root m left_side ns)

  count-strip_children :
      (root : AstNode) (m : Matching) (left_side : Bool) (ns : Children)
      → count_all (strip_children root m left_side ns)
        ≡ sum_of_sizes (strip_children root m left_side ns)
  count-strip_children root m left_side nil = refl
  count-strip_children root m left_side (cons n ns) =
      omega (arith, count-strip root m left_side n, count-strip_children root m left_side ns)

mutual
  unfolding strip_matched_subtrees dfs

  strip-le :
      (root : AstNode) (m : Matching) (left_side : Bool) (n : AstNode)
      → ted_size (strip_matched_subtrees root m left_side n) ≤ length (dfs n)
  strip-le root m left_side (node i ns) = omega (
    arith,
    le_unless (matched_node root m left_side (node i ns)) (strip_children root m left_side ns)
        (length (dfs_all ns)) (strip_children-le root m left_side ns),
  )

  strip_children-le :
      (root : AstNode) (m : Matching) (left_side : Bool) (ns : Children)
      → sum_of_sizes (strip_children root m left_side ns) ≤ length (dfs_all ns)
  strip_children-le root m left_side nil = omega arith
  strip_children-le root m left_side (cons n ns) = omega (
    arith,
    strip-le root m left_side n,
    strip_children-le root m left_side ns,
    length-append (dfs n) (dfs_all ns),
  )

-- The size that a stripped tree says to have, and by which the limit on edit distances is kept, is the
-- number of its nodes. It is at most that of the tree before.
pub strip_matched_subtrees-size :
    (root : AstNode) (m : Matching) (left_side : Bool) (n : AstNode)
    → (ted_size (strip_matched_subtrees root m left_side n)
        ≡ count (strip_matched_subtrees root m left_side n))
      × (ted_size (strip_matched_subtrees root m left_side n) ≤ length (dfs n))
strip_matched_subtrees-size root m left_side n =
    (sym (count-strip root m left_side n), strip-le root m left_side n)
