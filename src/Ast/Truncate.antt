-- ===== src/Ast/Truncate.antt =====
-- src/ast.rs: trees of which some nodes are made leaves.
use mirror_mergiraf.Base.{
  ℕ, suc, ◌+◌, ◌-◌, Bool, true, false, if◌then◌else◌, List, [], ◌∷◌, ◌++◌, ◌≡◌, refl, ap, ◌∙◌,
  arith, sum, map, Bool-cases, inl, inr,
}
use mirror_mergiraf.Ast.{
  AstNode, Info, Children, node, nil, cons, info, to_list, dfs, dfs_all, own_weight,
}

-- A truncated node keeps its size, and all else but its children.
unfoldable mutual
  pub truncate : AstNode → (AstNode → Bool) → AstNode
  truncate (node i ns) predicate =
      node i (if predicate (node i ns) then nil else truncate_all ns predicate)

  pub truncate_all : Children → (AstNode → Bool) → Children
  truncate_all nil predicate = nil
  truncate_all (cons n ns) predicate = cons (truncate n predicate) (truncate_all ns predicate)

abbrev pub child_counts : Children → ℕ
child_counts ns = sum (map (λ c. (info c).descendant_count) (to_list ns))

-- A tree as it is parsed: each node counts itself and its descendants.
unfoldable mutual
  pub IsCounted : AstNode → Type 0
  IsCounted (node i ns) = (i.descendant_count ≡ suc (child_counts ns)) × AreCounted ns

  pub AreCounted : Children → Type 0
  AreCounted nil = Unit {0}
  AreCounted (cons n ns) = IsCounted n × AreCounted ns

abbrev pub weight : List AstNode → ℕ
weight [] = 0
weight (n ∷ ns) = own_weight n + weight ns

weight-append : (xs ys : List AstNode) → weight (xs ++ ys) ≡ weight xs + weight ys
weight-append [] ys = omega arith
weight-append (x ∷ xs) ys = omega (arith, weight-append xs ys)

truncate-cut :
    (i : Info) (ns : Children) (predicate : AstNode → Bool)
    → predicate (node i ns) ≡ true
    → truncate (node i ns) predicate ≡ node i nil
unfolding truncate
truncate-cut i ns predicate cut = rw (cut, truncate) refl

truncate-kept :
    (i : Info) (ns : Children) (predicate : AstNode → Bool)
    → predicate (node i ns) ≡ false
    → truncate (node i ns) predicate ≡ node i (truncate_all ns predicate)
unfolding truncate
truncate-kept i ns predicate kept = rw (kept, truncate) refl

pub info-truncate :
    (n : AstNode) (predicate : AstNode → Bool) → info (truncate n predicate) ≡ info n
info-truncate (node i ns) predicate = elim (Bool-cases (predicate (node i ns))) [
  | inl cut ↦ ap info (truncate-cut i ns predicate cut)
  | inr kept ↦ ap info (truncate-kept i ns predicate kept)
]

child_counts-truncate_all :
    (ns : Children) (predicate : AstNode → Bool)
    → child_counts (truncate_all ns predicate) ≡ child_counts ns
unfolding truncate
child_counts-truncate_all nil predicate = refl
child_counts-truncate_all (cons n ns) predicate = omega (
  arith,
  ap (λ i. i.descendant_count) (info-truncate n predicate),
  child_counts-truncate_all ns predicate,
)

abbrev weight_of : AstNode → ℕ
weight_of n = weight (dfs n)

leaf_weight : (i : Info) → weight_of (node i nil) ≡ i.descendant_count
unfolding dfs own_weight
leaf_weight i = omega arith

node_weight :
    (i : Info) (ns : Children)
    → weight_of (node i ns) ≡ (i.descendant_count - child_counts ns) + weight (dfs_all ns)
unfolding dfs own_weight
node_weight i ns = refl

weight_kept :
    (i : Info) (ns : Children) (predicate : AstNode → Bool)
    → weight_of (node i (truncate_all ns predicate))
      ≡ (i.descendant_count - child_counts ns) + weight (dfs_all (truncate_all ns predicate))
weight_kept i ns predicate =
    node_weight i (truncate_all ns predicate)
    ∙ ap (λ c. (i.descendant_count - c) + weight (dfs_all (truncate_all ns predicate)))
        (child_counts-truncate_all ns predicate)

mutual
  unfolding IsCounted truncate dfs

  weight_lem :
      (n : AstNode) (predicate : AstNode → Bool)
      → IsCounted n
      → weight (dfs (truncate n predicate)) ≡ (info n).descendant_count
  weight_lem (node i ns) predicate counted = elim (Bool-cases (predicate (node i ns))) [
    | inl cut ↦ ap weight_of (truncate-cut i ns predicate cut) ∙ leaf_weight i
    | inr kept ↦
        ap weight_of (truncate-kept i ns predicate kept)
        ∙ omega (
          arith,
          weight_kept i ns predicate,
          child_counts-truncate_all ns predicate,
          weight_all_lem ns predicate counted.1,
        )
  ]

  weight_all_lem :
      (ns : Children) (predicate : AstNode → Bool)
      → AreCounted ns
      → weight (dfs_all (truncate_all ns predicate)) ≡ child_counts ns
  weight_all_lem nil predicate counted = refl
  weight_all_lem (cons n ns) predicate counted = omega (
    arith,
    weight-append (dfs (truncate n predicate)) (dfs_all (truncate_all ns predicate)),
    weight_lem n predicate counted.0,
    weight_all_lem ns predicate counted.1,
  )

-- However a tree is truncated, the weights of the nodes that are left add up to the size of the tree
-- before: a node that lost its descendants weighs as much as they did.
pub truncate-weight :
    (n : AstNode) (predicate : AstNode → Bool)
    → IsCounted n
    → weight (dfs (truncate n predicate)) ≡ (info n).descendant_count
truncate-weight n predicate counted = weight_lem n predicate counted
