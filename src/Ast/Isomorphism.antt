-- ===== src/Ast/Isomorphism.antt =====
-- `AstNode::isomorphic_to` compares two walks, node by node; so it compares the trees.
use mirror_mergiraf.Base.{
  Bool, true, false, ◌&&◌, ◌||◌, not, List, [], ◌++◌, ◌≡◌, refl, sym, ap, ap₂, ◌∙◌, ◌==◌, length,
  arith, append-nil, append_assoc, Bool-cases, inl, inr,
}
use mirror_mergiraf.Base.Text.{text_eq}
use mirror_mergiraf.Ast.{
  AstNode, Children, node, nil, cons, info, to_list, is_leaf, dfs, dfs_all, agree, agree_all,
  isomorphic_to,
}

-- Two trees of one shape, with the same kind at each place, and the same text at the leaves.
mutual
  unfolding is_leaf

  pub iso : AstNode → AstNode → Bool
  iso (node i ns) (node j ms) =
      text_eq i.kind j.kind
      && (not (is_leaf (node i ns)) || text_eq i.source j.source)
      && iso_all ns ms

  pub iso_all : Children → Children → Bool
  iso_all nil nil = true
  iso_all nil (cons m ms) = false
  iso_all (cons n ns) nil = false
  iso_all (cons n ns) (cons m ms) = iso n m && iso_all ns ms

&&-assoc : (a b c : Bool) → (a && (b && c)) ≡ (a && b && c)
&&-assoc true b c = refl
&&-assoc false b c = refl

&&-true : (a : Bool) → (a && true) ≡ a
&&-true true = refl
&&-true false = refl

iso_all-length :
    (ns ms : Children)
    → (length (to_list ns) == length (to_list ms)) ≡ false
    → iso_all ns ms ≡ false
unfolding iso
iso_all-length nil nil h = cc
iso_all-length nil (cons m ms) h = refl
iso_all-length (cons n ns) nil h = refl
iso_all-length (cons n ns) (cons m ms) h = ground (arith, iso_all-length ns ms)

mutual
  unfolding iso dfs agree_all agree

  agree_all-iso :
      (a b : AstNode) (xs ys : List AstNode)
      → agree_all (dfs a ++ xs) (dfs b ++ ys) ≡ (iso a b && agree_all xs ys)
  agree_all-iso (node i ns) (node j ms) xs ys =
      elim (Bool-cases (length (to_list ns) == length (to_list ms))) [
        | inl same ↦ ground (arith, agree_all-iso_all ns ms xs ys same)
        | inr other ↦ ground (arith, iso_all-length ns ms other)
      ]

  agree_all-iso_all :
      (ns ms : Children) (xs ys : List AstNode)
      → (length (to_list ns) == length (to_list ms)) ≡ true
      → agree_all (dfs_all ns ++ xs) (dfs_all ms ++ ys) ≡ (iso_all ns ms && agree_all xs ys)
  agree_all-iso_all nil nil xs ys h = refl
  agree_all-iso_all nil (cons m ms) xs ys h = absurd (ground arith)
  agree_all-iso_all (cons n ns) nil xs ys h = absurd (ground arith)
  agree_all-iso_all (cons n ns) (cons m ms) xs ys h =
      ap₂ agree_all (append_assoc (dfs n) (dfs_all ns) xs) (append_assoc (dfs m) (dfs_all ms) ys)
      ∙ agree_all-iso n m (dfs_all ns ++ xs) (dfs_all ms ++ ys)
      ∙ ap (λ b. iso n m && b) (agree_all-iso_all ns ms xs ys (ground arith))
      ∙ &&-assoc (iso n m) (iso_all ns ms) (agree_all xs ys)

-- The walks agree exactly if the trees are isomorphic, although `zip` compares no more nodes than
-- the smaller tree has.
pub isomorphic_to_lem :
    (a b : AstNode) → isomorphic_to a b ≡ ((info a).hash == (info b).hash && iso a b)
unfolding isomorphic_to agree_all
isomorphic_to_lem a b =
    ap (λ t. (info a).hash == (info b).hash && t)
      (ap₂ agree_all (sym (append-nil (dfs a))) (sym (append-nil (dfs b)))
        ∙ agree_all-iso a b [] []
        ∙ &&-true (iso a b))
