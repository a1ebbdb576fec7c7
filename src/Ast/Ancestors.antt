-- ===== src/Ast/Ancestors.antt =====
-- src/ast.rs: the ancestors of a node. A node of the model does not know its parent, so the root of its
-- tree is an argument.
use mirror_mergiraf.Base.{Bool, Option, none, some, List, [], ◌∷◌, ◌++◌, if◌then◌else◌}
use mirror_mergiraf.Ast.{AstNode, Children, node, nil, cons, node_eq}

abbrev pub below : AstNode → Option (List AstNode) → Option (List AstNode)
below n none = none
below n (some path) = some (path ++ n ∷ [])

abbrev pub or_else : Option (List AstNode) → Option (List AstNode) → Option (List AstNode)
or_else none path = path
or_else (some path) other = some path

-- The nodes from a node up to the root of the tree in which it stands.
unfoldable mutual
  unfolding node_eq

  pub ancestors_in : AstNode → AstNode → Option (List AstNode)
  ancestors_in (node i ns) target =
      if node_eq (node i ns) target
      then some (node i ns ∷ [])
      else below (node i ns) (ancestors_in_any ns target)

  pub ancestors_in_any : Children → AstNode → Option (List AstNode)
  ancestors_in_any nil target = none
  ancestors_in_any (cons n ns) target = or_else (ancestors_in n target) (ancestors_in_any ns target)

abbrev pub nodes_of : Option (List AstNode) → List AstNode
nodes_of none = []
nodes_of (some path) = path

unfoldable pub ancestors : AstNode → AstNode → List AstNode
unfolding ancestors_in
ancestors root n = nodes_of (ancestors_in root n)

unfoldable pub is_root : AstNode → AstNode → Bool
unfolding node_eq
is_root root n = node_eq n root
