-- ===== src/Ast.antt =====
-- src/ast.rs: the nodes of a syntax tree, and walks over it.
pub mod Walk
pub mod Isomorphism
pub mod Equality
pub mod Ancestors
pub mod Truncate
mod Examples
use mirror_mergiraf.Base.{
  ℕ, zero, suc, ◌+◌, ◌-◌, max, Bool, true, false, ◌&&◌, ◌||◌, not, Option, none, some, List, [],
  ◌∷◌, ◌++◌, ◌==◌, length, all, map, sum, if◌then◌else◌,
}
use mirror_mergiraf.Base.Text.{Text, text_eq}
use mirror_mergiraf.Base.Run.{Run, done, out_of_fuel}

-- The fields of `struct AstNode` but its children, its parent and what is computed from them. The
-- language profile is known by its name.
pub record Info : Type 0 where
  pub hash : ℕ
  pub source : Text
  pub kind : Text
  pub field_name : Option Text
  pub start : ℕ
  pub end : ℕ
  pub id : ℕ
  pub is_extra : Bool
  pub descendant_count : ℕ
  pub lang_name : Text

mutual
  pub data AstNode : Type 0 where
    node : Info → Children → AstNode

  pub data Children : Type 0 where
    nil : Children
    cons : AstNode → Children → Children

abbrev pub info : AstNode → Info
info (node i _) = i

abbrev pub to_list : Children → List AstNode
to_list nil = []
to_list (cons n ns) = n ∷ to_list ns

abbrev pub children : AstNode → List AstNode
children (node _ ns) = to_list ns

unfoldable pub is_leaf : AstNode → Bool
is_leaf (node _ nil) = true
is_leaf (node _ (cons _ _)) = false

-- `==` of the derived and written `PartialEq` on nodes
unfoldable pub node_eq : AstNode → AstNode → Bool
node_eq (node a _) (node b _) =
    a.hash == b.hash
    && a.id == b.id
    && text_eq a.kind b.kind
    && text_eq a.lang_name b.lang_name
    && (a.start == b.start && a.end == b.end)

-- `max().map_or(0, |x| x + 1)` over the heights of the children: 0 if there is none
unfoldable mutual
  pub height : AstNode → ℕ
  height (node _ ns) = height_above ns

  pub height_above : Children → ℕ
  height_above nil = 0
  height_above (cons n ns) = max (height n + 1) (height_above ns)

unfoldable pub own_weight : AstNode → ℕ
own_weight n = (info n).descendant_count - sum (map (λ c. (info c).descendant_count) (children n))

-- The nodes in the order that `internal_precompute_root_dfs` lays them out: each before its children.
unfoldable mutual
  pub dfs : AstNode → List AstNode
  dfs (node i ns) = node i ns ∷ dfs_all ns

  pub dfs_all : Children → List AstNode
  dfs_all nil = []
  dfs_all (cons n ns) = dfs n ++ dfs_all ns

-- The nodes in the order of `PostfixIterator`: each after its children.
unfoldable mutual
  pub postfix : AstNode → List AstNode
  postfix (node i ns) = postfix_all ns ++ node i ns ∷ []

  pub postfix_all : Children → List AstNode
  postfix_all nil = []
  postfix_all (cons n ns) = postfix n ++ postfix_all ns

-- The test of `isomorphic_to` on the nodes that the two walks meet at the same time.
unfoldable pub agree : AstNode → AstNode → Bool
unfolding is_leaf
agree a b =
    text_eq (info a).kind (info b).kind
    && length (children a) == length (children b)
    && (not (is_leaf a) || text_eq (info a).source (info b).source)

-- `zip` stops at the end of the shorter walk.
unfoldable pub agree_all : List AstNode → List AstNode → Bool
unfolding agree
agree_all [] bs = true
agree_all (a ∷ rest) [] = true
agree_all (a ∷ rest) (b ∷ bs) = agree a b && agree_all rest bs

unfoldable pub isomorphic_to : AstNode → AstNode → Bool
unfolding dfs agree_all
isomorphic_to a b = (info a).hash == (info b).hash && agree_all (dfs a) (dfs b)
