-- ===== src/Ast/Examples.antt =====
-- Runs of the functions of src/ast.rs, and instances of the theorems about them.
use mirror_mergiraf.Base.{ℕ, ◌+◌, false, ◌&&◌, ◌==◌, ◌≤◌, none, [], ◌∷◌, ◌≡◌, refl, length, arith}
use mirror_mergiraf.Base.Run.{done}
use mirror_mergiraf.Ast.{
  AstNode, node, Children, nil, cons, info, dfs, isomorphic_to, is_leaf, agree, agree_all, height,
}
use mirror_mergiraf.Ast.Walk.{calculate_dfs, calculate_dfs_lem}
use mirror_mergiraf.Ast.Truncate.{truncate, IsCounted, weight, truncate-weight}
use mirror_mergiraf.Ast.Isomorphism.{iso, isomorphic_to_lem}

-- A node of the kind "n", with a source of one byte.
abbrev named : ℕ → ℕ → Children → AstNode
named id c ns =
    node
      (record {
        hash = 7;
        source = c ∷ [];
        kind = b'n' ∷ [];
        field_name = none;
        start = id;
        end = id + 1;
        id = id;
        is_extra = false;
        descendant_count = 3;
        lang_name = [];
      })
      ns

-- Two trees that differ in one leaf.
abbrev tree : AstNode
tree = named 0 b'x' (cons (named 1 b'a' nil) (cons (named 2 b'b' nil) nil))

abbrev other_tree : AstNode
other_tree = named 3 b'x' (cons (named 4 b'a' nil) (cons (named 5 b'c' nil) nil))

differ_in_leaf : isomorphic_to tree other_tree ≡ false
unfolding isomorphic_to dfs agree_all agree is_leaf
differ_in_leaf = refl

height-tree : height tree ≡ 1
unfolding height
height-tree = refl

isomorphic_to_lem_example :
    isomorphic_to tree other_tree
    ≡ ((info tree).hash == (info other_tree).hash && iso tree other_tree)
isomorphic_to_lem_example = isomorphic_to_lem tree other_tree

-- A tree of three nodes, each of which is counted.
abbrev counted : ℕ → ℕ → Children → AstNode
counted id size ns =
    node
      (record {
        hash = 7;
        source = [];
        kind = b'n' ∷ [];
        field_name = none;
        start = id;
        end = id + 1;
        id = id;
        is_extra = false;
        descendant_count = size;
        lang_name = [];
      })
      ns

abbrev counted_tree : AstNode
counted_tree = counted 0 3 (cons (counted 1 2 (cons (counted 2 1 nil) nil)) nil)

counted_tree-IsCounted : IsCounted counted_tree
unfolding IsCounted
counted_tree-IsCounted = (refl, ((refl, ((refl, tt), tt)), tt))

truncate-weight_example :
    weight (dfs (truncate counted_tree (λ n. (info n).id == 1)))
    ≡ (info counted_tree).descendant_count
truncate-weight_example =
    truncate-weight counted_tree (λ n. (info n).id == 1) counted_tree-IsCounted

three_nodes : length (dfs tree) ≤ 3
unfolding dfs
three_nodes = omega arith

calculate_dfs_lem_example : calculate_dfs 3 tree ≡ done (dfs tree)
calculate_dfs_lem_example = calculate_dfs_lem 3 tree three_nodes
