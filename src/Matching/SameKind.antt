-- ===== src/Matching/SameKind.antt =====
-- Matched nodes have the same kind: of what the debug assertions of src/matching.rs want, the half
-- without the languages.
use mirror_mergiraf.Base.{
  Bool, true, List, [], ◌∷◌, ◌≡◌, refl, arith, map, all, Bool-cases, Option-cases, inl, inr,
}
use mirror_mergiraf.Base.HashMap
use mirror_mergiraf.Base.Text.{text_eq}
use mirror_mergiraf.Ast.{AstNode, node, info, node_eq}
use mirror_mergiraf.Ast.Equality.{node_Eq, text_eq_trans, text_eq_sym}
use mirror_mergiraf.Matching.{
  NodeMap, Matching, new, swap, remove_entry, remove, add, remove_all, extend_map, extend,
  add_matching,
}

abbrev pub same_kind : AstNode × AstNode → Bool
same_kind (a, b) = text_eq (info a).kind (info b).kind

-- All entries of both maps are pairs of one kind.
pub record SameKind (m : Matching) : Type 0 where
  pub left : all same_kind m.left_to_right ≡ true
  pub right : all same_kind m.right_to_left ≡ true

pub kind_of_node_eq :
    (a b : AstNode) → node_eq a b ≡ true → text_eq (info a).kind (info b).kind ≡ true
unfolding node_eq
kind_of_node_eq (node i _) (node j _) h = ground arith

insert-same_kind :
    (m : NodeMap) (k v : AstNode)
    → all same_kind m ≡ true
    → same_kind (k, v) ≡ true
    → all same_kind (HashMap.insert m k v) ≡ true
unfolding HashMap.insert node_Eq
insert-same_kind [] k v h e = ground arith
insert-same_kind ((j, w) ∷ m) k v h e = elim (Bool-cases (node_eq j k)) [
  | inl found ↦ rw found (
      ground
        (arith, kind_of_node_eq j k found, text_eq_trans (info j).kind (info k).kind (info v).kind))
  | inr other ↦ rw other (ground (arith, insert-same_kind m k v))
]

remove-same_kind :
    (m : NodeMap) (k : AstNode) → all same_kind m ≡ true → all same_kind (HashMap.remove m k) ≡ true
unfolding HashMap.remove node_Eq
remove-same_kind [] k h = refl
remove-same_kind ((j, w) ∷ m) k h = ground (arith, remove-same_kind m k)

remove_entry-same_kind :
    (there back : NodeMap) (k : AstNode)
    → all same_kind there ≡ true
    → all same_kind back ≡ true
    → (all same_kind (remove_entry there back k).0 ≡ true)
      × (all same_kind (remove_entry there back k).1 ≡ true)
unfolding remove_entry
remove_entry-same_kind there back k h i = elim (Option-cases (HashMap.get there k)) [
  | inl absent ↦ rw (absent, remove_entry) ((h, i))
  | inr (other, found) ↦
      rw (found, remove_entry) ((remove-same_kind there k h, remove-same_kind back other i))
]

pub remove-SameKind : (m : Matching) (from to : AstNode) → SameKind m → SameKind (remove m from to)
unfolding remove
remove-SameKind m from to s =
    let first = remove_entry-same_kind m.left_to_right m.right_to_left from s.left s.right in
    let without_from = remove_entry m.left_to_right m.right_to_left from in
    let second = remove_entry-same_kind without_from.1 without_from.0 to first.1 first.0 in
    record { left = second.1; right = second.0 }

pub remove_all-SameKind :
    (m : Matching) (pairs : List (AstNode × AstNode)) → SameKind m → SameKind (remove_all m pairs)
unfolding remove_all
remove_all-SameKind m [] s = s
remove_all-SameKind m ((l, r) ∷ pairs) s =
    remove_all-SameKind (remove m l r) pairs (remove-SameKind m l r s)

extend_map-same_kind :
    (m pairs : NodeMap)
    → all same_kind m ≡ true
    → all same_kind pairs ≡ true
    → all same_kind (extend_map m pairs) ≡ true
unfolding extend_map
extend_map-same_kind m [] h i = h
extend_map-same_kind m ((k, v) ∷ pairs) h i =
    extend_map-same_kind (HashMap.insert m k v) pairs (insert-same_kind m k v h (ground arith))
      (ground arith)

swap-same_kind :
    (pairs : List (AstNode × AstNode))
    → all same_kind pairs ≡ true
    → all same_kind (map swap pairs) ≡ true
swap-same_kind [] h = refl
swap-same_kind ((l, r) ∷ pairs) h =
    ground (arith, swap-same_kind pairs, text_eq_sym (info l).kind (info r).kind)

pub new-SameKind : SameKind new
unfolding new
new-SameKind = record { left = refl; right = refl }

pub extend-SameKind :
    (m : Matching) (pairs : List (AstNode × AstNode))
    → SameKind m
    → all same_kind pairs ≡ true
    → SameKind (extend m pairs)
unfolding extend
extend-SameKind m pairs s h =
    let removed = remove_all-SameKind m pairs s in
    record {
      left = extend_map-same_kind (remove_all m pairs).left_to_right pairs removed.left h;
      right =
          extend_map-same_kind (remove_all m pairs).right_to_left (map swap pairs) removed.right
            (swap-same_kind pairs h);
    }

pub add_matching-SameKind :
    (m other : Matching) → SameKind m → SameKind other → SameKind (add_matching m other)
unfolding add_matching
add_matching-SameKind m other s o =
    let removed = remove_all-SameKind m (map swap other.right_to_left) s in
    record {
      left = extend_map-same_kind _ other.left_to_right removed.left o.left;
      right = extend_map-same_kind _ other.right_to_left removed.right o.right;
    }

pub add-SameKind :
    (m : Matching) (from to : AstNode)
    → SameKind m
    → same_kind (from, to) ≡ true
    → SameKind (add m from to)
unfolding add
add-SameKind m from to s h =
    let removed = remove-SameKind m from to s in
    record {
      left = insert-same_kind _ from to removed.left h;
      right =
          insert-same_kind _ to from removed.right (text_eq_sym (info from).kind (info to).kind h);
    }
