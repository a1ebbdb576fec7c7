-- ===== src/Matching.antt =====
-- src/matching.rs: a one-to-one relation between the nodes of two trees.
pub mod OneToOne
pub mod SameKind
pub mod Extend
mod Examples
use mirror_mergiraf.Base.{
  ℕ, ◌+◌, ◌++◌, map, zip, Bool, true, false, not, ◌&&◌, ◌||◌, List, [], ◌∷◌, Option, none, some,
  if◌then◌else◌, is_some, length,
}
use mirror_mergiraf.Base.HashMap
use mirror_mergiraf.Base.HashMap.{nat_Eq}
use mirror_mergiraf.Base.Text.{text_eq}
use mirror_mergiraf.Ast.{AstNode, info, is_leaf, node_eq, dfs, own_weight}
use mirror_mergiraf.Ast.Equality.{node_Eq}

-- A map from nodes to nodes.
abbrev pub NodeMap : Type 0
NodeMap = List (AstNode × AstNode)

pub record Matching : Type 0 where
  pub left_to_right : NodeMap
  pub right_to_left : NodeMap

unfoldable pub new : Matching
new = record { left_to_right = []; right_to_left = [] }

unfoldable pub get_from_left : Matching → AstNode → Option AstNode
get_from_left m from = HashMap.get m.left_to_right from

unfoldable pub get_from_right : Matching → AstNode → Option AstNode
get_from_right m from = HashMap.get m.right_to_left from

-- `== Some(to)`
abbrev pub is_node : Option AstNode → AstNode → Bool
unfolding node_eq
is_node none to = false
is_node (some found) to = node_eq found to

unfoldable pub are_matched : Matching → AstNode → AstNode → Bool
unfolding get_from_left is_node
are_matched m from to = is_node (get_from_left m from) to

unfoldable pub can_be_matched : Matching → AstNode → AstNode → Bool
unfolding HashMap.get is_leaf
can_be_matched m from to =
    text_eq (info from).kind (info to).kind
    && text_eq (info from).lang_name (info to).lang_name
    && not (is_some (HashMap.get m.left_to_right from))
    && not (is_some (HashMap.get m.right_to_left to))
    && (not (is_leaf from) || not (is_leaf to) || text_eq (info from).source (info to).source)

-- One half of `remove`: the entry of a node in one map, and of its match in the other.
unfoldable pub remove_entry : NodeMap → NodeMap → AstNode → NodeMap × NodeMap
remove_entry there back from = elim (HashMap.get there from) [
  | some other ↦ (HashMap.remove there from, HashMap.remove back other)
  | none ↦ (there, back)
]

unfoldable pub remove : Matching → AstNode → AstNode → Matching
unfolding remove_entry
remove m from to =
    let without_from = remove_entry m.left_to_right m.right_to_left from in
    let without_to = remove_entry without_from.1 without_from.0 to in
    record { left_to_right = without_to.1; right_to_left = without_to.0 }

-- As built without debug assertions, which want one kind and one language of both nodes.
unfoldable pub add : Matching → AstNode → AstNode → Matching
unfolding remove
add m from to =
    let removed = remove m from to in
    record {
      left_to_right = HashMap.insert removed.left_to_right from to;
      right_to_left = HashMap.insert removed.right_to_left to from;
    }

-- `HashMap::extend`
unfoldable pub extend_map : NodeMap → NodeMap → NodeMap
extend_map m [] = m
extend_map m ((k, v) ∷ pairs) = extend_map (HashMap.insert m k v) pairs

abbrev pub swap : AstNode × AstNode → AstNode × AstNode
swap (l, r) = (r, l)

unfoldable pub remove_all : Matching → List (AstNode × AstNode) → Matching
remove_all m [] = m
remove_all m ((l, r) ∷ pairs) = remove_all (remove m l r) pairs

-- As built without the debug assertions, which are those of `add`.
unfoldable pub extend : Matching → List (AstNode × AstNode) → Matching
unfolding remove_all extend_map
extend m pairs =
    let removed = remove_all m pairs in
    record {
      left_to_right = extend_map removed.left_to_right pairs;
      right_to_left = extend_map removed.right_to_left (map swap pairs);
    }

unfoldable pub add_matching : Matching → Matching → Matching
unfolding remove_all extend_map
add_matching m other =
    let removed = remove_all m (map swap other.right_to_left) in
    record {
      left_to_right = extend_map removed.left_to_right other.left_to_right;
      right_to_left = extend_map removed.right_to_left other.right_to_left;
    }

abbrev pub submatches : NodeMap → List (AstNode × AstNode)
unfolding dfs
submatches [] = []
submatches ((l, r) ∷ pairs) = zip (dfs l) (dfs r) ++ submatches pairs

unfoldable pub add_submatches : Matching → Matching
unfolding submatches extend_map
add_submatches m = record {
  left_to_right = extend_map [] (submatches m.left_to_right);
  right_to_left = extend_map [] (map swap (submatches m.left_to_right));
}

-- `index_tree`: a later node takes the place of an earlier one with its id.
unfoldable pub index_nodes : List (ℕ × AstNode) → List AstNode → List (ℕ × AstNode)
index_nodes m [] = m
index_nodes m (n ∷ ns) = index_nodes (HashMap.insert m (info n).id n) ns

unfoldable pub index_tree : AstNode → List (ℕ × AstNode)
unfolding dfs index_nodes nat_Eq
index_tree n = index_nodes [] (dfs n)

abbrev pub add_translated : Matching → Option AstNode → Option AstNode → Matching
unfolding add
add_translated m none left_mapped = m
add_translated m (some right_mapped) none = m
add_translated m (some right_mapped) (some left_mapped) = add m left_mapped right_mapped

-- The loop of `translate`, over the pairs of `iter_right_to_left`.
unfoldable pub translate_pairs :
    List (ℕ × AstNode) → List (ℕ × AstNode) → Matching → NodeMap → Matching
unfolding add_translated HashMap.get nat_Eq
translate_pairs mapping_left mapping_right m [] = m
translate_pairs mapping_left mapping_right m ((right, left) ∷ pairs) =
    translate_pairs mapping_left mapping_right
      (add_translated m (HashMap.get mapping_right (info right).id)
        (HashMap.get mapping_left (info left).id))
      pairs

unfoldable pub translate : Matching → AstNode → AstNode → Matching
unfolding translate_pairs index_tree
translate m new_left new_right =
    translate_pairs (index_tree new_left) (index_tree new_right) new m.right_to_left

unfoldable pub weight_in : List AstNode → Option AstNode → ℕ
unfolding own_weight node_Eq
weight_in descendants none = 0
weight_in descendants (some mapped) =
    if HashMap.set_contains descendants mapped then own_weight mapped else 0

-- `left_matched` and `right_matched`
unfoldable pub left_matched : Matching → List ℕ
left_matched m = map (λ p. (info p.0).id) m.left_to_right

unfoldable pub right_matched : Matching → List ℕ
right_matched m = map (λ p. (info p.0).id) m.right_to_left

unfoldable pub as_ids : Matching → List (ℕ × ℕ)
as_ids m = map (λ p. ((info p.0).id, (info p.1).id)) m.left_to_right

-- The summed weights that `dice` counts: of the matches of some nodes, those among others.
unfoldable pub mapped_weight : Matching → List AstNode → List AstNode → ℕ
unfolding get_from_left weight_in
mapped_weight m right_descendants [] = 0
mapped_weight m right_descendants (n ∷ ns) =
    weight_in right_descendants (get_from_left m n) + mapped_weight m right_descendants ns

-- The numbers that `dice` divides: twice the first by the second, as floats.
unfoldable pub dice : Matching → AstNode → AstNode → ℕ × ℕ
unfolding mapped_weight dfs
dice m left right = (
  mapped_weight m (dfs right) (dfs left),
  (info left).descendant_count + (info right).descendant_count,
)

unfoldable pub len : Matching → ℕ
len m = length m.left_to_right

-- `compose_base_left_and_base_right`, the loop over `base_left` from right to left.
abbrev pub compose_onto : Matching → NodeMap → Matching → Matching
unfolding get_from_left
compose_onto base_right [] composed = composed
compose_onto base_right ((source, target) ∷ pairs) composed =
    compose_onto base_right pairs (step (get_from_left base_right target))
  where
    step : Option AstNode → Matching
    step (some final_target) = record {
      left_to_right = HashMap.insert composed.left_to_right source final_target;
      right_to_left = HashMap.insert composed.right_to_left final_target source;
    }
    step none = composed

unfoldable pub compose_base_left_and_base_right : Matching → Matching → Matching
unfolding compose_onto
compose_base_left_and_base_right base_left base_right =
    compose_onto base_right base_left.right_to_left new
