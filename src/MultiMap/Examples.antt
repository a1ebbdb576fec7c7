-- ===== src/MultiMap/Examples.antt =====
-- An instance of the theorem about src/multimap.rs, for a map from nodes to nodes.
use mirror_mergiraf.Base.{◌&&◌, List, [], ◌∷◌, ◌≡◌, any}
use mirror_mergiraf.Base.HashMap.{set_contains}
use mirror_mergiraf.MultiMap.{get, from_iter}
use mirror_mergiraf.MultiMap.Laws.{get-from_iter}
use mirror_mergiraf.Pcs.{PcsNode, virtual_root, left_marker, right_marker}
use mirror_mergiraf.Pcs.Equality.{pcs_node_Eq}

abbrev pairs : List (PcsNode × PcsNode)
pairs =
    (virtual_root, left_marker) ∷ (left_marker, right_marker) ∷ (virtual_root, right_marker) ∷ []

get-from_iter_example :
    set_contains (get (from_iter pairs) virtual_root) right_marker
    ≡ any (λ p. pcs_node_Eq.beq p.0 virtual_root && pcs_node_Eq.beq p.1 right_marker) pairs
get-from_iter_example = get-from_iter pairs virtual_root right_marker
