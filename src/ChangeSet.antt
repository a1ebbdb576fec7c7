-- ===== src/ChangeSet.antt =====
-- src/changeset.rs: a set of PCS triples, with an index on each of the three components.
pub mod Refines
pub mod Inconsistent
pub mod Tree
pub mod Examples
use mirror_mergiraf.Base.{
  ℕ, Bool, true, false, not, ◌&&◌, ◌||◌, List, [], ◌∷◌, ◌++◌, filter, if◌then◌else◌,
}
use mirror_mergiraf.Base.HashMap.{Eq}
use mirror_mergiraf.MultiMap
use mirror_mergiraf.MultiMap.{MultiMap}
use mirror_mergiraf.Pcs.{PcsNode, virtual_root, left_marker, node, right_marker, Pcs, pcs_node_eq}
use mirror_mergiraf.Pcs.Equality.{pcs_node_Eq, pcs_Eq}

pub record ChangeSet : Type 0 where
  pub predecessors : MultiMap PcsNode Pcs
  pub successors : MultiMap PcsNode Pcs
  pub children : MultiMap PcsNode Pcs

unfoldable pub new : ChangeSet
new = record { predecessors = MultiMap.new; successors = MultiMap.new; children = MultiMap.new }

unfoldable pub add : ChangeSet → Pcs → ChangeSet
add cs p = record {
  predecessors = (MultiMap.insert cs.predecessors p.successor p).0;
  successors = (MultiMap.insert cs.successors p.predecessor p).0;
  children = (MultiMap.insert cs.children p.parent p).0;
}

abbrev pub is_node : PcsNode → Bool
is_node (node _ _) = true
is_node _ = false

-- The triples with a node of the tree among their siblings, and another parent.
abbrev pub other_roots_at : ChangeSet → Pcs → PcsNode → List Pcs
other_roots_at cs p n =
    if is_node n
    then filter (λ other. not (pcs_node_eq other.parent p.parent))
        (MultiMap.get cs.successors n ++ MultiMap.get cs.predecessors n)
    else []

unfoldable pub other_roots : ChangeSet → Pcs → List Pcs
other_roots cs p = other_roots_at cs p p.predecessor ++ other_roots_at cs p p.successor

unfoldable pub other_successors : ChangeSet → Pcs → List Pcs
other_successors cs p =
    filter
      (λ other.
        not (pcs_node_eq other.successor p.successor)
        && pcs_node_eq other.predecessor p.predecessor)
      (MultiMap.get cs.children p.parent)

abbrev pub bool_ne : Bool → Bool → Bool
bool_ne true b = not b
bool_ne false b = b

-- One of the two siblings is the same, and not the other.
abbrev pub differs : Pcs → Pcs → Bool
differs p other =
    bool_ne (pcs_node_eq other.predecessor p.predecessor) (pcs_node_eq other.successor p.successor)

unfoldable pub inconsistent_triples : ChangeSet → Pcs → List Pcs
inconsistent_triples cs p =
    filter (differs p) (MultiMap.get cs.children p.parent) ++ other_roots cs p

-- The triples, through the index on predecessors.
unfoldable pub iter : ChangeSet → List Pcs
iter cs = MultiMap.values cs.successors

-- `len` counts the keys of that index.
unfoldable pub len : ChangeSet → ℕ
len cs = MultiMap.len cs.successors
