-- ===== src/ClassMapping.antt =====
-- `ClassMapping` of src/class_mapping.rs: classes of nodes of several revisions, each with a leader.
pub mod Bases
pub mod Kinds
mod Examples
use mirror_mergiraf.Base.{
  ℕ, ◌+◌, ◌%◌, Bool, true, false, not, ◌&&◌, leb, List, [], ◌∷◌, ◌++◌, Option, none, some,
  if◌then◌else◌, unwrap_or, is_some, map, foldl, find_map,
}
use mirror_mergiraf.Base.HashMap
use mirror_mergiraf.Base.HashMap.{Eq}
use mirror_mergiraf.Base.Text.{Text}
use mirror_mergiraf.Ast.{AstNode, info, children, node_eq}
use mirror_mergiraf.Matching.{Matching}
use mirror_mergiraf.Revision.{Revision, rev_eq, rev_eq_refl}
use mirror_mergiraf.RevisionSet
use mirror_mergiraf.RevisionSet.{RevisionNeSet}
use mirror_mergiraf.Pcs.{RevNode, Leader}
use mirror_mergiraf.Pcs.Equality.{rev_node_Eq, rev_eq_sym, rev_eq_trans}

instance unfoldable pub revision_Eq : Eq Revision
revision_Eq = record {
  beq = rev_eq;
  beq_refl = rev_eq_refl;
  beq_sym = rev_eq_sym;
  beq_trans = rev_eq_trans;
}

-- The derived order of revisions.
abbrev pub rev_lt : Revision → Revision → Bool
rev_lt Revision.base Revision.base = false
rev_lt Revision.base _ = true
rev_lt Revision.left Revision.right = true
rev_lt _ _ = false

-- The representatives of one class.
abbrev pub Representatives : Type 0
Representatives = List (Revision × RevNode)

pub record ClassMapping : Type 0 where
  pub representative2leader : List (RevNode × Leader)
  pub leader2representatives : List (Leader × Representatives)
  pub exact_matchings : List (Leader × ℕ)

unfoldable pub new : ClassMapping
new = record { representative2leader = []; leader2representatives = []; exact_matchings = [] }

abbrev pub rev_node : Revision → AstNode → RevNode
rev_node r n = record { rev = r; node = n }

unfoldable pub map_to_leader : ClassMapping → RevNode → Leader
map_to_leader cm rn = unwrap_or (HashMap.get cm.representative2leader rn) rn

-- Both nodes are matched to nodes of the base, and these differ.
abbrev pub distinct_bases : Option Leader → Option Leader → Bool
distinct_bases (some a) (some b) =
    rev_eq a.rev Revision.base && rev_eq b.rev Revision.base && not (node_eq a.node b.node)
distinct_bases _ _ = false

-- The condition for `continue`.
unfoldable pub is_inconsistent : ClassMapping → RevNode → RevNode → Bool
is_inconsistent cm left_rev_node right_rev_node =
    rev_eq left_rev_node.rev Revision.left
    && rev_eq right_rev_node.rev Revision.right
    && distinct_bases (HashMap.get cm.representative2leader left_rev_node)
        (HashMap.get cm.representative2leader right_rev_node)

-- The leader of the joined class, from those of the right and of the left node.
abbrev pub earlier : Leader → Leader → Leader
earlier leader_left leader_right =
    if rev_lt leader_left.rev leader_right.rev then leader_left else leader_right

-- The body of the loop after that. The counter is a `u8`.
unfoldable pub join : ClassMapping → RevNode → RevNode → Bool → ClassMapping
unfolding map_to_leader revision_Eq
join cm left_rev_node right_rev_node is_exact =
    let leader = earlier (map_to_leader cm right_rev_node) (map_to_leader cm left_rev_node) in
    let repr = unwrap_or (HashMap.get cm.leader2representatives leader) [] in
    record {
      representative2leader =
          HashMap.insert (HashMap.insert cm.representative2leader left_rev_node leader)
            right_rev_node leader;
      leader2representatives = HashMap.insert cm.leader2representatives leader (
          HashMap.insert (HashMap.insert repr right_rev_node.rev right_rev_node) left_rev_node.rev
            left_rev_node);
      exact_matchings =
          if is_exact && not (is_some (HashMap.get repr right_rev_node.rev))
          then HashMap.insert cm.exact_matchings leader
              ((unwrap_or (HashMap.get cm.exact_matchings leader) 0 + 1) % 256)
          else cm.exact_matchings;
    }

unfoldable pub add_pair : ClassMapping → RevNode → RevNode → Bool → ClassMapping
unfolding join is_inconsistent
add_pair cm left_rev_node right_rev_node is_exact =
    if is_inconsistent cm left_rev_node right_rev_node
    then cm
    else join cm left_rev_node right_rev_node is_exact

-- The loop over the pairs from right to left.
abbrev pub add_pairs :
    ClassMapping → List (AstNode × AstNode) → Revision → Revision → Bool → ClassMapping
unfolding add_pair
add_pairs cm [] from_rev to_rev is_exact = cm
add_pairs cm ((right_node, left_node) ∷ pairs) from_rev to_rev is_exact =
    add_pairs (add_pair cm (rev_node from_rev left_node) (rev_node to_rev right_node) is_exact)
      pairs from_rev to_rev is_exact

unfoldable pub add_matching : ClassMapping → Matching → Revision → Revision → Bool → ClassMapping
unfolding add_pairs
add_matching cm matching from_rev to_rev is_exact =
    add_pairs cm matching.right_to_left from_rev to_rev is_exact

unfoldable pub is_isomorphic_in_all_revisions : ClassMapping → Leader → Bool
is_isomorphic_in_all_revisions cm leader = elim (HashMap.get cm.exact_matchings leader) [
  | some n ↦ leb 2 n
  | none ↦ false
]

unfoldable pub internal_representatives : ClassMapping → Leader → Representatives
internal_representatives cm leader = unwrap_or (HashMap.get cm.leader2representatives leader) []

unfoldable pub revision_set : ClassMapping → Leader → RevisionNeSet
unfolding internal_representatives
revision_set cm leader =
    foldl (λ set p. RevisionSet.add_ne set p.0) (RevisionSet.singleton leader.rev)
      (internal_representatives cm leader)

abbrev pub or_leader : Leader → List RevNode → List RevNode
or_leader leader [] = leader ∷ []
or_leader leader (rn ∷ rns) = rn ∷ rns

unfoldable pub representatives : ClassMapping → Leader → List RevNode
unfolding internal_representatives
representatives cm leader = or_leader leader (map (λ p. p.1) (internal_representatives cm leader))

-- The node of the class at a revision, with the leader tried first.
unfoldable pub representative_at : ClassMapping → Leader → Revision → Option RevNode
unfolding internal_representatives revision_Eq
representative_at cm leader revision =
    if rev_eq leader.rev revision
    then some leader
    else HashMap.get (internal_representatives cm leader) revision

unfoldable pub children_at_revision : ClassMapping → Leader → Revision → Option (List Leader)
unfolding representative_at map_to_leader
children_at_revision cm leader revision = elim (representative_at cm leader revision) [
  | some repr ↦ some (map (λ c. map_to_leader cm (rev_node revision c)) (children repr.node))
  | none ↦ none
]

unfoldable pub node_at_rev : ClassMapping → Leader → Revision → Option AstNode
unfolding representative_at
node_at_rev cm leader picked_revision = elim (representative_at cm leader picked_revision) [
  | some repr ↦ some repr.node
  | none ↦ none
]

unfoldable pub field_name : ClassMapping → Leader → Option Text
unfolding internal_representatives
field_name cm leader = elim ((info leader.node).field_name) [
  | some name ↦ some name
  | none ↦ find_map (λ p. (info p.1.node).field_name) (internal_representatives cm leader)
]
