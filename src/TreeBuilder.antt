-- ===== src/TreeBuilder.antt =====
-- src/tree_builder.rs: successors of nodes in several revisions, and the sides of a conflict.
pub mod Sides
pub mod Conflicts
pub mod Commutative
mod Examples
use mirror_mergiraf.Base.{
  ℕ, zero, suc, ◌+◌, ◌≡◌, arith, Bool, true, false, not, ◌&&◌, ◌||◌, Option, none, some, List, [],
  ◌∷◌, ◌++◌, if◌then◌else◌, length, map, all, find_map, unwrap_or,
}
use mirror_mergiraf.Base.HashMap
use mirror_mergiraf.Base.HashMap.{Eq, set_contains, set_insert}
use mirror_mergiraf.Base.Run.{Run, done, panicked, out_of_fuel, Result, ok, err, expect, ◌>>=◌}
use mirror_mergiraf.MultiMap
use mirror_mergiraf.MultiMap.{MultiMap}
use mirror_mergiraf.Ast.{AstNode}
use mirror_mergiraf.Revision.{Revision, rev_eq, rev_eq_refl}
use mirror_mergiraf.ChangeSet
use mirror_mergiraf.ChangeSet.{ChangeSet}
use mirror_mergiraf.Pcs.{PcsNode, pcs_node_eq, virtual_root, left_marker, node, right_marker, Pcs}
use mirror_mergiraf.Pcs.Equality.{
  pcs_node_Eq, pcs_node_eq_refl, pcs_node_eq_sym, pcs_node_eq_trans, rev_eq_sym, rev_eq_trans,
}
use mirror_mergiraf.ClassMapping.{ClassMapping, node_at_rev, revision_Eq}

abbrev pub successor_eq : Revision × PcsNode → Revision × PcsNode → Bool
successor_eq (r, n) (q, m) = rev_eq r q && pcs_node_eq n m

pub successor_eq_refl : (a : Revision × PcsNode) → successor_eq a a ≡ true
successor_eq_refl (r, n) = ground (arith, rev_eq_refl r, pcs_node_eq_refl n)

pub successor_eq_sym :
    (a b : Revision × PcsNode) → successor_eq a b ≡ true → successor_eq b a ≡ true
successor_eq_sym (r, n) (q, m) h = ground (arith, rev_eq_sym r q, pcs_node_eq_sym n m)

pub successor_eq_trans :
    (a b c : Revision × PcsNode)
    → successor_eq a b ≡ true
    → successor_eq b c ≡ true
    → successor_eq a c ≡ true
successor_eq_trans (r, n) (q, m) (p, l) h k =
    ground (arith, rev_eq_trans r q p, pcs_node_eq_trans n m l)

instance unfoldable pub successor_Eq : Eq (Revision × PcsNode)
successor_Eq = record {
  beq = successor_eq;
  beq_refl = successor_eq_refl;
  beq_sym = successor_eq_sym;
  beq_trans = successor_eq_trans;
}

-- The successors of a node, each with the revision of the triple.
abbrev pub SuccessorsCursor : Type 0
SuccessorsCursor = List (Revision × PcsNode)

abbrev pub Successors : Type 0
Successors = MultiMap PcsNode (Revision × PcsNode)

abbrev pub SuccessorMap : Type 0
SuccessorMap = List (PcsNode × Successors)

-- `entry(pcs.parent).or_default()` for each triple, and an insertion into that map.
unfoldable pub index_successors : SuccessorMap → List Pcs → SuccessorMap
unfolding pcs_node_Eq successor_Eq MultiMap.insert MultiMap.new
index_successors m [] = m
index_successors m (pcs ∷ triples) =
    let parent_map = unwrap_or (HashMap.get m pcs.parent) MultiMap.new in
    index_successors
      (HashMap.insert m pcs.parent
        (MultiMap.insert parent_map pcs.predecessor (pcs.revision, pcs.successor)).0)
      triples

unfoldable pub new : ChangeSet → SuccessorMap
unfolding index_successors ChangeSet.iter
new changeset = index_successors [] (ChangeSet.iter changeset)

unfoldable pub get : SuccessorMap → PcsNode → Successors
unfolding pcs_node_Eq MultiMap.new
get m parent = unwrap_or (HashMap.get m parent) MultiMap.new

-- The messages of the errors are told apart by these.
pub data ConflictError : Type 0 where
  no_candidate loop_detected ends_differ : ConflictError

-- What a side of a conflict comes to: the successors at its end, its nodes, and `seen_nodes` after it.
pub record Side : Type 0 where
  pub end : SuccessorsCursor
  pub nodes : List AstNode
  pub seen_nodes : List PcsNode

-- The successor at one revision.
unfoldable pub successor_at : Revision → SuccessorsCursor → Option PcsNode
successor_at revision [] = none
successor_at revision ((r, n) ∷ all_successors) =
    if rev_eq r revision then some n else successor_at revision all_successors

module _ (cm : ClassMapping) (revision : Revision) (successors other_successors : Successors) where
  -- The last part of the loop's body. The function stands for the rounds that follow.
  unfoldable pub follow :
      (PcsNode → List AstNode → List PcsNode → Run (Result ConflictError Side))
      → SuccessorsCursor
      → PcsNode
      → List AstNode
      → List PcsNode
      → Run (Result ConflictError Side)
  unfolding pcs_node_Eq
  follow rounds all_successors virtual_root result seen = panicked
  follow rounds all_successors left_marker result seen = panicked
  follow rounds all_successors right_marker result seen =
      done (ok (record { end = all_successors; nodes = result; seen_nodes = seen }))
  follow rounds all_successors (node revisions leader) result seen =
      expect (node_at_rev cm leader revision) >>= λ representative.
      if set_contains seen (node revisions leader)
      then done (err loop_detected)
      else rounds (node revisions leader) (result ++ representative ∷ [])
          (set_insert (node revisions leader) seen)

  -- The fuel bounds the rounds.
  unfoldable pub extract_conflict_side :
      ℕ → PcsNode → List AstNode → List PcsNode → Run (Result ConflictError Side)
  unfolding pcs_node_Eq successor_Eq
  extract_conflict_side zero cursor result seen = out_of_fuel
  extract_conflict_side (suc fuel) cursor result seen =
      let all_successors = MultiMap.get successors cursor in
      elim (successor_at revision all_successors) [
        | none ↦ done (err no_candidate)
        | some candidate ↦ elim (MultiMap.contains_key other_successors candidate) [
          | true ↦ done (ok (record { end = all_successors; nodes = result; seen_nodes = seen }))
          | false ↦ follow (extract_conflict_side fuel) all_successors candidate result seen
        ]
      ]

-- The nodes of a conflict, and the successors at the ends of its sides.
pub record BuiltConflict : Type 0 where
  pub end : SuccessorsCursor
  pub base : List AstNode
  pub left : List AstNode
  pub right : List AstNode
  pub seen_nodes : List PcsNode

-- The nodes of a set of successors, as a set.
abbrev pub strip_revs : SuccessorsCursor → List PcsNode
strip_revs end = map (λ p. p.1) end

abbrev pub subset : List PcsNode → List PcsNode → Bool
subset ns ms = all (λ n. set_contains ms n) ns

unfoldable pub same_nodes : SuccessorsCursor → SuccessorsCursor → Bool
unfolding pcs_node_Eq
same_nodes a b = subset (strip_revs a) (strip_revs b) && subset (strip_revs b) (strip_revs a)

-- The comparison of the three ends.
unfoldable pub compare_ends : Side → Side → Side → Result ConflictError BuiltConflict
compare_ends left right base =
    if not (same_nodes base.end left.end) || not (same_nodes base.end right.end)
    then err ends_differ
    else ok (record {
      end = base.end;
      base = base.nodes;
      left = left.nodes;
      right = right.nodes;
      seen_nodes = base.seen_nodes;
    })

-- `?` on an inner result.
abbrev pub and_then :
    Result ConflictError Side
    → (Side → Run (Result ConflictError BuiltConflict))
    → Run (Result ConflictError BuiltConflict)
and_then (err e) f = done (err e)
and_then (ok side) f = f side

-- Rounds for each key of the map, one more for a node that is no key, and one to end.
abbrev pub rounds_for : Successors → ℕ
rounds_for successors = length successors.map + 2

unfoldable pub build_conflict :
    ClassMapping
    → PcsNode
    → Successors
    → Successors
    → List PcsNode
    → Run (Result ConflictError BuiltConflict)
build_conflict cm predecessor merged_successors base_successors seen_nodes =
    extract_conflict_side cm Revision.left merged_successors base_successors
      (rounds_for merged_successors) predecessor [] seen_nodes
    >>= λ l. and_then l λ left.
      extract_conflict_side cm Revision.right merged_successors base_successors
        (rounds_for merged_successors) predecessor [] left.seen_nodes
      >>= λ r. and_then r λ right.
        extract_conflict_side cm Revision.base base_successors merged_successors
          (rounds_for base_successors) predecessor [] right.seen_nodes
        >>= λ b. and_then b λ base. done (compare_ends left right base)
