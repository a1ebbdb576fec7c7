-- ===== src/TreeBuilder/Sides.antt =====
-- The side of a conflict is a path of successors, and following it ends.
use mirror_mergiraf.Base.{
  ℕ, zero, suc, ◌+◌, ◌≤◌, ◌<◌, Bool, true, false, ◌⊎◌, inl, inr, Option, none, some, List, [], ◌∷◌,
  ◌++◌, ◌≡◌, refl, sym, ap, ◌∙◌, if◌then◌else◌, length, is_some, arith, append-nil, append_assoc,
  Bool-cases, Option-cases,
}
use mirror_mergiraf.Base.HashMap
use mirror_mergiraf.Base.HashMap.{set_contains, set_insert, beq_left, beq_right}
use mirror_mergiraf.Base.Run.{Run, done, Result, ok, err, Ends, Ends-imp}
use mirror_mergiraf.MultiMap
use mirror_mergiraf.MultiMap.{MultiMap}
use mirror_mergiraf.MultiMap.Laws.{set_contains_eq, set_contains-set_insert}
use mirror_mergiraf.Ast.{AstNode}
use mirror_mergiraf.Revision.{Revision}
use mirror_mergiraf.RevisionSet.{RevisionNeSet}
use mirror_mergiraf.Pcs.{
  Leader, PcsNode, virtual_root, left_marker, node, right_marker, pcs_node_eq,
}
use mirror_mergiraf.Pcs.Equality.{pcs_node_Eq, pcs_node_eq_sym}
use mirror_mergiraf.ClassMapping.{ClassMapping, node_at_rev}
use mirror_mergiraf.TreeBuilder.{
  SuccessorsCursor, Successors, successor_Eq, ConflictError, no_candidate, Side, successor_at,
  follow, extract_conflict_side,
}

-- The keys that have not been seen.
abbrev unseen_in : List PcsNode → List (PcsNode × SuccessorsCursor) → ℕ
unseen_in seen [] = 0
unseen_in seen ((k, set) ∷ m) = (if set_contains seen k then 0 else 1) + unseen_in seen m

abbrev pub unseen : List PcsNode → Successors → ℕ
unseen seen successors = unseen_in seen successors.map

pub unseen-le :
    (seen : List PcsNode) (m : List (PcsNode × SuccessorsCursor)) → unseen_in seen m ≤ length m
unseen-le seen [] = omega arith
unseen-le seen ((k, set) ∷ m) = ground (arith, unseen-le seen m)

unseen-set_insert_le :
    (c : PcsNode) (seen : List PcsNode) (m : List (PcsNode × SuccessorsCursor))
    → unseen_in (set_insert c seen) m ≤ unseen_in seen m
unseen-set_insert_le c seen [] = omega arith
unseen-set_insert_le c seen ((k, set) ∷ m) =
    ground (arith, set_contains-set_insert c k seen, unseen-set_insert_le c seen m)

-- To see a key for the first time leaves fewer unseen.
unseen-set_insert_lt :
    (c : PcsNode) (seen : List PcsNode) (m : List (PcsNode × SuccessorsCursor))
    (found : SuccessorsCursor)
    → set_contains seen c ≡ false
    → HashMap.get m c ≡ some found
    → unseen_in (set_insert c seen) m < unseen_in seen m
unfolding HashMap.get pcs_node_Eq
unseen-set_insert_lt c seen [] found new e = absurd (ground arith)
unseen-set_insert_lt c seen ((k, set) ∷ m) found new e = elim (Bool-cases (pcs_node_eq k c)) [
  | inl same ↦ ground (
    arith,
    set_contains-set_insert c k seen,
    set_contains_eq seen k c same,
    pcs_node_eq_sym k c same,
    unseen-set_insert_le c seen m,
  )
  | inr other ↦
      ground
        (arith, other, set_contains-set_insert c k seen, unseen-set_insert_lt c seen m found new)
]

-- Whether a node can come after another one at a revision: the end of the list of children can, and a
-- node of which the class has a node at the revision.
abbrev pub can_follow : ClassMapping → Revision → Option PcsNode → Bool
can_follow cm revision none = true
can_follow cm revision (some virtual_root) = false
can_follow cm revision (some left_marker) = false
can_follow cm revision (some right_marker) = true
can_follow cm revision (some (node s l)) = is_some (node_at_rev cm l revision)

module _ (cm : ClassMapping) (revision : Revision) (successors other_successors : Successors) where
  -- The node after another one at the revision.
  abbrev pub next_of : PcsNode → Option PcsNode
  next_of cursor = successor_at revision (MultiMap.get successors cursor)

  abbrev pub is_merged : PcsNode → Bool
  is_merged n = MultiMap.contains_key other_successors n

  -- A path of successors that are not on the other side, with their nodes at the revision.
  abbrev pub IsPath : PcsNode → List AstNode → PcsNode → Type 0
  IsPath from [] last = from ≡ last
  IsPath from (n ∷ ns) last =
      (s : RevisionNeSet) × (l : Leader) × (next_of from ≡ some (node s l))
      × (is_merged (node s l) ≡ false)
      × (node_at_rev cm l revision ≡ some n)
      × IsPath (node s l) ns last

  -- A side ends before a node that both sides have, or at the end of the list of children.
  abbrev pub EndsAt : PcsNode → SuccessorsCursor → Type 0
  EndsAt last end =
      (end ≡ MultiMap.get successors last)
      × (c : PcsNode) × (next_of last ≡ some c)
      × ((is_merged c ≡ true) ⊎ (c ≡ right_marker))

  abbrev pub SideFrom : PcsNode → List AstNode → Result ConflictError Side → Type 0
  SideFrom cursor result (err e) = Unit {0}
  SideFrom cursor result (ok side) =
      (ns : List AstNode) × (last : PcsNode) × (side.nodes ≡ result ++ ns)
      × IsPath cursor ns last
      × EndsAt last side.end

  round-none :
      (fuel : ℕ) (cursor : PcsNode) (result : List AstNode) (seen : List PcsNode)
      → next_of cursor ≡ none
      → extract_conflict_side cm revision successors other_successors (suc fuel) cursor result seen
        ≡ done (err no_candidate)
  unfolding extract_conflict_side
  round-none fuel cursor result seen e = rw (e, extract_conflict_side) refl

  round-merged :
      (fuel : ℕ) (cursor c : PcsNode) (result : List AstNode) (seen : List PcsNode)
      → next_of cursor ≡ some c
      → is_merged c ≡ true
      → extract_conflict_side cm revision successors other_successors (suc fuel) cursor result seen
        ≡ done (
            ok (record { end = MultiMap.get successors cursor; nodes = result; seen_nodes = seen }))
  unfolding extract_conflict_side
  round-merged fuel cursor c result seen e merged =
      rw (e, extract_conflict_side) (rw (merged, extract_conflict_side) refl)

  round-follow :
      (fuel : ℕ) (cursor c : PcsNode) (result : List AstNode) (seen : List PcsNode)
      → next_of cursor ≡ some c
      → is_merged c ≡ false
      → extract_conflict_side cm revision successors other_successors (suc fuel) cursor result seen
        ≡ follow cm revision successors other_successors
            (extract_conflict_side cm revision successors other_successors fuel)
            (MultiMap.get successors cursor)
            c
            result
            seen
  unfolding extract_conflict_side
  round-follow fuel cursor c result seen e other =
      rw (e, extract_conflict_side) (rw (other, extract_conflict_side) refl)

  -- A node that is no key has no successor.
  next_of-absent : (c : PcsNode) → HashMap.get successors.map c ≡ none → next_of c ≡ none
  unfolding MultiMap.get successor_at
  next_of-absent c absent = rw (absent, MultiMap.get) refl

  -- A node put before a path.
  SideFrom-after :
      (cursor : PcsNode) (s : RevisionNeSet) (l : Leader) (n : AstNode) (result : List AstNode)
      (r : Result ConflictError Side)
      → next_of cursor ≡ some (node s l)
      → is_merged (node s l) ≡ false
      → node_at_rev cm l revision ≡ some n
      → SideFrom (node s l) (result ++ n ∷ []) r
      → SideFrom cursor result r
  SideFrom-after cursor s l n result (err e) after other found p = tt
  SideFrom-after cursor s l n result (ok side) after other found (ns, last, nodes, path, end) = (
    n ∷ ns,
    last,
    nodes ∙ append_assoc result (n ∷ []) ns,
    (s, l, after, other, found, path),
    end,
  )

  -- What holds when a successor cannot follow is a parameter.
  module _ (S : Type 0) where
    last_round :
        (fuel : ℕ) (c : PcsNode) (result : List AstNode) (seen : List PcsNode)
        → 0 < fuel
        → next_of c ≡ none
        → Ends S
            (SideFrom c result)
            (extract_conflict_side cm revision successors other_successors fuel c result seen)
    last_round zero c result seen enough last = absurd (omega arith)
    last_round (suc fuel) c result seen enough last =
        rw (round-none fuel c result seen last, Ends) tt

    -- The rounds that follow are given.
    follow_lem :
        (rounds : PcsNode → List AstNode → List PcsNode → Run (Result ConflictError Side))
        (cursor c : PcsNode) (result : List AstNode) (seen : List PcsNode)
        → next_of cursor ≡ some c
        → is_merged c ≡ false
        → (can_follow cm revision (some c) ≡ false → S)
        → ((next : PcsNode) (result' : List AstNode)
            → set_contains seen next ≡ false
            → Ends S (SideFrom next result') (rounds next result' (set_insert next seen)))
        → Ends S (SideFrom cursor result) (
            follow cm revision successors other_successors rounds
              (MultiMap.get successors cursor)
              c
              result
              seen)
    unfolding follow
    follow_lem rounds cursor virtual_root result seen e other broken later = broken refl
    follow_lem rounds cursor left_marker result seen e other broken later = broken refl
    follow_lem rounds cursor right_marker result seen e other broken later =
        ([], cursor, sym (append-nil result), refl, (refl, right_marker, e, inr refl))
    follow_lem rounds cursor (node s l) result seen e other broken later =
        elim (Option-cases (node_at_rev cm l revision)) [
          | inl absent ↦ rw (absent, Ends) (broken (ap (is_some {A = AstNode}) absent))
          | inr (n, found) ↦
              rw (found, Ends)
                (elim (Bool-cases (set_contains seen (node s l))) [
                  | inl old ↦ rw (old, Ends) tt
                  | inr new ↦
                      rw (new, Ends)
                        (Ends-imp S _ (λ r. SideFrom-after cursor s l n result r e other found)
                          (later (node s l) (result ++ n ∷ []) new))
                ])
        ]

    module _
        (broken : (cursor : PcsNode) → can_follow cm revision (next_of cursor) ≡ false → S) where
      pub side_lem :
          (fuel : ℕ) (cursor : PcsNode) (result : List AstNode) (seen : List PcsNode)
          → unseen seen successors + 2 ≤ fuel
          → Ends S (SideFrom cursor result) (
              extract_conflict_side cm revision successors other_successors fuel cursor result seen)
      side_lem zero cursor result seen enough = absurd (omega arith)
      side_lem (suc fuel) cursor result seen enough = elim (Option-cases (next_of cursor)) [
        | inl last ↦ rw (round-none fuel cursor result seen last, Ends) tt
        | inr (c, e) ↦ elim (Bool-cases (is_merged c)) [
          | inl merged ↦
              rw (round-merged fuel cursor c result seen e merged, Ends)
                (([], cursor, sym (append-nil result), refl, (refl, c, e, inl merged)))
          | inr other ↦
              rw (round-follow fuel cursor c result seen e other, Ends)
                (follow_lem (extract_conflict_side cm revision successors other_successors fuel)
                  cursor c result seen e other
                  (λ b. broken cursor (ap (can_follow cm revision) e ∙ b))
                  (λ next result' new. elim (Option-cases (HashMap.get successors.map next)) [
                    | inl absent ↦
                        last_round fuel next result' _ (omega arith) (next_of-absent next absent)
                    | inr (set, present) ↦ side_lem fuel next result' (set_insert next seen) (
                        omega
                          (arith, unseen-set_insert_lt next seen successors.map set new present))
                  ]))
        ]
      ]
