-- ===== src/TreeBuilder/Conflicts.antt =====
-- A conflict has three sides that end before the same nodes, and looking for it ends.
use mirror_mergiraf.Base.{true, false, ◌⊎◌, List, ◌≡◌}
use mirror_mergiraf.Base.Run.{Run, Result, ok, err}
use mirror_mergiraf.MultiMap
use mirror_mergiraf.MultiMap.{MultiMap}
use mirror_mergiraf.Ast.{AstNode}
use mirror_mergiraf.Revision.{Revision}
use mirror_mergiraf.Pcs.{PcsNode}
use mirror_mergiraf.Pcs.Equality.{pcs_node_Eq}
use mirror_mergiraf.ClassMapping.{ClassMapping}
use mirror_mergiraf.TreeBuilder.{
  Successors, successor_Eq, ConflictError, Side, BuiltConflict, same_nodes,
}
use mirror_mergiraf.TreeBuilder.Sides.{can_follow, next_of, IsPath, EndsAt, SideFrom}

-- A conflict that is built from one predecessor: three paths from it, one for each revision, of which the
-- last nodes have the same successors on all sides.
pub record IsConflictAfter (cm : ClassMapping) (predecessor : PcsNode)
    (merged_successors base_successors : Successors) (c : BuiltConflict) : Type 0 where
  pub left_last : PcsNode
  pub right_last : PcsNode
  pub base_last : PcsNode
  pub left_path :
      IsPath cm Revision.left merged_successors base_successors predecessor c.left left_last
  pub right_path :
      IsPath cm Revision.right merged_successors base_successors predecessor c.right right_last
  pub base_path :
      IsPath cm Revision.base base_successors merged_successors predecessor c.base base_last
  pub end_at_base : EndsAt cm Revision.base base_successors merged_successors base_last c.end
  pub left_end : same_nodes c.end (MultiMap.get merged_successors left_last) ≡ true
  pub right_end : same_nodes c.end (MultiMap.get merged_successors right_last) ≡ true

abbrev pub ConflictIsBuilt :
    ClassMapping → PcsNode → Successors → Successors → Result ConflictError BuiltConflict → Type 0
ConflictIsBuilt cm predecessor merged_successors base_successors (err e) = Unit {0}
ConflictIsBuilt cm predecessor merged_successors base_successors (ok c) =
    IsConflictAfter cm predecessor merged_successors base_successors c

module _ (cm : ClassMapping) (predecessor : PcsNode)
    (merged_successors base_successors : Successors) where
  abbrev Left : List AstNode → Result ConflictError Side → Type 0
  Left = SideFrom cm Revision.left merged_successors base_successors predecessor

  abbrev Right : List AstNode → Result ConflictError Side → Type 0
  Right = SideFrom cm Revision.right merged_successors base_successors predecessor

  abbrev Base : List AstNode → Result ConflictError Side → Type 0
  Base = SideFrom cm Revision.base base_successors merged_successors predecessor

  abbrev Built : Result ConflictError BuiltConflict → Type 0
  Built = ConflictIsBuilt cm predecessor merged_successors base_successors

  -- Some node has a successor that cannot follow, at one of the revisions.
  abbrev pub IsBroken : Type 0
  IsBroken =
      (cursor : PcsNode) × ((can_follow cm Revision.left
            (next_of cm Revision.left merged_successors base_successors cursor)
          ≡ false)
        ⊎ ((can_follow cm Revision.right
                (next_of cm Revision.right merged_successors base_successors cursor)
              ≡ false)
            ⊎ (can_follow cm Revision.base
                  (next_of cm Revision.base base_successors merged_successors cursor)
                ≡ false)))
