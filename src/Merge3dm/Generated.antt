-- ===== src/Merge3dm/Generated.antt =====
-- The first steps of the 3DM merge one after the other: the triples of the three trees, cleaned up.
use mirror_mergiraf.Base.{false, ◌≡◌, any}
use mirror_mergiraf.Ast.{AstNode}
use mirror_mergiraf.ClassMapping.{ClassMapping}
use mirror_mergiraf.ChangeSet.{iter}
use mirror_mergiraf.ChangeSet.Tree.{generate_pcs_triples}
use mirror_mergiraf.ChangeSet.Tree.Listing.{generate_pcs_triples-Refines}
use mirror_mergiraf.Merge3dm.{fix_pcs_inconsistencies}
use mirror_mergiraf.Merge3dm.CleanUp.{is_contradicted, fix_pcs_inconsistencies-IsConsistent}

-- For any three trees and any classes of their nodes: when the triples generated from the trees are
-- cleaned up, no triple of the base revision is left that is inconsistent with a triple of the left or
-- the right revision that is left.
pub fix_pcs_inconsistencies-generate_pcs_triples :
    (base left right : AstNode) (cm : ClassMapping)
    → any
        (is_contradicted
          (iter (fix_pcs_inconsistencies (generate_pcs_triples base left right cm).0)))
        (iter (fix_pcs_inconsistencies (generate_pcs_triples base left right cm).0))
      ≡ false
fix_pcs_inconsistencies-generate_pcs_triples base left right cm =
    fix_pcs_inconsistencies-IsConsistent (generate_pcs_triples base left right cm).0 _
      (generate_pcs_triples-Refines base left right cm).0
