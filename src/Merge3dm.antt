-- ===== src/Merge3dm.antt =====
-- src/merge_3dm.rs: the clean-up of the triples of the base revision.
pub mod Matchings
pub mod CleanUp
pub mod Generated
mod Examples
use mirror_mergiraf.Base.{Bool, true, false, not, ◌&&◌, List, [], ◌∷◌, if◌then◌else◌, find, is_some}
use mirror_mergiraf.Revision
use mirror_mergiraf.Revision.{Revision, rev_eq}
use mirror_mergiraf.Pcs.{Pcs}
use mirror_mergiraf.ChangeSet
use mirror_mergiraf.ChangeSet.{ChangeSet, add, inconsistent_triples}

abbrev pub is_changed : Pcs → Bool
is_changed triple = not (rev_eq triple.revision Revision.base)

unfoldable pub conflict_found : ChangeSet → Pcs → Bool
unfolding inconsistent_triples
conflict_found changeset pcs =
    if rev_eq pcs.revision Revision.base
    then is_some (find is_changed (inconsistent_triples changeset pcs))
    else false

-- The loop, whose `cleaned` is the source's `cleaned_changeset`.
unfoldable pub clean : ChangeSet → ChangeSet → List Pcs → ChangeSet
unfolding add conflict_found
clean changeset cleaned [] = cleaned
clean changeset cleaned (pcs ∷ rest) =
    clean changeset (if conflict_found changeset pcs then cleaned else add cleaned pcs) rest

unfoldable pub fix_pcs_inconsistencies : ChangeSet → ChangeSet
unfolding clean ChangeSet.new ChangeSet.iter
fix_pcs_inconsistencies changeset = clean changeset ChangeSet.new (ChangeSet.iter changeset)
