-- ===== src/RevisionSet/Examples.antt =====
-- An instance of the theorem about `RevisionNESet` of src/class_mapping.rs.
use mirror_mergiraf.Base.{true, false, ◌≡◌}
use mirror_mergiraf.Base.Run.{Returns}
use mirror_mergiraf.Revision.{base, left, right}
use mirror_mergiraf.RevisionSet.{singleton, contains, any_ne}
use mirror_mergiraf.RevisionSet.Laws.{singleton-IsNonempty, any_ne-Returns}

any_ne-Returns_example :
    Returns
      (λ r.
        (contains (singleton base).revisions r ≡ true)
        × (contains (singleton base).revisions left ≡ true → r ≡ left)
        × (r ≡ base → contains (singleton base).revisions right ≡ false))
      (any_ne (singleton base))
any_ne-Returns_example = any_ne-Returns (singleton base) (singleton-IsNonempty base)
