-- ===== src/RevisionSet.antt =====
-- `RevisionSet` and `RevisionNESet` of src/class_mapping.rs.
pub mod Laws
mod Examples
use mirror_mergiraf.Base.{
  Bool, true, false, not, ◌&&◌, ◌||◌, Option, none, some, List, [], ◌∷◌, ◌++◌, if◌then◌else◌,
}
use mirror_mergiraf.Base.Run.{Run, expect}
use mirror_mergiraf.Revision.{Revision, base, left, right}

pub record RevisionSet : Type 0 where
  pub base : Bool
  pub left : Bool
  pub right : Bool

pub new : RevisionSet
new = record { base = false; left = false; right = false }

pub set : RevisionSet → Revision → Bool → RevisionSet
set s Revision.base presence = record s { base = presence }
set s Revision.left presence = record s { left = presence }
set s Revision.right presence = record s { right = presence }

pub add : RevisionSet → Revision → RevisionSet
unfolding set
add s r = set s r true

pub with_rev : RevisionSet → Revision → RevisionSet
unfolding add
with_rev s r = add s r

pub remove : RevisionSet → Revision → RevisionSet
unfolding set
remove s r = set s r false

unfoldable pub contains : RevisionSet → Revision → Bool
contains s Revision.base = s.base
contains s Revision.left = s.left
contains s Revision.right = s.right

pub intersection : RevisionSet → RevisionSet → RevisionSet
intersection s t = record {
  base = s.base && t.base;
  left = s.left && t.left;
  right = s.right && t.right;
}

pub is_empty : RevisionSet → Bool
is_empty s = not (s.base || s.left || s.right)

pub is_full : RevisionSet → Bool
is_full s = s.base && s.left && s.right

-- `bool::then_some`, as the list that `Iterator::chain` takes it for
abbrev then_some : Bool → Revision → List Revision
then_some b r = if b then r ∷ [] else []

pub iter : RevisionSet → List Revision
iter s =
    then_some s.left Revision.left
    ++ (then_some s.right Revision.right ++ then_some s.base Revision.base)

abbrev first : List Revision → Option Revision
first [] = none
first (r ∷ _) = some r

pub any : RevisionSet → Option Revision
unfolding iter
any s = first (iter s)

pub record RevisionNeSet : Type 0 where
  pub revisions : RevisionSet

pub as_nonempty : RevisionSet → Option RevisionNeSet
unfolding is_empty
as_nonempty s = if is_empty s then none else some (record { revisions = s })

-- The operations of `RevisionNESet`.
pub singleton : Revision → RevisionNeSet
unfolding new add
singleton r = record { revisions = add new r }

pub add_ne : RevisionNeSet → Revision → RevisionNeSet
unfolding add
add_ne s r = record { revisions = add s.revisions r }

pub any_ne : RevisionNeSet → Run Revision
unfolding any
any_ne s = expect (any s.revisions)
