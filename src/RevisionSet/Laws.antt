-- ===== src/RevisionSet/Laws.antt =====
-- The operations of `RevisionSet` as operations on sets of revisions.
use mirror_mergiraf.Base.{Bool, true, false, some, ◌≡◌, refl, arith, if◌then◌else◌, any as list_any}
use mirror_mergiraf.Base.Run.{Returns, done}
use mirror_mergiraf.Revision.{Revision, base, left, right, rev_eq}
use mirror_mergiraf.RevisionSet as Sets
use mirror_mergiraf.RevisionSet.{
  RevisionSet, RevisionNeSet, set, contains, is_empty, iter, as_nonempty, singleton, add_ne, any_ne,
}

-- After `set` the set holds the given presence at the given revision, and every other as before.
pub contains-set :
    (s : RevisionSet) (r q : Revision) (b : Bool)
    → contains (set s r b) q ≡ (if rev_eq r q then b else contains s q)
unfolding contains set
contains-set s base base b = refl
contains-set s r q b = ground arith

-- The revisions that a set yields are those that it contains.
pub any-iter : (s : RevisionSet) (r : Revision) → list_any (rev_eq r) (iter s) ≡ contains s r
unfolding iter contains
any-iter s r = ground arith

-- Two sets with the same elements are equal.
pub ext : (s t : RevisionSet) → ((r : Revision) → contains s r ≡ contains t r) → s ≡ t
unfolding contains
ext s t h = ground (arith, h base, h left, h right)

-- A set that `as_nonempty` accepts is not empty, and neither is one that a revision was added to.
abbrev pub IsNonempty : RevisionNeSet → Type 0
IsNonempty s = is_empty s.revisions ≡ false

pub as_nonempty-IsNonempty :
    (s : RevisionSet) (t : RevisionNeSet) → as_nonempty s ≡ some t → IsNonempty t
unfolding as_nonempty is_empty
as_nonempty-IsNonempty s t h = ground arith

pub singleton-IsNonempty : (r : Revision) → IsNonempty (singleton r)
unfolding singleton is_empty
singleton-IsNonempty base = refl
singleton-IsNonempty _ = refl

pub add_ne-IsNonempty : (s : RevisionNeSet) (r : Revision) → IsNonempty (add_ne s r)
unfolding add_ne is_empty
add_ne-IsNonempty s base = refl
add_ne-IsNonempty s left = ground arith
add_ne-IsNonempty s right = ground arith

-- `RevisionNESet::any` never panics on a set that is not empty: it returns an element, `left` if it
-- is one, and `base` only if it is the only one.
pub any_ne-Returns :
    (s : RevisionNeSet)
    → IsNonempty s
    → Returns
        (λ r.
          (contains s.revisions r ≡ true)
          × (contains s.revisions left ≡ true → r ≡ left)
          × (r ≡ base → contains s.revisions right ≡ false))
        (any_ne s)
unfolding any_ne is_empty contains
any_ne-Returns s h = by_flags s.revisions.base s.revisions.left s.revisions.right h
  where
    by_flags :
        (b l r : Bool)
        → is_empty (record { base = b; left = l; right = r }) ≡ false
        → Returns
            (λ q.
              (contains (record { base = b; left = l; right = r }) q ≡ true)
              × (l ≡ true → q ≡ left)
              × (q ≡ base → r ≡ false))
            (any_ne (record { revisions = record { base = b; left = l; right = r } }))
    by_flags b true r h = (refl, λ _. refl, λ e. cc)
    by_flags b false true h = (refl, λ e. cc, λ e. cc)
    by_flags true false false h = (refl, λ e. cc, λ _. refl)
    by_flags false false false h = cc

pub any_ne-singleton : (r : Revision) → any_ne (singleton r) ≡ done r
unfolding any_ne Sets.any iter singleton Sets.add set Sets.new
any_ne-singleton Revision.base = refl
any_ne-singleton Revision.left = refl
any_ne-singleton Revision.right = refl
