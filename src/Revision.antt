-- ===== src/Revision.antt =====
-- `enum Revision` of src/pcs.rs.
use mirror_mergiraf.Base.{Bool, true, false, ◌≡◌, arith}

pub data Revision : Type 0 where
  base left right : Revision

-- The derived `==`.
abbrev pub rev_eq : Revision → Revision → Bool
rev_eq base base = true
rev_eq left left = true
rev_eq right right = true
rev_eq _ _ = false

pub rev_eq_refl : (r : Revision) → rev_eq r r ≡ true
rev_eq_refl r = ground arith

pub eq_of_rev_eq : (r s : Revision) → rev_eq r s ≡ true → r ≡ s
eq_of_rev_eq r s h = ground arith
