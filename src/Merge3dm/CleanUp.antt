-- ===== src/Merge3dm/CleanUp.antt =====
-- `fix_pcs_inconsistencies`: which triples are left, and that they no longer contradict each other
-- across revisions.
use mirror_mergiraf.Base.{
  Bool, true, false, not, ◌&&◌, ◌||◌, List, [], ◌∷◌, ◌≡◌, refl, sym, ap, ◌∙◌, if◌then◌else◌, find,
  is_some, any, arith, Bool-cases, inl, inr,
}
use mirror_mergiraf.Base.HashMap.{set_contains, set_insert}
use mirror_mergiraf.MultiMap.Laws.{any-set_insert, set_contains-set_insert}
use mirror_mergiraf.Revision.{Revision, rev_eq}
use mirror_mergiraf.Pcs.{Pcs, pcs_eq}
use mirror_mergiraf.Pcs.Equality.{pcs_Eq}
use mirror_mergiraf.ChangeSet
use mirror_mergiraf.ChangeSet.{ChangeSet, add, inconsistent_triples, iter}
use mirror_mergiraf.ChangeSet.Refines.{Refines, new-Refines, add-Refines}
use mirror_mergiraf.ChangeSet.Inconsistent.{
  any_ext, any_imp, any_never, inconsistent, inconsistent_triples_lem,
}
use mirror_mergiraf.Merge3dm.{is_changed, conflict_found, clean, fix_pcs_inconsistencies}

module _ {ℓ} {A : Type ℓ} where
  is_some-find : (p : A → Bool) (xs : List A) → is_some (find p xs) ≡ any p xs
  is_some-find p [] = refl
  is_some-find p (x ∷ xs) = elim (Bool-cases (p x)) [
    | inl h ↦ rw (h, find)
    | inr h ↦ rw (h, find, is_some-find p xs)
  ]

conflict_found_lem :
    (cs : ChangeSet) (p : Pcs)
    → conflict_found cs p
      ≡ (rev_eq p.revision Revision.base && any is_changed (inconsistent_triples cs p))
unfolding conflict_found
conflict_found_lem cs p =
    ap (λ b. if rev_eq p.revision Revision.base then b else false)
      (is_some-find is_changed (inconsistent_triples cs p))
    ∙ ground arith

module _ (cs : ChangeSet) where
  abbrev keep : Pcs → Bool
  keep p = not (conflict_found cs p)

  abbrev keep_onto : List Pcs → List Pcs → List Pcs
  keep_onto kept [] = kept
  keep_onto kept (p ∷ ps) = keep_onto (if conflict_found cs p then kept else set_insert p kept) ps

  clean-Refines :
      (ps : List Pcs) (cleaned : ChangeSet) (kept : List Pcs)
      → Refines cleaned kept
      → Refines (clean cs cleaned ps) (keep_onto kept ps)
  unfolding clean
  clean-Refines [] cleaned kept r = r
  clean-Refines (p ∷ ps) cleaned kept r = clean-Refines ps _ _ (step (conflict_found cs p))
    where
      step :
          (b : Bool)
          → Refines (if b then cleaned else add cleaned p) (if b then kept else set_insert p kept)
      step true = r
      step false = add-Refines cleaned kept p r

  contains-keep_onto :
      (ps kept : List Pcs) (a : Pcs)
      → set_contains (keep_onto kept ps) a
        ≡ (set_contains kept a || any (λ p. keep p && pcs_eq p a) ps)
  unfolding pcs_Eq
  contains-keep_onto [] kept a = ground arith
  contains-keep_onto (p ∷ ps) kept a =
      contains-keep_onto ps (if conflict_found cs p then kept else set_insert p kept) a
      ∙ elim (Bool-cases (conflict_found cs p)) [
        | inl gone ↦ rw gone
        | inr stays ↦ rw (stays, set_contains-set_insert p a kept) (ground arith)
      ]

  any-keep_onto :
      (test : Pcs → Bool) (ps kept : List Pcs)
      → any test (keep_onto kept ps) ≡ true
      → (any test kept || any (λ p. keep p && test p) ps) ≡ true
  any-keep_onto test [] kept h = ground arith
  any-keep_onto test (p ∷ ps) kept h =
      step (conflict_found cs p)
        (any-keep_onto test ps (if conflict_found cs p then kept else set_insert p kept) h)
    where
      step :
          (b : Bool)
          → (any test (if b then kept else set_insert p kept) || any (λ x. keep x && test x) ps)
            ≡ true
          → (any test kept || ((not b && test p) || any (λ x. keep x && test x) ps)) ≡ true
      step true h = h
      step false h = ground (arith, any-set_insert test p kept)

-- Exactly those triples are left that are not of the base revision, or are not inconsistent with a
-- triple of another revision.
pub contains-fix_pcs_inconsistencies :
    (cs : ChangeSet) (a : Pcs)
    → set_contains (iter (fix_pcs_inconsistencies cs)) a
      ≡ any (λ p. not (conflict_found cs p) && pcs_eq p a) (iter cs)
unfolding fix_pcs_inconsistencies pcs_eq pcs_Eq
contains-fix_pcs_inconsistencies cs a =
    (clean-Refines cs (iter cs) ChangeSet.new [] new-Refines).visited (λ p. pcs_eq p a)
    ∙ contains-keep_onto cs (iter cs) [] a

-- A test that a triple of the result passes is passed by a triple that was kept.
pub any-fix_pcs_inconsistencies :
    (cs : ChangeSet) (test : Pcs → Bool)
    → any test (iter (fix_pcs_inconsistencies cs)) ≡ true
    → any (λ p. not (conflict_found cs p) && test p) (iter cs) ≡ true
unfolding fix_pcs_inconsistencies
any-fix_pcs_inconsistencies cs test h =
    any-keep_onto cs test (iter cs) []
      (sym ((clean-Refines cs (iter cs) ChangeSet.new [] new-Refines).visited test) ∙ h)

-- The result is a change set again: its indexes agree with the triples it visits.
pub fix_pcs_inconsistencies-Refines :
    (cs : ChangeSet) → (kept : List Pcs) × Refines (fix_pcs_inconsistencies cs) kept
unfolding fix_pcs_inconsistencies
fix_pcs_inconsistencies-Refines cs = (_, clean-Refines cs (iter cs) ChangeSet.new [] new-Refines)

any-kept :
    (cs : ChangeSet) (a : Pcs) (p : Pcs)
    → (is_changed p && pcs_eq p a) ≡ true
    → (not (conflict_found cs p) && pcs_eq p a) ≡ true
any-kept cs a p h = ground (arith, conflict_found_lem cs p)

-- A triple of a change set that is of another revision than the base is in the result of the clean-up,
-- up to the equality of triples.
pub keeps_changes :
    (cs : ChangeSet) (a : Pcs)
    → any (λ p. is_changed p && pcs_eq p a) (iter cs) ≡ true
    → set_contains (iter (fix_pcs_inconsistencies cs)) a ≡ true
keeps_changes cs a h =
    contains-fix_pcs_inconsistencies cs a
    ∙ any_imp (λ p. is_changed p && pcs_eq p a) (λ p. not (conflict_found cs p) && pcs_eq p a)
        (iter cs) (any-kept cs a) h

-- A triple of the base that cannot stand in one tree with some triple of the left or the right revision.
abbrev pub is_contradicted : List Pcs → Pcs → Bool
is_contradicted triples p =
    rev_eq p.revision Revision.base
    && any (λ x. inconsistent p x && not (rev_eq x.revision Revision.base)) triples

module _ (cs : ChangeSet) (triples : List Pcs) (r : Refines cs triples) where
  abbrev fixed : ChangeSet
  fixed = fix_pcs_inconsistencies cs

  -- A triple that is inconsistent with a changed triple of the result was so with one of the input.
  still_found :
      (p : Pcs)
      → any is_changed (inconsistent_triples (fix_pcs_inconsistencies cs) p) ≡ true
      → any is_changed (inconsistent_triples cs p) ≡ true
  still_found p h =
      inconsistent_triples_lem cs triples r is_changed p
      ∙ sym (r.visited test)
      ∙ any_imp (λ x. not (conflict_found cs x) && test x) test (iter cs) (λ x k. ground arith)
          (any-fix_pcs_inconsistencies cs test (
            kept.1.visited test
            ∙ sym (inconsistent_triples_lem (fix_pcs_inconsistencies cs) kept.0 kept.1 is_changed p)
            ∙ h))
    where
      test : Pcs → Bool
      test x = inconsistent p x && is_changed x

      kept : (kept : List Pcs) × Refines (fix_pcs_inconsistencies cs) kept
      kept = fix_pcs_inconsistencies-Refines cs

  not_found : any (conflict_found fixed) (iter fixed) ≡ false
  not_found = elim (Bool-cases (any found (iter fixed))) [
    | inl bad ↦ absurd (
        ground (
          arith,
          any-fix_pcs_inconsistencies cs found bad,
          any_never (λ p. not (conflict_found cs p) && found p) (iter cs) none_left,
        ))
    | inr good ↦ good
  ]
    where
      found : Pcs → Bool
      found = conflict_found fixed

      none_left : (p : Pcs) → (not (conflict_found cs p) && found p) ≡ false
      none_left p =
          ground (arith, conflict_found_lem cs p, conflict_found_lem fixed p, still_found p)

  found_lem : (p : Pcs) → is_contradicted (iter fixed) p ≡ conflict_found fixed p
  found_lem p =
      ap (λ b. rev_eq p.revision Revision.base && b)
        (kept.1.visited test
          ∙ any_ext test (λ x. inconsistent p x && is_changed x) kept.0 (λ x. refl)
          ∙ sym (inconsistent_triples_lem fixed kept.0 kept.1 is_changed p))
      ∙ sym (conflict_found_lem fixed p)
    where
      test : Pcs → Bool
      test x = inconsistent p x && not (rev_eq x.revision Revision.base)

      kept : (kept : List Pcs) × Refines fixed kept
      kept = fix_pcs_inconsistencies-Refines cs

  -- In the result of cleaning up a change set that represents a set of triples, no triple of the base
  -- revision is inconsistent with a triple of the result that is of another revision, by the direct
  -- description of inconsistency.
  pub fix_pcs_inconsistencies-IsConsistent :
      any (is_contradicted (iter (fix_pcs_inconsistencies cs))) (iter (fix_pcs_inconsistencies cs))
      ≡ false
  fix_pcs_inconsistencies-IsConsistent =
      any_ext (is_contradicted (iter fixed)) (conflict_found fixed) (iter fixed) found_lem
      ∙ not_found
