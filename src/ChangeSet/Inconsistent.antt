-- ===== src/ChangeSet/Inconsistent.antt =====
-- `inconsistent_triples`, which works with the indexes, against a direct description on the set.
use mirror_mergiraf.Base.{
  Bool, true, false, not, ◌&&◌, ◌||◌, List, [], ◌∷◌, ◌++◌, ◌≡◌, refl, sym, ap, ap₂, ◌∙◌, filter,
  any, any-append, arith, Bool-cases, inl, inr,
}
use mirror_mergiraf.MultiMap
use mirror_mergiraf.Pcs.{PcsNode, Pcs, pcs_node_eq}
use mirror_mergiraf.Pcs.Equality.{pcs_node_Eq, pcs_Eq}
use mirror_mergiraf.ChangeSet.{
  ChangeSet, is_node, other_roots, other_roots_at, differs, inconsistent_triples,
}
use mirror_mergiraf.ChangeSet.Refines.{Refines, at}

module _ {ℓ} {A : Type ℓ} where
  pub any-filter : (t q : A → Bool) (xs : List A) → any t (filter q xs) ≡ any (λ x. q x && t x) xs
  any-filter t q [] = refl
  any-filter t q (x ∷ xs) = elim (Bool-cases (q x)) [
    | inl h ↦ rw (h, filter, any-filter t q xs)
    | inr h ↦ rw (h, filter, any-filter t q xs)
  ]

  pub any_or : (f g : A → Bool) (xs : List A) → any (λ x. f x || g x) xs ≡ (any f xs || any g xs)
  any_or f g [] = refl
  any_or f g (x ∷ xs) = ground (arith, any_or f g xs)

  pub any_ext : (f g : A → Bool) (xs : List A) → ((x : A) → f x ≡ g x) → any f xs ≡ any g xs
  any_ext f g [] h = refl
  any_ext f g (x ∷ xs) h = ap₂ (◌||◌) (h x) (any_ext f g xs h)

  pub any_imp :
      (f g : A → Bool) (xs : List A)
      → ((x : A) → f x ≡ true → g x ≡ true)
      → any f xs ≡ true
      → any g xs ≡ true
  any_imp f g [] h e = e
  any_imp f g (x ∷ xs) h e = ground (arith, h x, any_imp f g xs h)

  pub any_never : (f : A → Bool) (xs : List A) → ((x : A) → f x ≡ false) → any f xs ≡ false
  any_never f [] h = refl
  any_never f (x ∷ xs) h = ground (arith, h x, any_never f xs h)

-- The node of the tree `n` is a child in both triples, under different parents.
unfoldable pub moved : Pcs → PcsNode → Pcs → Bool
moved p n x =
    is_node n
    && not (pcs_node_eq x.parent p.parent)
    && (pcs_node_eq x.predecessor n || pcs_node_eq x.successor n)

-- Two triples that no tree has both of: the order of the children of one parent differs, or a node
-- has two parents.
unfoldable pub inconsistent : Pcs → Pcs → Bool
inconsistent p x =
    (pcs_node_eq x.parent p.parent
      && (pcs_node_eq x.predecessor p.predecessor && not (pcs_node_eq x.successor p.successor)
          || not (pcs_node_eq x.predecessor p.predecessor) && pcs_node_eq x.successor p.successor))
    || (moved p p.predecessor x || moved p p.successor x)

module _ (cs : ChangeSet) (triples : List Pcs) (r : Refines cs triples) where
  any-other_roots_at :
      (test : Pcs → Bool) (p : Pcs) (n : PcsNode)
      → any test (other_roots_at cs p n) ≡ any (λ x. moved p n x && test x) triples
  unfolding at moved pcs_Eq pcs_node_Eq
  any-other_roots_at test p n = elim (Bool-cases (is_node n)) [
    | inl tree ↦ rw tree (
        any-filter test elsewhere (MultiMap.get cs.successors n ++ MultiMap.get cs.predecessors n)
        ∙ any-append both (MultiMap.get cs.successors n) (MultiMap.get cs.predecessors n)
        ∙ rw
            (
              r.in_successors n,
              r.in_predecessors n,
              any-filter both (λ x. pcs_node_eq x.predecessor n) triples,
              any-filter both (λ x. pcs_node_eq x.successor n) triples,
            )
            refl
        ∙ sym (
            any_or (λ x. pcs_node_eq x.predecessor n && both x)
              (λ x. pcs_node_eq x.successor n && both x) triples)
        ∙ any_ext _ (λ x. moved_there x && test x) triples (λ x. ground arith))
    | inr marker ↦ rw marker (sym (any_never (λ x. false && test x) triples (λ x. refl)))
  ]
    where
      elsewhere : Pcs → Bool
      elsewhere x = not (pcs_node_eq x.parent p.parent)

      both : Pcs → Bool
      both x = elsewhere x && test x

      moved_there : Pcs → Bool
      moved_there x = elsewhere x && (pcs_node_eq x.predecessor n || pcs_node_eq x.successor n)

  -- Of the change set that represents a set of triples, `inconsistent_triples` yields, as far as a
  -- test can tell, exactly the triples of the set that are inconsistent with the given one.
  pub inconsistent_triples_lem :
      (test : Pcs → Bool) (p : Pcs)
      → any test (inconsistent_triples cs p) ≡ any (λ x. inconsistent p x && test x) triples
  unfolding inconsistent_triples other_roots inconsistent at pcs_Eq pcs_node_Eq
  inconsistent_triples_lem test p =
      any-append test (filter (differs p) (MultiMap.get cs.children p.parent)) (other_roots cs p)
      ∙ ap₂ (◌||◌)
          (any-filter test (differs p) (MultiMap.get cs.children p.parent)
            ∙ ap (any reordered) (r.in_children p.parent)
            ∙ any-filter reordered (λ x. pcs_node_eq x.parent p.parent) triples)
          (any-append test (other_roots_at cs p p.predecessor) (other_roots_at cs p p.successor)
            ∙ ap₂ (◌||◌) (any-other_roots_at test p p.predecessor)
                (any-other_roots_at test p p.successor)
            ∙ sym (
                any_or (λ x. moved p p.predecessor x && test x)
                  (λ x. moved p p.successor x && test x) triples))
      ∙ sym (any_or (λ x. pcs_node_eq x.parent p.parent && reordered x) either triples)
      ∙ any_ext (λ x. pcs_node_eq x.parent p.parent && reordered x || either x)
          (λ x. inconsistent p x && test x) triples (λ x. ground arith)
    where
      reordered : Pcs → Bool
      reordered x = differs p x && test x

      either : Pcs → Bool
      either x = (moved p p.predecessor x && test x) || (moved p p.successor x && test x)
