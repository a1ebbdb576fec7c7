-- ===== src/ChangeSet/Refines.antt =====
-- The three indexes of a change set are views of one set of triples.
use mirror_mergiraf.Base.{
  Bool, true, false, List, [], ◌∷◌, ◌++◌, ◌≡◌, refl, sym, ◌∙◌, if◌then◌else◌, filter, any, arith,
  Bool-cases, inl, inr,
}
use mirror_mergiraf.Base.HashMap.{Eq, set_contains, set_insert, beq_left}
use mirror_mergiraf.MultiMap
use mirror_mergiraf.MultiMap.{MultiMap}
use mirror_mergiraf.MultiMap.Laws.{any-set_insert, get-insert, any-values-insert}
use mirror_mergiraf.Pcs.{PcsNode, Pcs, pcs_node_eq, pcs_eq}
use mirror_mergiraf.Pcs.Equality.{pcs_node_Eq, pcs_Eq, pcs_node_eq_refl}
use mirror_mergiraf.ChangeSet.{ChangeSet, new, add, iter}

module _ {ℓ} {A : Type ℓ} ⦃e : Eq A⦄ where
  filter-append_one :
      (q : A → Bool) (a : A) (s : List A)
      → filter q (s ++ a ∷ []) ≡ (if q a then filter q s ++ a ∷ [] else filter q s)
  filter-append_one q a [] = elim (Bool-cases (q a)) [
    | inl h ↦ rw (h, filter)
    | inr h ↦ rw (h, filter)
  ]
  filter-append_one q a (x ∷ s) = elim (Bool-cases (q x)) [
    | inl h ↦ rw (h, filter, filter-append_one q a s) (pull (q a))
    | inr h ↦ rw (h, filter, filter-append_one q a s)
  ]
    where
      pull :
          (b : Bool)
          → x ∷ (if b then filter q s ++ a ∷ [] else filter q s)
            ≡ (if b then x ∷ filter q s ++ a ∷ [] else x ∷ filter q s)
      pull true = refl
      pull false = refl

  set_contains-filter :
      (q : A → Bool) (a : A) (s : List A)
      → ((x : A) → e.beq x a ≡ true → q x ≡ true)
      → set_contains (filter q s) a ≡ set_contains s a
  set_contains-filter q a [] h = refl
  set_contains-filter q a (x ∷ s) h = elim (Bool-cases (q x)) [
    | inl sel ↦ rw (sel, filter, set_contains-filter q a s h)
    | inr unsel ↦ rw (unsel, filter, set_contains-filter q a s h) (ground (arith, h x))
  ]

  -- A test that does not tell equal elements apart selects from a set with one more element.
  pub filter-set_insert :
      (q : A → Bool) (a : A) (s : List A)
      → ((x : A) → e.beq x a ≡ true → q x ≡ q a)
      → filter q (set_insert a s) ≡ (if q a then set_insert a (filter q s) else filter q s)
  unfolding set_insert
  filter-set_insert q a s h = elim (Bool-cases (q a)) [
    | inl sel ↦
        rw (sel, set_contains-filter q a s (λ x eq. h x eq ∙ sel))
          (elim (Bool-cases (set_contains s a)) [
            | inl there ↦ rw there
            | inr absent ↦ rw absent (filter-append_one q a s ∙ rw sel)
          ])
    | inr unsel ↦ rw unsel (elim (Bool-cases (set_contains s a)) [
      | inl there ↦ rw there
      | inr absent ↦ rw absent (filter-append_one q a s ∙ rw unsel)
    ])
  ]

-- The triples of a set whose component is the given node.
unfoldable pub at : (Pcs → PcsNode) → PcsNode → List Pcs → List Pcs
at component k = filter (λ p. pcs_node_eq (component p) k)

-- Each index finds the triples of the set that have the key as their component, and the iteration
-- visits the triples of the set.
pub record Refines (cs : ChangeSet) (triples : List Pcs) : Type 0 where
  pub in_children : (k : PcsNode) → MultiMap.get cs.children k ≡ at (λ p. p.parent) k triples
  pub in_successors :
      (k : PcsNode) → MultiMap.get cs.successors k ≡ at (λ p. p.predecessor) k triples
  pub in_predecessors :
      (k : PcsNode) → MultiMap.get cs.predecessors k ≡ at (λ p. p.successor) k triples
  pub visited : (test : Pcs → Bool) → any test (iter cs) ≡ any test triples

pub new-Refines : Refines new []
unfolding new iter at MultiMap.get MultiMap.new MultiMap.values
new-Refines = record {
  in_children = λ k. refl;
  in_successors = λ k. refl;
  in_predecessors = λ k. refl;
  visited = λ test. refl;
}

same_parent : (x p : Pcs) → pcs_eq x p ≡ true → pcs_node_eq x.parent p.parent ≡ true
unfolding pcs_eq
same_parent x p h = ground arith

same_predecessor : (x p : Pcs) → pcs_eq x p ≡ true → pcs_node_eq x.predecessor p.predecessor ≡ true
unfolding pcs_eq
same_predecessor x p h = ground arith

same_successor : (x p : Pcs) → pcs_eq x p ≡ true → pcs_node_eq x.successor p.successor ≡ true
unfolding pcs_eq
same_successor x p h = ground arith

-- An index on a component stays a view of the set.
at-insert :
    (component : Pcs → PcsNode)
    → ((x p : Pcs) → pcs_eq x p ≡ true → pcs_node_eq (component x) (component p) ≡ true)
    → (m : MultiMap PcsNode Pcs) (triples : List Pcs) (p : Pcs)
    → ((k : PcsNode) → MultiMap.get m k ≡ at component k triples)
    → (k : PcsNode)
    → MultiMap.get (MultiMap.insert m (component p) p).0 k ≡ at component k (set_insert p triples)
unfolding at pcs_eq pcs_Eq pcs_node_Eq pcs_node_eq
at-insert component same m triples p h k =
    get-insert m (component p) p k
    ∙ rw (h k) refl
    ∙ sym (
        filter-set_insert (λ x. pcs_node_eq (component x) k) p triples
          (λ x eq. beq_left (component x) (component p) k (same x p eq)))

set_contains-at :
    (k : PcsNode) (p : Pcs) (triples : List Pcs)
    → pcs_node_eq p.predecessor k ≡ true
    → set_contains (at (λ x. x.predecessor) k triples) p ≡ set_contains triples p
unfolding at pcs_Eq pcs_node_Eq
set_contains-at k p triples h =
    set_contains-filter (λ x. pcs_node_eq x.predecessor k) p triples
      (λ x eq. beq_left x.predecessor p.predecessor k (same_predecessor x p eq) ∙ h)

-- Adding a triple to the three indexes adds it to the set that they are views of.
pub add-Refines :
    (cs : ChangeSet) (triples : List Pcs) (p : Pcs)
    → Refines cs triples
    → Refines (add cs p) (set_insert p triples)
unfolding add iter
add-Refines cs triples p r = record {
  in_children = at-insert (λ x. x.parent) same_parent cs.children triples p r.in_children;
  in_successors =
      at-insert (λ x. x.predecessor) same_predecessor cs.successors triples p r.in_successors;
  in_predecessors =
      at-insert (λ x. x.successor) same_successor cs.predecessors triples p r.in_predecessors;
  visited = λ test.
      any-values-insert test cs.successors p.predecessor p
      ∙ rw
          (
            r.visited test,
            r.in_successors p.predecessor,
            set_contains-at p.predecessor p triples (pcs_node_eq_refl p.predecessor),
          )
          refl
      ∙ sym (any-set_insert test p triples);
}
