-- ===== src/MultiMap/Laws.antt =====
-- A multimap as a relation between keys and values.
use mirror_mergiraf.Base.{
  Bool, true, not, ◌&&◌, ◌||◌, List, [], ◌∷◌, ◌≡◌, refl, ap, ◌∙◌, if◌then◌else◌, unwrap_or, any,
  any-append, arith, Bool-cases, inl, inr,
}
use mirror_mergiraf.Base.HashMap
use mirror_mergiraf.Base.HashMap.{
  Eq, set_contains, set_insert, beq_left, beq_right, get-insert as map_get-insert,
  get-remove as map_get-remove, get_eq,
}
use mirror_mergiraf.MultiMap.{
  MultiMap, new, get, insert, from_iter, from_iter_onto, values, values_of,
}

-- An insertion adds one element, if no equal one is there.
pub any-set_insert {ℓ} :
    {A : Type ℓ} ⦃e : Eq A⦄ (p : A → Bool) (a : A) (s : List A)
    → any p (set_insert a s) ≡ (any p s || (not (set_contains s a) && p a))
unfolding set_insert
any-set_insert p a s = elim (Bool-cases (set_contains s a)) [
  | inl there ↦ rw there (ground arith)
  | inr absent ↦ rw absent (any-append p s (a ∷ []) ∙ ground arith)
]

pub set_contains_eq {ℓ} :
    {A : Type ℓ} ⦃e : Eq A⦄ (s : List A) (a b : A)
    → e.beq a b ≡ true
    → set_contains s a ≡ set_contains s b
set_contains_eq [] a b h = refl
set_contains_eq (x ∷ s) a b h = ground (arith, beq_right a b x h, set_contains_eq s a b)

-- Of the equal elements it makes no difference which one is kept.
pub set_contains-set_insert {ℓ} :
    {A : Type ℓ} ⦃e : Eq A⦄ (a b : A) (s : List A)
    → set_contains (set_insert a s) b ≡ (set_contains s b || e.beq a b)
set_contains-set_insert a b s = any-set_insert _ a s ∙ ground (arith, set_contains_eq s a b)

module _ {ℓ κ} {K : Type ℓ} {V : Type κ} ⦃e : Eq K⦄ ⦃f : Eq V⦄ where
  -- After an insertion the key has the value beside those it had, and other keys have theirs.
  pub get-insert :
      (m : MultiMap K V) (k : K) (v : V) (q : K)
      → get (insert m k v).0 q ≡ (if e.beq k q then set_insert v (get m q) else get m q)
  unfolding get insert
  get-insert m k v q =
      ap (λ o. unwrap_or o []) (map_get-insert m.map k (set_insert v (get m k)) q)
      ∙ elim (Bool-cases (e.beq k q)) [
        | inl same ↦ rw same (ap (λ o. set_insert v (unwrap_or o [])) (get_eq m.map k q same))
        | inr other ↦ rw other
      ]

  any-values_of-insert :
      (p : V → Bool) (m : List (K × List V)) (k : K) (v : V)
      → let set = unwrap_or (HashMap.get m k) [] in
        any p (values_of (HashMap.insert m k (set_insert v set)))
        ≡ (any p (values_of m) || (not (set_contains set v) && p v))
  unfolding HashMap.get HashMap.insert
  any-values_of-insert p [] k v =
      any-append p (set_insert v []) [] ∙ rw (any-set_insert p v []) (ground arith)
  any-values_of-insert p ((j, w) ∷ m) k v = elim (Bool-cases (e.beq j k)) [
    | inl same ↦ rw same (
        any-append p (set_insert v w) (values_of m)
        ∙ rw (any-set_insert p v w, any-append p w (values_of m)) (ground arith))
    | inr other ↦ rw other (
        any-append p w
          (values_of (HashMap.insert m k (set_insert v (unwrap_or (HashMap.get m k) []))))
        ∙ rw (any-values_of-insert p m k v, any-append p w (values_of m)) (ground arith))
  ]

  -- All values, seen by a test.
  pub any-values-insert :
      (p : V → Bool) (m : MultiMap K V) (k : K) (v : V)
      → any p (values (insert m k v).0)
        ≡ (any p (values m) || (not (set_contains (get m k) v) && p v))
  unfolding values insert get
  any-values-insert p m k v = any-values_of-insert p m.map k v

  -- Inserting says whether the value is new.
  pub insert_new :
      (m : MultiMap K V) (k : K) (v : V) → (insert m k v).1 ≡ not (set_contains (get m k) v)
  unfolding insert get
  insert_new m k v = refl

  from_iter_onto_lem :
      (m : MultiMap K V) (pairs : List (K × V)) (q : K) (v : V)
      → set_contains (get (from_iter_onto m pairs) q) v
        ≡ (set_contains (get m q) v || any (λ p. e.beq p.0 q && f.beq p.1 v) pairs)
  unfolding from_iter_onto
  from_iter_onto_lem m [] q v = ground arith
  from_iter_onto_lem m ((k, w) ∷ pairs) q v =
      from_iter_onto_lem (insert m k w).0 pairs q v
      ∙ rw (get-insert m k w q) (elim (Bool-cases (e.beq k q)) [
        | inl same ↦ rw (same, set_contains-set_insert w v (get m q)) (ground arith)
        | inr other ↦ rw other
      ])

  -- A multimap that is collected from pairs maps a key to a value exactly if the two are a pair.
  pub get-from_iter :
      (pairs : List (K × V)) (q : K) (v : V)
      → set_contains (get (from_iter pairs) q) v ≡ any (λ p. e.beq p.0 q && f.beq p.1 v) pairs
  unfolding from_iter new get
  get-from_iter pairs q v = from_iter_onto_lem new pairs q v
