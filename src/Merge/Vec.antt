-- ===== src/Merge/Vec.antt =====
-- The operations of `Vec` and of iterators that src/merge.rs uses.
use mirror_mergiraf.Base.{
  ℕ, zero, suc, ◌<◌, Bool, true, false, ◌&&◌, leb, List, [], ◌∷◌, Option, none, some, ◌≡◌, refl, ap,
  ◌∙◌, if◌then◌else◌, get_elem?, all, any, arith, Bool-cases, inl, inr,
}

module _ {ℓ} {A : Type ℓ} where
  -- `Iterator::position`
  abbrev pub position : (A → Bool) → List A → Option ℕ
  position p [] = none
  position p (x ∷ xs) = if p x then some 0 else next (position p xs)
    where
      next : Option ℕ → Option ℕ
      next none = none
      next (some i) = some (suc i)

  abbrev pub last_first : A → List A → List A
  last_first x [] = x ∷ []
  last_first x (y ∷ ys) = moved x (last_first y ys)
    where
      moved : A → List A → List A
      moved x [] = x ∷ []
      moved x (z ∷ zs) = z ∷ x ∷ zs

  -- `Vec::swap_remove`: the element, and the vector with the last one in its place. It panics out of
  -- range.
  abbrev pub swap_remove : List A → ℕ → Option (A × List A)
  swap_remove [] i = none
  swap_remove (x ∷ []) zero = some (x, [])
  swap_remove (x ∷ y ∷ ys) zero = some (x, last_first y ys)
  swap_remove (x ∷ xs) (suc i) = with_head x (swap_remove xs i)
    where
      with_head : A → Option (A × List A) → Option (A × List A)
      with_head x none = none
      with_head x (some (a, ys)) = some (a, x ∷ ys)

  -- An element before the removed one keeps its place.
  pub swap_remove_lem :
      (xs : List A) (i : ℕ) (a : A)
      → get_elem? xs i ≡ some a
      → (ys : List A) × (swap_remove xs i ≡ some (a, ys))
        × ((j : ℕ) → j < i → get_elem? ys j ≡ get_elem? xs j)
  swap_remove_lem [] i a e = absurd (ground arith)
  swap_remove_lem (x ∷ []) zero a e = ([], ground arith, λ j h. absurd (omega arith))
  swap_remove_lem (x ∷ y ∷ ys) zero a e =
      (last_first y ys, ground arith, λ j h. absurd (omega arith))
  swap_remove_lem (x ∷ xs) (suc i) a e =
      let rest = swap_remove_lem xs i a e in (x ∷ rest.0, rw rest.1 refl, at_most rest.0 rest.2)
    where
      at_most :
          (ys : List A)
          → ((j : ℕ) → j < i → get_elem? ys j ≡ get_elem? xs j)
          → (j : ℕ) → j < suc i
          → get_elem? (x ∷ ys) j ≡ get_elem? (x ∷ xs) j
      at_most ys h zero lt = refl
      at_most ys h (suc j) lt = h j (omega arith)

  -- The position is the place of an element that passes the test.
  pub position-some :
      (p : A → Bool) (xs : List A)
      → any p xs ≡ true
      → (i : ℕ) × (a : A) × (position p xs ≡ some i) × (get_elem? xs i ≡ some a) × (p a ≡ true)
  position-some p [] h = absurd (ground arith)
  position-some p (x ∷ xs) h = elim (Bool-cases (p x)) [
    | inl here ↦ (0, x, rw here refl, refl, here)
    | inr later ↦
        let rest = position-some p xs (ground arith) in
        (suc rest.0, rest.1, rw (later, rest.2) refl, rest.3, rest.4)
  ]

  pub position-none : (p : A → Bool) (xs : List A) → any p xs ≡ false → position p xs ≡ none
  position-none p [] h = refl
  position-none p (x ∷ xs) h = elim (Bool-cases (p x)) [
    | inl here ↦ absurd (ground arith)
    | inr later ↦ rw (later, position-none p xs (ground arith))
  ]

module _ {ℓ} {A : Type ℓ} (key : A → ℕ) where
  abbrev pub insert_sorted : A → List A → List A
  insert_sorted x [] = x ∷ []
  insert_sorted x (y ∷ ys) = if leb (key x) (key y) then x ∷ y ∷ ys else y ∷ insert_sorted x ys

  -- `slice::sort_by_key`, which is stable.
  unfoldable pub sort_by_key : List A → List A
  sort_by_key [] = []
  sort_by_key (x ∷ xs) = insert_sorted x (sort_by_key xs)

  abbrev pub IsSorted : List A → Type 0
  IsSorted [] = Unit
  IsSorted (x ∷ xs) = (all (λ y. leb (key x) (key y)) xs ≡ true) × IsSorted xs

  all-insert_sorted :
      (p : A → Bool) (x : A) (ys : List A) → all p (insert_sorted x ys) ≡ (p x && all p ys)
  all-insert_sorted p x [] = refl
  all-insert_sorted p x (y ∷ ys) = elim (Bool-cases (leb (key x) (key y))) [
    | inl h ↦ rw h
    | inr h ↦ rw (h, all-insert_sorted p x ys) (ground arith)
  ]

  -- Sorting keeps the elements.
  pub all-sort_by_key : (p : A → Bool) (xs : List A) → all p (sort_by_key xs) ≡ all p xs
  unfolding sort_by_key
  all-sort_by_key p [] = refl
  all-sort_by_key p (x ∷ xs) =
      all-insert_sorted p x (sort_by_key xs) ∙ ap (λ b. p x && b) (all-sort_by_key p xs)

  all_le :
      (m n : ℕ) (xs : List A)
      → leb m n ≡ true
      → all (λ y. leb n (key y)) xs ≡ true
      → all (λ y. leb m (key y)) xs ≡ true
  all_le m n [] h k = refl
  all_le m n (x ∷ xs) h k = ground (arith, all_le m n xs h)

  insert_sorted-IsSorted : (x : A) (ys : List A) → IsSorted ys → IsSorted (insert_sorted x ys)
  insert_sorted-IsSorted x [] s = (refl, tt)
  insert_sorted-IsSorted x (y ∷ ys) s = elim (Bool-cases (leb (key x) (key y))) [
    | inl h ↦ rw h ((ground (arith, all_le (key x) (key y) ys h s.0), s))
    | inr h ↦ rw h (
        (
          all-insert_sorted (λ z. leb (key y) (key z)) x ys ∙ ground arith,
          insert_sorted-IsSorted x ys s.1,
        ))
  ]

  pub sort_by_key-IsSorted : (xs : List A) → IsSorted (sort_by_key xs)
  unfolding sort_by_key
  sort_by_key-IsSorted [] = tt
  sort_by_key-IsSorted (x ∷ xs) =
      insert_sorted-IsSorted x (sort_by_key xs) (sort_by_key-IsSorted xs)
