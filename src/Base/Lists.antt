-- ===== src/Base/Lists.antt =====
-- Lists measured and cut by native numbers, under the library's names.
use Prim.Native.Nat.{ℕ, zero, suc, ◌+◌, ◌-◌, ◌≤◌, ◌<◌}
use mathlib.Core.Path.{◌≡◌, refl, ap, ◌∙◌, sym}
use mathlib.Core.Bool.{Bool, true, false, ◌&&◌, ◌||◌}
use mathlib.Core.List.{List, [], ◌∷◌, ◌++◌}
use mathlib.Core.Option.{Option, none, some}
use native.Mathlib.Omega.{arith}
use native.Mathlib.Nat.{add-zero, suc-add}

module _ {ℓ} {A : Type ℓ} where
  abbrev pub length : List A → ℕ
  length [] = 0
  length (x ∷ xs) = suc (length xs)

  abbrev pub get_elem? : List A → ℕ → Option A
  get_elem? [] i = none
  get_elem? (x ∷ xs) zero = some x
  get_elem? (x ∷ xs) (suc i) = get_elem? xs i

  abbrev pub take : ℕ → List A → List A
  take zero xs = []
  take (suc n) [] = []
  take (suc n) (x ∷ xs) = x ∷ take n xs

  abbrev pub drop : ℕ → List A → List A
  drop zero xs = xs
  drop (suc n) [] = []
  drop (suc n) (x ∷ xs) = drop n xs

  -- `&xs[start .. start + len]`
  abbrev pub slice : ℕ → ℕ → List A → List A
  slice start len xs = take len (drop start xs)

  abbrev pub replicate : ℕ → A → List A
  replicate zero a = []
  replicate (suc n) a = a ∷ replicate n a

  -- `Iterator::any` and `Iterator::all`
  abbrev pub any : (A → Bool) → List A → Bool
  any p [] = false
  any p (x ∷ xs) = p x || any p xs

  abbrev pub all : (A → Bool) → List A → Bool
  all p [] = true
  all p (x ∷ xs) = p x && all p xs

  abbrev pub All {κ} : (A → Type κ) → List A → Type κ
  All P [] = Unit
  All P (x ∷ xs) = P x × All P xs

  pub lt-length_of_get_elem? :
      (xs : List A) (i : ℕ) {a : A} → get_elem? xs i ≡ some a → i < length xs
  lt-length_of_get_elem? [] i e = absurd (ground arith)
  lt-length_of_get_elem? (x ∷ xs) zero e = omega arith
  lt-length_of_get_elem? (x ∷ xs) (suc i) e = omega (arith, lt-length_of_get_elem? xs i e)

  pub length-append : (xs ys : List A) → length (xs ++ ys) ≡ length xs + length ys
  length-append [] ys = omega arith
  length-append (x ∷ xs) ys = omega (arith, length-append xs ys)

  pub length-drop : (n : ℕ) (xs : List A) → length (drop n xs) ≡ length xs - n
  length-drop zero xs = omega arith
  length-drop (suc n) [] = omega arith
  length-drop (suc n) (x ∷ xs) = omega (arith, length-drop n xs)

  pub length-take_le : (n : ℕ) (xs : List A) → n ≤ length xs → length (take n xs) ≡ n
  length-take_le zero xs h = refl
  length-take_le (suc n) [] h = absurd (omega arith)
  length-take_le (suc n) (x ∷ xs) h = ap suc (length-take_le n xs (omega arith))

  pub take-append-drop : (n : ℕ) (xs : List A) → take n xs ++ drop n xs ≡ xs
  take-append-drop zero xs = refl
  take-append-drop (suc n) [] = refl
  take-append-drop (suc n) (x ∷ xs) = ap (x ∷◌) (take-append-drop n xs)

  -- Dropping a whole prefix.
  pub drop-append : (xs ys : List A) (n : ℕ) → drop (length xs + n) (xs ++ ys) ≡ drop n ys
  drop-append [] ys n = ap (λ m. drop m ys) (omega arith)
  drop-append (x ∷ xs) ys n =
      ap (λ m. drop m (x ∷ xs ++ ys)) (shift (length xs)) ∙ drop-append xs ys n
    where
      shift : (m : ℕ) → suc m + n ≡ suc (m + n)
      shift m = omega arith

  -- A slice that lies in the first part.
  pub slice-append-left :
      (start len : ℕ) (xs ys : List A)
      → start + len ≤ length xs
      → slice start len (xs ++ ys) ≡ slice start len xs
  slice-append-left zero zero xs ys h = refl
  slice-append-left zero (suc len) [] ys h = elim h' [ ]
    where
      h' : suc len ≤ 0
      h' = omega arith
  slice-append-left zero (suc len) (x ∷ xs) ys h =
      ap (x ∷◌) (slice-append-left zero len xs ys (omega arith))
  slice-append-left (suc start) len [] ys h = elim h' [ ]
    where
      h' : suc (start + len) ≤ 0
      h' = omega arith
  slice-append-left (suc start) len (x ∷ xs) ys h = slice-append-left start len xs ys (omega arith)

  pub slice-append-right :
      (xs ys : List A) (start len : ℕ)
      → slice (length xs + start) len (xs ++ ys) ≡ slice start len ys
  slice-append-right xs ys start len = ap (take len) (drop-append xs ys start)

  pub All-append {κ} : (P : A → Type κ) (xs ys : List A) → All P xs → All P ys → All P (xs ++ ys)
  All-append P [] ys a b = b
  All-append P (x ∷ xs) ys a b = (a.0, All-append P xs ys a.1 b)

module _ {ℓ} {A : Type ℓ} where
  pub take-append : (xs ys : List A) → take (length xs) (xs ++ ys) ≡ xs
  take-append [] ys = refl
  take-append (x ∷ xs) ys = ap (x ∷◌) (take-append xs ys)

  pub drop-drop : (n k : ℕ) (xs : List A) → drop n (drop k xs) ≡ drop (k + n) xs
  drop-drop n zero xs = ap (λ m. drop m xs) (omega arith)
  drop-drop zero (suc k) [] = ap (λ m. drop m []) (sym (add-zero (suc k)))
  drop-drop (suc n) (suc k) [] = ap (λ m. drop m []) (sym (suc-add k (suc n)))
  drop-drop n (suc k) (x ∷ xs) = drop-drop n k xs ∙ ap (λ m. drop m (x ∷ xs)) (sym (suc-add k n))

  slice-take : (d n len : ℕ) (xs : List A) → d + n ≤ len → slice d n (take len xs) ≡ slice d n xs
  slice-take zero zero len xs h = refl
  slice-take zero (suc n) zero xs h = absurd (omega arith)
  slice-take zero (suc n) (suc len) [] h = refl
  slice-take zero (suc n) (suc len) (x ∷ xs) h = ap (x ∷◌) (slice-take zero n len xs (omega arith))
  slice-take (suc d) n zero xs h = absurd (omega arith)
  slice-take (suc d) n (suc len) [] h = refl
  slice-take (suc d) n (suc len) (x ∷ xs) h = slice-take d n len xs (omega arith)

  -- A slice of a slice is a slice.
  pub slice-slice :
      (d n k len : ℕ) (xs : List A) → d + n ≤ len → slice d n (slice k len xs) ≡ slice (k + d) n xs
  slice-slice d n k len xs h = slice-take d n len (drop k xs) h ∙ ap (take n) (drop-drop d k xs)

module _ {ℓ} {A : Type ℓ} where
  -- `Iterator::filter` by a test, `Iterator::find` and `Iterator::sum`
  abbrev pub filter : (A → Bool) → List A → List A
  filter p [] = []
  filter p (x ∷ xs) = elim (p x) [ true ↦ x ∷ filter p xs | false ↦ filter p xs ]

  abbrev pub find : (A → Bool) → List A → Option A
  find p [] = none
  find p (x ∷ xs) = elim (p x) [ true ↦ some x | false ↦ find p xs ]

  abbrev pub find_map {κ} : {B : Type κ} → (A → Option B) → List A → Option B
  find_map f [] = none
  find_map f (x ∷ xs) = elim (f x) [ some b ↦ some b | none ↦ find_map f xs ]

-- `Iterator::zip` ends with the shorter list.
abbrev pub zip {ℓ κ} : {A : Type ℓ} {B : Type κ} → List A → List B → List (A × B)
zip [] bs = []
zip (a ∷ rest) [] = []
zip (a ∷ rest) (b ∷ bs) = (a, b) ∷ zip rest bs

abbrev pub sum : List ℕ → ℕ
sum [] = 0
sum (x ∷ xs) = x + sum xs

module _ {ℓ} {A : Type ℓ} where
  pub any-append : (p : A → Bool) (xs ys : List A) → any p (xs ++ ys) ≡ (any p xs || any p ys)
  any-append p [] ys = refl
  any-append p (x ∷ xs) ys = ground (arith, any-append p xs ys)

  pub all-append : (p : A → Bool) (xs ys : List A) → all p (xs ++ ys) ≡ (all p xs && all p ys)
  all-append p [] ys = refl
  all-append p (x ∷ xs) ys = ground (arith, all-append p xs ys)
