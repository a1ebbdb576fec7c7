-- ===== src/Base/HashMap.antt =====
-- `Eq`, and the hash maps and sets of the standard library: as lists, in the order of insertion. The
-- source's order of iteration is not specified, so theorems speak of membership and lookups.
use Prim.Native.Nat.{ℕ}
use mathlib.Core.Path.{◌≡◌, refl, ◌∙◌}
use mathlib.Core.Bool.{Bool, true}
use mathlib.Core.Logic.{inl, inr}
use mathlib.Core.Option.{Option, none, some}
use mathlib.Core.List.{List, [], ◌∷◌, ◌++◌}
use native.Mathlib.Omega.{arith}
use mirror_mergiraf.Base.Tests.{◌==◌, if◌then◌else◌, Bool-cases}
use mirror_mergiraf.Base.Lists.{any}

-- The trait `Eq`: an equivalence, which need not look at all fields.
pub record Eq {ℓ} (A : Type ℓ) : Type ℓ where
  pub beq : A → A → Bool
  pub beq_refl : (a : A) → beq a a ≡ true
  pub beq_sym : (a b : A) → beq a b ≡ true → beq b a ≡ true
  pub beq_trans : (a b c : A) → beq a b ≡ true → beq b c ≡ true → beq a c ≡ true

pub nat_beq_refl : (a : ℕ) → (a == a) ≡ true
nat_beq_refl a = ground arith

pub nat_beq_sym : (a b : ℕ) → (a == b) ≡ true → (b == a) ≡ true
nat_beq_sym a b h = ground arith

pub nat_beq_trans : (a b c : ℕ) → (a == b) ≡ true → (b == c) ≡ true → (a == c) ≡ true
nat_beq_trans a b c h k = ground arith

instance unfoldable pub nat_Eq : Eq ℕ
nat_Eq = record {
  beq = ◌==◌;
  beq_refl = nat_beq_refl;
  beq_sym = nat_beq_sym;
  beq_trans = nat_beq_trans;
}

module _ {ℓ} {A : Type ℓ} ⦃e : Eq A⦄ where
  -- Equal values are equal to the same values.
  pub beq_right : (a b c : A) → e.beq a b ≡ true → e.beq c a ≡ e.beq c b
  beq_right a b c h = ground (arith, e.beq_trans c a b, e.beq_trans c b a, e.beq_sym a b)

  pub beq_comm : (a b : A) → e.beq a b ≡ e.beq b a
  beq_comm a b = ground (arith, e.beq_sym a b, e.beq_sym b a)

  pub beq_left : (a b c : A) → e.beq a b ≡ true → e.beq a c ≡ e.beq b c
  beq_left a b c h = beq_comm a c ∙ beq_right a b c h ∙ beq_comm c b

  abbrev pub set_contains : List A → A → Bool
  set_contains s a = any (λ x. e.beq x a) s

  -- `HashSet::insert` keeps the element that is there.
  unfoldable pub set_insert : A → List A → List A
  set_insert a s = if set_contains s a then s else s ++ a ∷ []

module _ {ℓ κ} {K : Type ℓ} {V : Type κ} ⦃e : Eq K⦄ where
  unfoldable pub get : List (K × V) → K → Option V
  get [] k = none
  get ((j, v) ∷ m) k = if e.beq j k then some v else get m k

  unfoldable pub insert : List (K × V) → K → V → List (K × V)
  insert [] k v = (k, v) ∷ []
  insert ((j, w) ∷ m) k v = if e.beq j k then (j, v) ∷ m else (j, w) ∷ insert m k v

  unfoldable pub remove : List (K × V) → K → List (K × V)
  remove [] k = []
  remove ((j, w) ∷ m) k = if e.beq j k then remove m k else (j, w) ∷ remove m k

  pub get_eq : (m : List (K × V)) (a b : K) → e.beq a b ≡ true → get m a ≡ get m b
  unfolding get
  get_eq [] a b h = refl
  get_eq ((j, v) ∷ m) a b h = ground (arith, beq_right a b j h, get_eq m a b)

  pub get-insert :
      (m : List (K × V)) (k : K) (v : V) (q : K)
      → get (insert m k v) q ≡ (if e.beq k q then some v else get m q)
  unfolding get insert
  get-insert [] k v q = refl
  get-insert ((j, w) ∷ m) k v q = elim (Bool-cases (e.beq j k)) [
    | inl same ↦ rw same (ground (arith, beq_left j k q same))
    | inr other ↦ rw other (elim (Bool-cases (e.beq j q)) [
      | inl here ↦ ground (arith, e.beq_sym k q, e.beq_trans j q k)
      | inr later ↦ rw later (get-insert m k v q)
    ])
  ]

  pub get-remove :
      (m : List (K × V)) (k q : K) → get (remove m k) q ≡ (if e.beq k q then none else get m q)
  unfolding get remove
  get-remove [] k q = ground arith
  get-remove ((j, w) ∷ m) k q = elim (Bool-cases (e.beq j k)) [
    | inl same ↦ rw same (ground (arith, beq_left j k q same, get-remove m k q))
    | inr other ↦ rw other (elim (Bool-cases (e.beq j q)) [
      | inl here ↦ ground (arith, e.beq_sym k q, e.beq_trans j q k)
      | inr later ↦ rw later (get-remove m k q)
    ])
  ]
