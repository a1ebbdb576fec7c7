-- ===== src/MultiMap.antt =====
-- src/multimap.rs: a map that associates a set of values to each key.
pub mod Laws
mod Examples
use mirror_mergiraf.Base.{
  ℕ, Bool, true, false, not, Option, none, some, List, [], ◌∷◌, ◌++◌, if◌then◌else◌, length,
  map as list_map, unwrap_or, filter, find, any,
}
use mirror_mergiraf.Base.HashMap
use mirror_mergiraf.Base.HashMap.{Eq, set_contains, set_insert}

pub record MultiMap {ℓ κ} (K : Type ℓ) (V : Type κ) : Type (ℓ ⊔ κ) where
  pub map : List (K × List V)

module _ {κ} {V : Type κ} where
  -- `extract_if(pred).next()`: the first match, and the set without it.
  abbrev pub drop_first : (V → Bool) → List V → List V
  drop_first pred [] = []
  drop_first pred (x ∷ set) = if pred x then set else x ∷ drop_first pred set

module _ {ℓ κ} {K : Type ℓ} {V : Type κ} where
  unfoldable pub new : MultiMap K V
  new = record { map = [] }

  unfoldable pub keys : MultiMap K V → List K
  keys m = list_map (λ p. p.0) m.map

  unfoldable pub len : MultiMap K V → ℕ
  unfolding keys
  len m = length (keys m)

  abbrev pub values_of : List (K × List V) → List V
  values_of [] = []
  values_of ((k, set) ∷ m) = set ++ values_of m

  -- `flatten` over the sets
  unfoldable pub values : MultiMap K V → List V
  values m = values_of m.map

module _ {ℓ κ} {K : Type ℓ} {V : Type κ} ⦃e : Eq K⦄ ⦃f : Eq V⦄ where
  unfoldable pub get : MultiMap K V → K → List V
  unfolding HashMap.get
  get m k = unwrap_or (HashMap.get m.map k) []

  -- The new map, and whether the value was not there yet.
  unfoldable pub insert : MultiMap K V → K → V → MultiMap K V × Bool
  unfolding HashMap.get HashMap.insert set_insert
  insert m k v =
      let set = unwrap_or (HashMap.get m.map k) [] in
      (record { map = HashMap.insert m.map k (set_insert v set) }, not (set_contains set v))

  unfoldable pub contains_key : MultiMap K V → K → Bool
  unfolding get
  contains_key m k = is_nonempty (get m k)
    where
      is_nonempty : List V → Bool
      is_nonempty [] = false
      is_nonempty (_ ∷ _) = true

  unfoldable pub from_iter_onto : MultiMap K V → List (K × V) → MultiMap K V
  unfolding insert
  from_iter_onto m [] = m
  from_iter_onto m ((k, v) ∷ pairs) = from_iter_onto (insert m k v).0 pairs

  unfoldable pub from_iter : List (K × V) → MultiMap K V
  unfolding from_iter_onto new
  from_iter pairs = from_iter_onto new pairs

  abbrev pub with_set : MultiMap K V → K → List V → MultiMap K V
  unfolding HashMap.insert HashMap.remove
  with_set m k [] = record { map = HashMap.remove m.map k }
  with_set m k (x ∷ set) = record { map = HashMap.insert m.map k (x ∷ set) }

  unfoldable pub remove_one : MultiMap K V → K → (V → Bool) → MultiMap K V × Option V
  unfolding HashMap.get HashMap.insert HashMap.remove
  remove_one m k pred = elim (HashMap.get m.map k) [
    | none ↦ (m, none)
    | some set ↦ (with_set m k (drop_first pred set), find pred set)
  ]
