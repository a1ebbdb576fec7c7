-- ===== src/TreeBuilder/Commutative/Members.antt =====
-- What is in the lists that the commutative merge of lists makes.
use mirror_mergiraf.Base.{
  Bool, true, false, not, ◌&&◌, ◌||◌, List, [], ◌∷◌, ◌++◌, ◌≡◌, refl, ap, ap₂, ◌∙◌, filter,
  any-append, arith, Bool-cases, inl, inr,
}
use mirror_mergiraf.Base.HashMap.{set_insert}
use mirror_mergiraf.MultiMap.Laws.{set_contains_eq, set_contains-set_insert}
use mirror_mergiraf.Pcs.{Leader, rev_node_eq}
use mirror_mergiraf.Pcs.Equality.{rev_node_Eq, rev_node_eq_refl}
use mirror_mergiraf.TreeBuilder.Commutative.{
  is_in, collect_onto, collect, left_added, right_added, right_removed,
}

-- A test that does not tell equal leaders apart.
pub Respects : (Leader → Bool) → Type 0
Respects p = (a b : Leader) → rev_node_eq a b ≡ true → p a ≡ p b

pub is_in-filter :
    (p : Leader → Bool) (xs : List Leader) (x : Leader)
    → Respects p
    → is_in (filter p xs) x ≡ (is_in xs x && p x)
unfolding Respects rev_node_Eq
is_in-filter p [] x same = refl
is_in-filter p (y ∷ xs) x same = elim (Bool-cases (p y)) [
  | inl keep ↦ rw (keep, filter) (ground (arith, is_in-filter p xs x same, same y x))
  | inr drop ↦ rw (drop, filter) (ground (arith, is_in-filter p xs x same, same y x))
]

pub is_in-Respects : (xs : List Leader) → Respects (λ x. not (is_in xs x))
unfolding Respects rev_node_Eq
is_in-Respects xs a b h = ap not (set_contains_eq xs a b h)

is_in-collect_onto :
    (xs set : List Leader) (x : Leader)
    → is_in (collect_onto set xs) x ≡ (is_in set x || is_in xs x)
unfolding collect_onto
is_in-collect_onto [] set x = ground arith
is_in-collect_onto (y ∷ xs) set x =
    is_in-collect_onto xs (set_insert y set) x ∙ ground (arith, set_contains-set_insert y x set)

pub is_in-right_removed :
    (base right : List Leader) (x : Leader)
    → is_in (right_removed base right) x ≡ (is_in base x && not (is_in right x))
unfolding right_removed collect
is_in-right_removed base right x =
    is_in-filter (λ x. not (is_in right x)) (collect_onto [] base) x (is_in-Respects right)
    ∙ ap (λ b. b && not (is_in right x)) (is_in-collect_onto base [] x)

is_in-left_added :
    (base left : List Leader) (x : Leader)
    → is_in (left_added base left) x ≡ (is_in left x && not (is_in base x))
unfolding left_added
is_in-left_added base left x = is_in-filter (λ x. not (is_in base x)) left x (is_in-Respects base)

pub right_added-Respects :
    (base left : List Leader)
    → Respects (λ x. not (is_in base x) && not (is_in (left_added base left) x))
unfolding Respects
right_added-Respects base left a b h =
    ap₂ ◌&&◌ (is_in-Respects base a b h) (is_in-Respects (left_added base left) a b h)

pub is_in-right_added :
    (base left right : List Leader) (x : Leader)
    → is_in (right_added base left right) x
      ≡ (is_in right x && (not (is_in base x) && not (is_in left x)))
unfolding right_added
is_in-right_added base left right x =
    is_in-filter (λ x. not (is_in base x) && not (is_in (left_added base left) x)) right x
      (right_added-Respects base left)
    ∙ ground (arith, is_in-left_added base left x)

head_is_in : (x : Leader) (xs : List Leader) → is_in (x ∷ xs) x ≡ true
unfolding rev_node_Eq
head_is_in x xs = ground (arith, rev_node_eq_refl x)

-- No leader stands twice in a list.
abbrev pub distinct : List Leader → Bool
distinct [] = true
distinct (x ∷ xs) = not (is_in xs x) && distinct xs

pub distinct-filter :
    (p : Leader → Bool) (xs : List Leader)
    → Respects p
    → distinct xs ≡ true
    → distinct (filter p xs) ≡ true
distinct-filter p [] same h = refl
distinct-filter p (x ∷ xs) same h = elim (Bool-cases (p x)) [
  | inl keep ↦
      rw (keep, filter) (ground (arith, is_in-filter p xs x same, distinct-filter p xs same))
  | inr drop ↦ rw (drop, filter) (ground (arith, distinct-filter p xs same))
]

pub is_in-append :
    (xs ys : List Leader) (x : Leader) → is_in (xs ++ ys) x ≡ (is_in xs x || is_in ys x)
is_in-append xs ys x = any-append _ xs ys

pub distinct-append :
    (xs ys : List Leader)
    → distinct xs ≡ true
    → distinct ys ≡ true
    → ((x : Leader) → is_in xs x ≡ true → is_in ys x ≡ false)
    → distinct (xs ++ ys) ≡ true
distinct-append [] ys h k apart = k
distinct-append (x ∷ xs) ys h k apart = ground (
  arith,
  is_in-append xs ys x,
  apart x (head_is_in x xs),
  distinct-append xs ys (ground arith) k (λ y m. apart y (ground arith)),
)
