-- ===== src/Merge/Select.antt =====
-- `select_best_merge` returns the best of the merges, and the line-based one.
use mirror_mergiraf.Base.{
  ℕ, zero, suc, ◌<◌, Bool, true, false, not, ◌&&◌, ◌||◌, ◌==◌, ltb, leb, List, [], ◌∷◌, some, ◌≡◌,
  refl, subst, sym, ap, ◌∙◌, if◌then◌else◌, unwrap_or, get_elem?, all, any, arith, Bool-cases, inl,
  inr, ==_iff, ltb→lt,
}
use mirror_mergiraf.Base.Run.{done, Returns, Returns-imp}
use mirror_mergiraf.MergeResult.{MergeResult}
use mirror_mergiraf.Merge.{
  is_line_based, without_issues, LineBasedAndBestAre, remove_both, remove_at, select_best_merge,
  best_of, line_based_of,
}
use mirror_mergiraf.Merge.Vec.{
  position, swap_remove_lem, position-some, position-none, sort_by_key, all-sort_by_key, IsSorted,
  sort_by_key-IsSorted,
}

-- The order of preference: a merge without issues before one with issues, and then the one with less
-- in its conflicts.
abbrev pub outranks : MergeResult → MergeResult → Bool
outranks best m =
    if without_issues m
    then without_issues best && leb best.conflict_mass m.conflict_mass
    else without_issues best || leb best.conflict_mass m.conflict_mass

-- The choice: `best` is of the merges and outranks them all, and the other is line-based.
pub record Selects (merges : List MergeResult) (choice : LineBasedAndBestAre) : Type 0 where
  pub best_outranks : all (outranks (best_of choice)) merges ≡ true
  pub best_is_of : (p : MergeResult → Bool) → all p merges ≡ true → p (best_of choice) ≡ true
  pub line_based_is_of :
      (p : MergeResult → Bool) → all p merges ≡ true → p (line_based_of choice) ≡ true
  pub line_based_is : is_line_based (line_based_of choice) ≡ true

module _ {ℓ} {A : Type ℓ} where
  pub all-get_elem? :
      (p : A → Bool) (xs : List A) (i : ℕ) (a : A)
      → get_elem? xs i ≡ some a
      → all p xs ≡ true
      → p a ≡ true
  all-get_elem? p [] i a e h = absurd (ground arith)
  all-get_elem? p (x ∷ xs) zero a e h = ground arith
  all-get_elem? p (x ∷ xs) (suc i) a e h = all-get_elem? p xs i a e (ground arith)

  all-not-any : (p : A → Bool) (xs : List A) → any p xs ≡ false → all (λ x. not (p x)) xs ≡ true
  all-not-any p [] h = refl
  all-not-any p (x ∷ xs) h = ground (arith, all-not-any p xs)

  any-not-all : (p : A → Bool) (xs : List A) → any p xs ≡ not (all (λ x. not (p x)) xs)
  any-not-all p [] = refl
  any-not-all p (x ∷ xs) = ground (arith, any-not-all p xs)

  all_imp :
      (p q : A → Bool) (xs : List A)
      → ((x : A) → p x ≡ true → q x ≡ true)
      → all p xs ≡ true
      → all q xs ≡ true
  all_imp p q [] f h = refl
  all_imp p q (x ∷ xs) f h = ground (arith, f x, all_imp p q xs f)

-- Sorting does not change whether there is a line-based merge.
pub any-sort_by_key :
    (p : MergeResult → Bool) (xs : List MergeResult)
    → any p (sort_by_key (λ m. m.conflict_mass) xs) ≡ any p xs
any-sort_by_key p xs =
    any-not-all p (sort_by_key (λ m. m.conflict_mass) xs)
    ∙ ap not (all-sort_by_key (λ m. m.conflict_mass) (λ x. not (p x)) xs)
    ∙ sym (any-not-all p xs)

-- The merge that is taken for the best: it has a place, and outranks all.
abbrev pub BestAt : List MergeResult → ℕ → Type 0
BestAt xs i = (b : MergeResult) × (get_elem? xs i ≡ some b) × (all (outranks b) xs ≡ true)

-- The first merge without issues.
first_outranks :
    (xs : List MergeResult)
    → IsSorted (λ m. m.conflict_mass) xs
    → any without_issues xs ≡ true
    → (i : ℕ) × (b : MergeResult) × (position without_issues xs ≡ some i)
      × (get_elem? xs i ≡ some b)
      × (without_issues b ≡ true)
      × (all (outranks b) xs ≡ true)
first_outranks [] s h = absurd (ground arith)
first_outranks (x ∷ xs) s h = elim (Bool-cases (without_issues x)) [
  | inl clean ↦ (
    0,
    x,
    rw clean refl,
    refl,
    clean,
    ground (
      arith,
      all_imp (λ y. leb x.conflict_mass y.conflict_mass) (outranks x) xs (λ y le. ground arith) s.0,
    ),
  )
  | inr issues ↦
      let rest = first_outranks xs s.1 (ground arith) in
      (suc rest.0, rest.1, rw (issues, rest.2) refl, rest.3, rest.4, ground (arith, rest.4, rest.5))
]

-- Where all have issues, the first merge.
least_outranks :
    (xs : List MergeResult)
    → IsSorted (λ m. m.conflict_mass) xs
    → any without_issues xs ≡ false
    → any is_line_based xs ≡ true
    → BestAt xs 0
least_outranks [] s h some_line = absurd (ground arith)
least_outranks (x ∷ xs) s h some_line = (
  x,
  refl,
  ground (
    arith,
    all_imp (λ y. not (without_issues y) && leb x.conflict_mass y.conflict_mass) (outranks x) xs
        (λ y le. ground arith) both,
  ),
)
  where
    both : all (λ y. not (without_issues y) && leb x.conflict_mass y.conflict_mass) xs ≡ true
    both = all_and xs (all-not-any without_issues xs (ground arith)) s.0
      where
        all_and :
            (ys : List MergeResult)
            → all (λ y. not (without_issues y)) ys ≡ true
            → all (λ y. leb x.conflict_mass y.conflict_mass) ys ≡ true
            → all (λ y. not (without_issues y) && leb x.conflict_mass y.conflict_mass) ys ≡ true
        all_and [] a b = refl
        all_and (y ∷ ys) a b = ground (arith, all_and ys)

pub best_pos-BestAt :
    (xs : List MergeResult)
    → IsSorted (λ m. m.conflict_mass) xs
    → any is_line_based xs ≡ true
    → BestAt xs (unwrap_or (position without_issues xs) 0)
best_pos-BestAt xs s some_line = elim (Bool-cases (any without_issues xs)) [
  | inl some_clean ↦
      let first = first_outranks xs s some_clean in
      subst (λ o. BestAt xs (unwrap_or o 0)) (sym first.2) (first.1, first.3, first.5)
  | inr all_issues ↦
      subst (λ o. BestAt xs (unwrap_or o 0)) (sym (position-none without_issues xs all_issues))
        (least_outranks xs s all_issues some_line)
]

-- The removals yield the elements that stood at the two places.
remove_both_lem :
    (xs : List MergeResult) (i j : ℕ) (a b : MergeResult)
    → get_elem? xs i ≡ some a
    → get_elem? xs j ≡ some b
    → j < i
    → remove_both xs i j ≡ done (a, b)
remove_both_lem xs i j a b at_i at_j lt =
    let one = swap_remove_lem xs i a at_i in
    let other = swap_remove_lem one.0 j b (one.2 j lt ∙ at_j) in rw (one.1, other.1) refl

remove_at_lem :
    (xs : List MergeResult) (i j : ℕ) (best line_based : MergeResult)
    → get_elem? xs i ≡ some best
    → get_elem? xs j ≡ some line_based
    → Returns
        (λ choice. (best_of choice ≡ best) × (line_based_of choice ≡ line_based))
        (remove_at xs i j)
remove_at_lem xs i j best line_based at_i at_j = elim (Bool-cases (i == j)) [
  | inl same ↦
      rw (same, (swap_remove_lem xs i best at_i).1)
        ((refl, some_inj (sym at_i ∙ ap (get_elem? xs) ((==_iff i j).0 same) ∙ at_j)))
  | inr differ ↦ elim (Bool-cases (ltb i j)) [
    | inl less ↦
        rw (differ, less, remove_both_lem xs j i line_based best at_j at_i (ltb→lt i j less))
          ((refl, refl))
    | inr greater ↦
        rw (differ, greater, remove_both_lem xs i j best line_based at_i at_j (ground arith))
          ((refl, refl))
  ]
]
  where
    some_inj : {a b : MergeResult} → some a ≡ some b → a ≡ b
    some_inj e = ap (λ o. unwrap_or o best) e

-- Where there is a line-based merge among the results, the choice does not panic, and its best merge
-- is one of the results and outranks them all: it has no issues if any has none, and of those like it
-- in this none has less conflict mass. The other merge it returns is one of the results that is
-- line-based.
pub select_best_merge-Selects :
    (merges : List MergeResult)
    → any is_line_based merges ≡ true
    → Returns (Selects merges) (select_best_merge merges)
unfolding select_best_merge
select_best_merge-Selects merges some_line = rw line.2 (
    Returns-imp (remove_at sorted (unwrap_or (position without_issues sorted) 0) line.0)
      (λ choice is. record {
        best_outranks =
            sym (all-sort_by_key mass _ merges)
            ∙ subst (λ b. all (outranks b) sorted ≡ true) (sym is.0) best.2;
        best_is_of = λ p h.
            subst (λ b. p b ≡ true) (sym is.0)
              (all-get_elem? p sorted _ best.0 best.1 (all-sort_by_key mass p merges ∙ h));
        line_based_is_of = λ p h.
            subst (λ b. p b ≡ true) (sym is.1)
              (all-get_elem? p sorted line.0 line.1 line.3 (all-sort_by_key mass p merges ∙ h));
        line_based_is = subst (λ b. is_line_based b ≡ true) (sym is.1) line.4;
      })
      (remove_at_lem sorted _ line.0 best.0 line.1 best.1 line.3))
  where
    mass : MergeResult → ℕ
    mass m = m.conflict_mass

    sorted : List MergeResult
    sorted = sort_by_key mass merges

    has_line : any is_line_based sorted ≡ true
    has_line = any-sort_by_key is_line_based merges ∙ some_line

    line :
        (i : ℕ) × (a : MergeResult) × (position is_line_based sorted ≡ some i)
        × (get_elem? sorted i ≡ some a)
        × (is_line_based a ≡ true)
    line = position-some is_line_based sorted has_line

    best : BestAt sorted (unwrap_or (position without_issues sorted) 0)
    best = best_pos-BestAt sorted (sort_by_key-IsSorted mass merges) has_line
