-- ===== src/Solve/Choice.antt =====
-- What `do_solve` comes to for a file whose conflicts can be parsed.
use mirror_mergiraf.Base.{
  ℕ, Bool, true, false, not, ◌&&◌, ◌||◌, ◌==◌, leb, List, [], ◌∷◌, ◌++◌, Option, none, some, ◌≡◌,
  refl, sym, ap, ◌∙◌, unwrap_or, find, get_elem?, all, any, any-append, arith, Bool-cases,
  Option-cases, ==_iff, inl, inr,
}
use mirror_mergiraf.Base.Run.{Run, Returns, Returns->>=, Result, ok, err}
use mirror_mergiraf.Base.Text.{text_eq}
use mirror_mergiraf.MergeResult.{MergeResult}
use mirror_mergiraf.Merge.{without_issues, is_line_based}
use mirror_mergiraf.Merge.Select.{outranks, BestAt, best_pos-BestAt, any-sort_by_key, all-get_elem?}
use mirror_mergiraf.Merge.Vec.{position, sort_by_key, sort_by_key-IsSorted, all-sort_by_key}
use mirror_mergiraf.ParsedMerge.{ParsedMerge, conflict_mass}
use mirror_mergiraf.ParsedMerge.Render.{
  into_merge_result, into_merge_result-Returns, Reports, has_side, line_based_method,
}
use mirror_mergiraf.Settings.{DisplaySettings, add_revision_names}
use mirror_mergiraf.Solve.{
  from_parsed_original, find_or_first, SolveError, select_best_solve, attempt, attempt_oid,
  from_git, push_original, do_solve,
}

module _ {ℓ} {A : Type ℓ} where
  find-position :
      (p : A → Bool) (xs : List A)
      → find p xs ≡ (elim (position p xs) [ none ↦ none | some i ↦ get_elem? xs i ])
  find-position p [] = refl
  find-position p (x ∷ xs) = elim (Bool-cases (p x)) [
    | inl here ↦ rw (here, find)
    | inr later ↦
        rw (later, find, find-position p xs)
          (elim (Option-cases (position p xs)) [ inl e ↦ rw e | inr (i, e) ↦ rw e ])
  ]

  find_or_first_lem :
      (p : A → Bool) (xs : List A) (a : A)
      → get_elem? xs (unwrap_or (position p xs) 0) ≡ some a
      → find_or_first p xs ≡ some a
  find_or_first_lem p [] a h = absurd (ground arith)
  find_or_first_lem p (x ∷ xs) a h = go (position p (x ∷ xs)) refl h
    where
      found :
          (o : Option A)
          → find p (x ∷ xs) ≡ o
          → find_or_first p (x ∷ xs) ≡ (elim o [ some b ↦ some b | none ↦ some x ])
      found o e = ap (λ o. elim o [ some b ↦ some b | none ↦ some x ]) e

      go :
          (o : Option ℕ)
          → position p (x ∷ xs) ≡ o
          → get_elem? (x ∷ xs) (unwrap_or o 0) ≡ some a
          → find_or_first p (x ∷ xs) ≡ some a
      go none e h =
          found none (
            find-position p (x ∷ xs)
            ∙ ap (λ o. elim o [ none ↦ none | some i ↦ get_elem? (x ∷ xs) i ]) e)
          ∙ h
      go (some i) e h = found (some a) (
          find-position p (x ∷ xs)
          ∙ ap (λ o. elim o [ none ↦ none | some i ↦ get_elem? (x ∷ xs) i ]) e
          ∙ h)

-- A solution that may be chosen is not marked as the original.
abbrev pub is_solution : MergeResult → Bool
is_solution m = not (text_eq m.method from_parsed_original)

-- Among the solutions is the original merge: line-based, without issues, and of the given mass.
abbrev is_original : ℕ → MergeResult → Bool
is_original mass m = is_line_based m && without_issues m && m.conflict_mass == mass

abbrev HasOriginal : ℕ → List MergeResult → Type 0
HasOriginal mass solves = (all is_solution solves ≡ true) × (any (is_original mass) solves ≡ true)

-- A solution without conflicts, or one without issues that has no more mass in its conflicts.
abbrev pub is_improved : ℕ → MergeResult → Bool
is_improved mass m = m.conflict_count == 0 || (without_issues m && leb m.conflict_mass mass)

abbrev pub Solved : ℕ → Result SolveError MergeResult → Type 0
Solved mass (ok m) = is_improved mass m ≡ true
Solved mass (err e) = ⊥

-- A merge that outranks the original one is an improvement.
improved_of_outranks :
    (mass : ℕ) (b : MergeResult) (solves : List MergeResult)
    → any (is_original mass) solves ≡ true
    → all (outranks b) solves ≡ true
    → is_improved mass b ≡ true
improved_of_outranks mass b [] h k = absurd (ground arith)
improved_of_outranks mass b (x ∷ xs) h k = ground (arith, improved_of_outranks mass b xs)

any_line_based :
    (mass : ℕ) (solves : List MergeResult)
    → any (is_original mass) solves ≡ true
    → any is_line_based solves ≡ true
any_line_based mass [] h = h
any_line_based mass (x ∷ xs) h = ground (arith, any_line_based mass xs)

select_best_solve-Solved :
    (mass : ℕ) (solves : List MergeResult)
    → HasOriginal mass solves
    → Returns (Solved mass) (select_best_solve solves)
unfolding select_best_solve
select_best_solve-Solved mass [] h = absurd (ground arith)
select_best_solve-Solved mass (solve ∷ solves) h =
    rw (find_or_first_lem without_issues sorted best.0 best.1, is_other) improved
  where
    key : MergeResult → ℕ
    key m = m.conflict_mass

    sorted : List MergeResult
    sorted = sort_by_key key (solve ∷ solves)

    best : BestAt sorted (unwrap_or (position without_issues sorted) 0)
    best =
        best_pos-BestAt sorted (sort_by_key-IsSorted key (solve ∷ solves)) (
          any-sort_by_key is_line_based (solve ∷ solves) ∙ any_line_based mass (solve ∷ solves) h.1)

    improved : is_improved mass best.0 ≡ true
    improved =
        improved_of_outranks mass best.0 (solve ∷ solves) h.1
          (sym (all-sort_by_key key (outranks best.0) (solve ∷ solves)) ∙ best.2)

    solution : is_solution best.0 ≡ true
    solution =
        all-get_elem? is_solution sorted (unwrap_or (position without_issues sorted) 0) best.0
          best.1 (all-sort_by_key key is_solution (solve ∷ solves) ∙ h.0)

    is_other : text_eq best.0.method from_parsed_original ≡ false
    is_other = ground (arith, solution)

-- What an attempt returns is a solution.
abbrev pub AreSolutions {ℓ} : {E : Type ℓ} → Result E MergeResult → Type 0
AreSolutions (ok m) = is_solution m ≡ true
AreSolutions (err e) = Unit

abbrev pub AreSolutions? {ℓ} : {E : Type ℓ} → Option (Result E MergeResult) → Type 0
AreSolutions? none = Unit
AreSolutions? (some r) = AreSolutions r

all-append_one :
    (p : MergeResult → Bool) (xs : List MergeResult) (m : MergeResult)
    → all p xs ≡ true
    → p m ≡ true
    → all p (xs ++ m ∷ []) ≡ true
all-append_one p [] m h k = ground arith
all-append_one p (x ∷ xs) m h k = ground (arith, all-append_one p xs m)

module _ {ℓ} {E : Type ℓ} (mass : ℕ)
    (continue : List MergeResult → Run (Result SolveError MergeResult))
    (solved : (solves : List MergeResult)
      → HasOriginal mass solves
      → Returns (Solved mass) (continue solves)) where
  attempt-Solved :
      (result : Result E MergeResult) (solves : List MergeResult)
      → AreSolutions result
      → HasOriginal mass solves
      → Returns (Solved mass) (attempt result solves continue)
  attempt-Solved (err e) solves a h = solved solves h
  attempt-Solved (ok m) solves a h = elim (Bool-cases (m.conflict_count == 0)) [
    | inl clean ↦ rw clean (ground arith)
    | inr dirty ↦ rw dirty (
        solved (solves ++ m ∷ []) (
          (
            all-append_one is_solution solves m h.0 a,
            any-append (is_original mass) solves (m ∷ []) ∙ ground arith,
          )))
  ]

  attempt_oid-Solved :
      (result : Option (Result E MergeResult)) (solves : List MergeResult)
      → AreSolutions? result
      → HasOriginal mass solves
      → Returns (Solved mass) (attempt_oid result solves continue)
  attempt_oid-Solved none solves a h = solved solves h
  attempt_oid-Solved (some result) solves a h = attempt-Solved result solves a h

-- The original merge is pushed with its issues reset.
original :
    (pm : ParsedMerge) (m : MergeResult)
    → (m.conflict_mass ≡ conflict_mass pm) × (m.method ≡ line_based_method)
    → (solves : List MergeResult) → all is_solution solves ≡ true
    → HasOriginal (conflict_mass pm) (solves ++ record m { has_additional_issues = false } ∷ [])
original pm m r solves h = (
  all-append_one is_solution solves (record m { has_additional_issues = false }) h
      (ap (λ t. not (text_eq t from_parsed_original)) r.1),
  any-append (is_original (conflict_mass pm)) solves
        (record m { has_additional_issues = false } ∷ [])
      ∙ ground (arith, same_method, same_mass),
)
  where
    same_method : text_eq m.method line_based_method ≡ true
    same_method = ap (λ t. text_eq t line_based_method) r.1

    same_mass : (m.conflict_mass == conflict_mass pm) ≡ true
    same_mass = (==_iff m.conflict_mass (conflict_mass pm)).1 r.0

module _ {ℓ} {E : Type ℓ} (resolve_merge : ParsedMerge → DisplaySettings → Result E MergeResult)
    (from_git_revisions : DisplaySettings → Result E MergeResult)
    (from_oid : DisplaySettings → Option ParsedMerge → Option (Result E MergeResult))
    (resolve_are : (pm : ParsedMerge) (s : DisplaySettings) → AreSolutions (resolve_merge pm s))
    (git_are : (s : DisplaySettings) → AreSolutions (from_git_revisions s))
    (oid_are : (s : DisplaySettings) (pm : Option ParsedMerge)
      → AreSolutions? (from_oid s pm)) where
  push_original-Solved :
      (settings : DisplaySettings) (pm : ParsedMerge) (solves : List MergeResult)
      → all has_side pm.chunks ≡ true
      → all is_solution solves ≡ true
      → Returns
          (Solved (conflict_mass pm))
          (push_original resolve_merge from_git_revisions from_oid settings pm solves)
  unfolding from_git push_original into_merge_result
  push_original-Solved settings pm solves sides h =
      Returns->>= (Reports settings pm) (Solved (conflict_mass pm)) (into_merge_result settings pm)
        (λ m.
          from_git resolve_merge from_git_revisions from_oid settings (some pm)
            (solves ++ record m { has_additional_issues = false } ∷ []))
        (λ m r.
          attempt-Solved (conflict_mass pm) _
            (λ solves.
              attempt_oid-Solved (conflict_mass pm) select_best_solve
                (select_best_solve-Solved (conflict_mass pm)) (from_oid settings (some pm)) solves
                (oid_are settings (some pm)))
            (from_git_revisions settings)
            (solves ++ record m { has_additional_issues = false } ∷ []) (git_are settings)
            (original pm m (r.1, r.2) solves h))
        (into_merge_result-Returns settings pm sides)

  -- For a file whose conflicts are parsed, each with a side, the solver returns a merge, and never the
  -- error that there is no solution: the merge has no conflicts, or it has no issues and no more mass
  -- in its conflicts than the file. This is so if none of the other merges is named as the original.
  pub do_solve-Solved :
      (settings : DisplaySettings) (pm : ParsedMerge)
      → all has_side pm.chunks ≡ true
      → Returns
          (Solved (conflict_mass pm))
          (do_solve resolve_merge from_git_revisions from_oid settings (ok pm))
  unfolding do_solve
  do_solve-Solved settings pm sides =
      go (resolve_merge pm (add_revision_names settings pm))
        (resolve_are pm (add_revision_names settings pm))
    where
      go :
          (result : Result E MergeResult)
          → AreSolutions result
          → Returns (Solved (conflict_mass pm)) (
              attempt result [] (
                push_original resolve_merge from_git_revisions from_oid
                  (add_revision_names settings pm)
                  pm))
      go (err e) a = push_original-Solved (add_revision_names settings pm) pm [] sides refl
      go (ok m) a = elim (Bool-cases (m.conflict_count == 0)) [
        | inl clean ↦ rw clean (ground arith)
        | inr dirty ↦
            rw dirty (
              push_original-Solved (add_revision_names settings pm) pm (m ∷ []) sides
                (ground arith))
      ]
