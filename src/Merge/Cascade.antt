-- ===== src/Merge/Cascade.antt =====
-- The merge that the cascade ends with, compared with the line-based merge that it starts from.
use mirror_mergiraf.Base.{
  Bool, true, List, [], ◌∷◌, ◌++◌, ◌≡◌, ◌∙◌, if◌then◌else◌, all, any, any-append, arith, Bool-cases,
  inl, inr,
}
use mirror_mergiraf.Base.Run.{done, Returns, Returns-imp, Result}
use mirror_mergiraf.MergeResult.{MergeResult}
use mirror_mergiraf.Merge.{
  is_line_based, is_clean, without_issues, the_same, select_best_merge, attempts, cascading_merge,
  best_of,
}
use mirror_mergiraf.Merge.Select.{outranks, select_best_merge-Selects}
use mirror_mergiraf.Merge.Vec.{sort_by_key}

all_last {ℓ} :
    {A : Type ℓ} (p : A → Bool) (xs : List A) (a : A) → all p (xs ++ a ∷ []) ≡ true → p a ≡ true
all_last p [] a h = ground arith
all_last p (x ∷ xs) a h = all_last p xs a (ground arith)

-- A line-based merge alone is chosen.
select_best_merge_one :
    (m : MergeResult) → is_line_based m ≡ true → select_best_merge (m ∷ []) ≡ done (the_same m)
unfolding select_best_merge sort_by_key
select_best_merge_one m h =
    rw h (elim (Bool-cases (without_issues m)) [ inl g ↦ rw g | inr g ↦ rw g ])

module _ {ℓ} {E : Type ℓ} (line_based : MergeResult) (full_merge : Bool)
    (solved structured : Result E MergeResult) (in_time : Bool) where
  -- A line-based merge that is named as such and has neither conflicts nor issues is the result of
  -- the cascade, whatever the other attempts would return.
  clean_line_based :
      is_line_based line_based ≡ true
      → is_clean line_based ≡ true
      → select_best_merge (cascading_merge line_based full_merge solved structured in_time)
        ≡ done (the_same line_based)
  unfolding cascading_merge
  clean_line_based line clean = rw clean (select_best_merge_one line_based line)

  has_line_based :
      is_line_based line_based ≡ true
      → any is_line_based (cascading_merge line_based full_merge solved structured in_time) ≡ true
  unfolding cascading_merge
  has_line_based line = elim (Bool-cases (is_clean line_based)) [
    | inl clean ↦ rw clean (ground arith)
    | inr dirty ↦ rw dirty (
        any-append is_line_based
          (if in_time then attempts line_based full_merge solved structured else [])
          (line_based ∷ [])
        ∙ ground arith)
  ]

  in_cascade :
      (p : MergeResult → Bool)
      → all p (cascading_merge line_based full_merge solved structured in_time) ≡ true
      → p line_based ≡ true
  unfolding cascading_merge
  in_cascade p = elim (Bool-cases (is_clean line_based)) [
    | inl clean ↦ rw clean (λ h. ground arith)
    | inr dirty ↦ rw dirty (λ h.
        all_last p (if in_time then attempts line_based full_merge solved structured else [])
          line_based h)
  ]

  -- If the line-based merge is named as such, then, whatever the structured attempts return, and in
  -- time or not, the cascade ends with a choice and without a panic. Its best merge outranks the
  -- line-based one: where that has no issues, it has none either and no more conflict mass; where
  -- that has issues, it has none, or no more conflict mass.
  pub cascading_merge-outranks :
      is_line_based line_based ≡ true
      → Returns
          (λ choice. outranks (best_of choice) line_based ≡ true)
          (select_best_merge (cascading_merge line_based full_merge solved structured in_time))
  cascading_merge-outranks line =
      Returns-imp
        (select_best_merge (cascading_merge line_based full_merge solved structured in_time))
        (λ choice s. in_cascade (outranks (best_of choice)) s.best_outranks)
        (select_best_merge-Selects (cascading_merge line_based full_merge solved structured in_time)
          (has_line_based line))
