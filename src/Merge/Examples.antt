-- ===== src/Merge/Examples.antt =====
-- Runs of the choice in src/merge.rs, and instances of the theorems about it.
use mirror_mergiraf.Base.{ℕ, Bool, true, false, List, [], ◌∷◌, ◌≡◌, refl, any}
use mirror_mergiraf.Base.Run.{done, Returns, Result, ok, err}
use mirror_mergiraf.MergeResult.{MergeResult}
use mirror_mergiraf.ParsedMerge.Render.{line_based_method}
use mirror_mergiraf.Merge.{
  is_line_based, not_the_same, select_best_merge, cascading_merge, attempts, best_of,
}
use mirror_mergiraf.Merge.Vec.{sort_by_key}
use mirror_mergiraf.Merge.Select.{outranks, Selects, select_best_merge-Selects}
use mirror_mergiraf.Merge.Cascade.{cascading_merge-outranks}

abbrev line_based : ℕ → MergeResult
line_based mass = record {
  contents = [];
  conflict_count = mass;
  conflict_mass = mass;
  method = line_based_method;
  has_additional_issues = false;
}

abbrev structured : ℕ → Bool → MergeResult
structured mass issues = record {
  contents = [];
  conflict_count = mass;
  conflict_mass = mass;
  method = b's' ∷ [];
  has_additional_issues = issues;
}

-- A result with issues is passed over, although it has no conflicts.
abbrev merges : List MergeResult
merges = structured 0 true ∷ structured 2 false ∷ line_based 5 ∷ []

selected : select_best_merge merges ≡ done (not_the_same (line_based 5) (structured 2 false))
unfolding select_best_merge sort_by_key
selected = refl

line_based_in_merges : any is_line_based merges ≡ true
line_based_in_merges = refl

select_best_merge-Selects_example : Returns (Selects merges) (select_best_merge merges)
select_best_merge-Selects_example = select_best_merge-Selects merges line_based_in_merges

-- The attempt at the conflicts fails, and the full structured merge has a conflict left.
abbrev failed : Result ℕ MergeResult
failed = err 0

abbrev recovered : Result ℕ MergeResult
recovered = ok (structured 1 false)

cascade :
    cascading_merge (line_based 5) true failed recovered true
    ≡ structured 1 false ∷ line_based 5 ∷ []
unfolding cascading_merge attempts
cascade = refl

cascading_merge-outranks_example :
    Returns
      (λ choice. outranks (best_of choice) (line_based 5) ≡ true)
      (select_best_merge (cascading_merge (line_based 5) true failed recovered true))
cascading_merge-outranks_example =
    cascading_merge-outranks (line_based 5) true failed recovered true refl
