-- ===== src/Solve.antt =====
-- src/solve.rs: the attempts of `do_solve` at the conflicts of a file, and the choice between their
-- results. What `resolve_merge`, `structured_merge_from_git_revisions` and `structured_merge_from_oid`
-- return is passed on: they read files and call Git.
pub mod Choice
mod Examples
use mirror_mergiraf.Base.{
  ℕ, Bool, true, false, not, ◌&&◌, ◌==◌, List, [], ◌∷◌, ◌++◌, Option, none, some, if◌then◌else◌,
  find,
}
use mirror_mergiraf.Base.Run.{Run, done, panicked, ◌>>=◌, expect, Result, ok, err}
use mirror_mergiraf.Base.Text.{Text, text_eq}
use mirror_mergiraf.MergeResult.{MergeResult}
use mirror_mergiraf.Merge.{without_issues}
use mirror_mergiraf.Merge.Vec.{sort_by_key}
use mirror_mergiraf.ParsedMerge.{ParsedMerge}
use mirror_mergiraf.ParsedMerge.Render.{into_merge_result}
use mirror_mergiraf.Settings.{DisplaySettings, add_revision_names}

-- "from_parsed_original"
abbrev pub from_parsed_original : Text
from_parsed_original =
    b'f' ∷ b'r' ∷ b'o' ∷ b'm' ∷ b'_' ∷ b'p' ∷ b'a' ∷ b'r' ∷ b's' ∷ b'e' ∷ b'd' ∷ b'_' ∷ b'o' ∷ b'r'
    ∷ b'i' ∷ b'g' ∷ b'i' ∷ b'n' ∷ b'a' ∷ b'l' ∷ []

-- `Itertools::find_or_first`
abbrev pub find_or_first {ℓ} : {A : Type ℓ} → (A → Bool) → List A → Option A
find_or_first p [] = none
find_or_first p (x ∷ xs) = elim (find p (x ∷ xs)) [ some a ↦ some a | none ↦ some x ]

-- "Could not generate any solution"
pub data SolveError : Type 0 where
  no_solution : SolveError

unfoldable pub select_best_solve : List MergeResult → Run (Result SolveError MergeResult)
unfolding sort_by_key
select_best_solve [] = done (err no_solution)
select_best_solve (solve ∷ solves) =
    expect (find_or_first without_issues (sort_by_key (λ m. m.conflict_mass) (solve ∷ solves)))
    >>= (λ best.
        done (if text_eq best.method from_parsed_original then err no_solution else ok best))

-- One attempt: a solution without conflicts ends the search, other solutions are pushed.
abbrev pub attempt {ℓ} :
    {E : Type ℓ}
    → Result E MergeResult
    → List MergeResult
    → (List MergeResult → Run (Result SolveError MergeResult))
    → Run (Result SolveError MergeResult)
attempt (ok solve) solves continue =
    if solve.conflict_count == 0 then done (ok solve) else continue (solves ++ solve ∷ [])
attempt (err e) solves continue = continue solves

-- `structured_merge_from_oid` returns `None` without object ids.
abbrev pub attempt_oid {ℓ} :
    {E : Type ℓ}
    → Option (Result E MergeResult)
    → List MergeResult
    → (List MergeResult → Run (Result SolveError MergeResult))
    → Run (Result SolveError MergeResult)
attempt_oid none solves continue = continue solves
attempt_oid (some result) solves continue = attempt result solves continue

module _ {ℓ} {E : Type ℓ} (resolve_merge : ParsedMerge → DisplaySettings → Result E MergeResult)
    (from_git_revisions : DisplaySettings → Result E MergeResult)
    (from_oid : DisplaySettings → Option ParsedMerge → Option (Result E MergeResult)) where
  -- The attempts with the revisions from Git.
  abbrev pub from_git :
      DisplaySettings → Option ParsedMerge → List MergeResult → Run (Result SolveError MergeResult)
  unfolding select_best_solve
  from_git settings parsed solves =
      attempt (from_git_revisions settings) solves
        (λ solves. attempt_oid (from_oid settings parsed) solves select_best_solve)

  -- The original merge is pushed without its issues, and has priority over invalid merges.
  abbrev pub push_original :
      DisplaySettings → ParsedMerge → List MergeResult → Run (Result SolveError MergeResult)
  unfolding select_best_solve into_merge_result
  push_original settings parsed_merge solves =
      into_merge_result settings parsed_merge >>= (λ rendered_from_parsed.
        from_git settings (some parsed_merge)
          (solves ++ (record rendered_from_parsed { has_additional_issues = false }) ∷ []))

  unfoldable pub do_solve :
      DisplaySettings → Result E ParsedMerge → Run (Result SolveError MergeResult)
  unfolding select_best_solve into_merge_result add_revision_names
  do_solve settings (err e) = from_git settings none []
  do_solve settings (ok parsed_merge) =
      let named = add_revision_names settings parsed_merge in
      attempt (resolve_merge parsed_merge named) [] (push_original named parsed_merge)
