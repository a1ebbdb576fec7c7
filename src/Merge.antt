-- ===== src/Merge.antt =====
-- src/merge.rs: the attempts at merging one after the other, and the choice between their results.
-- `LINE_BASED_METHOD` is in src/line_based.rs.
pub mod Vec
pub mod Select
pub mod Cascade
mod Examples
use mirror_mergiraf.Base.{
  ℕ, suc, Bool, true, false, not, ◌&&◌, ◌||◌, ◌==◌, ltb, leb, List, [], ◌∷◌, ◌++◌, Option, none,
  some, unwrap_or, compare, Ordering, if◌then◌else◌,
}
use mirror_mergiraf.Base.Run.{Run, done, panicked, ◌>>=◌, expect, Result, ok, err}
use mirror_mergiraf.Base.Text.{Text, text_eq}
use mirror_mergiraf.MergeResult.{MergeResult}
use mirror_mergiraf.ParsedMerge.Render.{line_based_method}
use mirror_mergiraf.Merge.Vec.{position, swap_remove, sort_by_key}

abbrev pub is_line_based : MergeResult → Bool
is_line_based merge = text_eq merge.method line_based_method

abbrev pub without_issues : MergeResult → Bool
without_issues merge = not merge.has_additional_issues

pub data LineBasedAndBestAre : Type 0 where
  the_same : MergeResult → LineBasedAndBestAre
  not_the_same : (line_based best : MergeResult) → LineBasedAndBestAre

-- The two removals of `NotTheSame`, at `first` and then at `second`.
abbrev pub remove_both : List MergeResult → ℕ → ℕ → Run (MergeResult × MergeResult)
remove_both merges first second = do
  one ← expect (swap_remove merges first)
  other ← expect (swap_remove one.1 second)
  done (one.0, other.0)

abbrev pub remove_at : List MergeResult → ℕ → ℕ → Run LineBasedAndBestAre
remove_at merges best_pos line_based_pos =
    if best_pos == line_based_pos
    then expect (swap_remove merges best_pos) >>= (λ best. done (the_same best.0))
    else if ltb best_pos line_based_pos
    then remove_both merges line_based_pos best_pos >>= (λ pair. done (not_the_same pair.0 pair.1))
    else remove_both merges best_pos line_based_pos >>= (λ pair. done (not_the_same pair.1 pair.0))

unfoldable pub select_best_merge : List MergeResult → Run LineBasedAndBestAre
unfolding sort_by_key
select_best_merge merges =
    let sorted = sort_by_key (λ merge. merge.conflict_mass) merges in
    expect (position is_line_based sorted) >>= (λ line_based_pos.
      remove_at sorted (unwrap_or (position without_issues sorted) 0) line_based_pos)

abbrev pub is_clean : MergeResult → Bool
is_clean merge = merge.conflict_count == 0 && not merge.has_additional_issues

-- The results of the structured attempts, where the source calls `resolve_merge` and
-- `structured_merge`; both are pure functions of the inputs, so they are passed as what they return.
module _ {ℓ} {E : Type ℓ} where
  abbrev pub pushed : List MergeResult → Result E MergeResult → List MergeResult
  pushed merges (ok merge) = merges ++ merge ∷ []
  pushed merges (err e) = merges

  -- The third attempt, after the merges so far.
  abbrev pub third_attempt :
      (line_based : MergeResult) (full_merge : Bool) (structured : Result E MergeResult)
      → List MergeResult
      → List MergeResult
  third_attempt line_based full_merge structured merges =
      if full_merge || line_based.has_additional_issues then pushed merges structured else merges

  -- What the thread sends.
  unfoldable pub attempts :
      (line_based : MergeResult) (full_merge : Bool) (solved structured : Result E MergeResult)
      → List MergeResult
  attempts line_based full_merge (ok recovered) structured =
      if line_based.has_additional_issues
      then third_attempt line_based full_merge structured []
      else if is_clean recovered
      then recovered ∷ []
      else third_attempt line_based full_merge structured (recovered ∷ [])
  attempts line_based full_merge (err e) structured =
      third_attempt line_based full_merge structured []

  -- `in_time` is false when `recv_timeout` gives up, which it does not with a timeout of zero.
  unfoldable pub cascading_merge :
      (line_based : MergeResult) (full_merge : Bool) (solved structured : Result E MergeResult)
      (in_time : Bool)
      → List MergeResult
  unfolding attempts
  cascading_merge line_based full_merge solved structured in_time =
      if is_clean line_based
      then line_based ∷ []
      else (if in_time then attempts line_based full_merge solved structured else [])
        ++ line_based ∷ []

abbrev pub best_of : LineBasedAndBestAre → MergeResult
best_of (the_same merge) = merge
best_of (not_the_same line_based best) = best

abbrev pub line_based_of : LineBasedAndBestAre → MergeResult
line_based_of (the_same merge) = merge
line_based_of (not_the_same line_based best) = line_based
