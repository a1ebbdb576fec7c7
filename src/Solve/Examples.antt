-- ===== src/Solve/Examples.antt =====
-- A run of `do_solve` of src/solve.rs where no attempt succeeds, and an instance of the theorem.
use mirror_mergiraf.Base.{ℕ, true, false, Option, none, some, [], ◌∷◌, ◌≡◌, refl, all}
use mirror_mergiraf.Base.Run.{Returns, Result, ok, err}
use mirror_mergiraf.MergeResult.{MergeResult}
use mirror_mergiraf.Settings
use mirror_mergiraf.Settings.{DisplaySettings}
use mirror_mergiraf.ParsedMerge
use mirror_mergiraf.ParsedMerge.{ParsedMerge, conflict, conflict_mass, index_chunk}
use mirror_mergiraf.ParsedMerge.Render.{has_side}
use mirror_mergiraf.Solve.{do_solve}
use mirror_mergiraf.Solve.Choice.{Solved, do_solve-Solved}

abbrev settings : DisplaySettings
unfolding Settings.new Settings.default Settings.calculate_regexes
settings =
    Settings.default
      (λ size. record { diff2 = λ t. false; diff3 = λ t. none; diff3_no_newline = λ t. none })

-- One conflict, of two bytes.
abbrev conflicts : ParsedMerge
unfolding ParsedMerge.new index_chunk
conflicts =
    ParsedMerge.new (conflict (some (b'l' ∷ [])) none (some (b'r' ∷ [])) none none none ∷ [])

sides_of_conflicts : all has_side conflicts.chunks ≡ true
unfolding ParsedMerge.new index_chunk
sides_of_conflicts = refl

abbrev resolve_fails : ParsedMerge → DisplaySettings → Result ℕ MergeResult
resolve_fails pm s = err 0

abbrev git_fails : DisplaySettings → Result ℕ MergeResult
git_fails s = err 1

abbrev without_oids : DisplaySettings → Option ParsedMerge → Option (Result ℕ MergeResult)
without_oids s pm = none

do_solve-Solved_example :
    Returns
      (Solved (conflict_mass conflicts))
      (do_solve resolve_fails git_fails without_oids settings (ok conflicts))
do_solve-Solved_example =
    do_solve-Solved resolve_fails git_fails without_oids (λ pm s. tt) (λ s. tt) (λ s pm. tt)
      settings conflicts sides_of_conflicts
