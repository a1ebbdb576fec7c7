-- ===== src/ParsedMerge/Unchanged.antt =====
-- A file without conflicts goes through `parse` and `into_merge_result` unchanged.
use mirror_mergiraf.Base.{true, List, [], ◌∷◌, ◌≡◌, refl, map, filter, length, sum, arith}
use mirror_mergiraf.Base.Run.{done, ok}
use mirror_mergiraf.Base.Text.{Text}
use mirror_mergiraf.MergeResult.{MergeResult}
use mirror_mergiraf.Settings.{DisplaySettings}
use mirror_mergiraf.ParsedMerge.{
  MergedChunk, resolved, conflict, ParsedMerge, is_conflict, chunk_mass, conflict_count,
  conflict_mass,
}
use mirror_mergiraf.ParsedMerge.Parse.{ConflictRegexes, IsLawful, parse}
use mirror_mergiraf.ParsedMerge.Render.{into_merge_result, line_based_method, render-conflictless}
use mirror_mergiraf.ParsedMerge.Views.{parse-render_conflictless}

no_mass :
    (chunks : List MergedChunk)
    → length (filter is_conflict chunks) ≡ 0
    → sum (map chunk_mass chunks) ≡ 0
no_mass [] h = refl
no_mass (resolved o t ∷ chunks) h = omega (arith, no_mass chunks h)
no_mass (conflict l b r ln bn rn ∷ chunks) h = absurd (omega arith)

-- The report on a text that has no conflicts, as `into_merge_result` makes it.
abbrev pub unchanged : Text → MergeResult
unchanged source = record {
  contents = source;
  conflict_count = 0;
  conflict_mass = 0;
  method = line_based_method;
  has_additional_issues = true;
}

-- If parsing a source with lawful expressions finds no conflict, then the merge result made of the parsed
-- merge is, without a panic and for any display settings, the source itself, with neither conflicts nor
-- mass in them, under the name of line-based merges and marked as having issues.
pub parse-into_merge_result :
    (rx : ConflictRegexes) (settings : DisplaySettings) (source : Text) (pm : ParsedMerge)
    → IsLawful rx
    → parse source rx ≡ done (ok pm)
    → conflict_count pm ≡ 0
    → into_merge_result settings pm ≡ done (unchanged source)
unfolding into_merge_result conflict_count conflict_mass
parse-into_merge_result rx settings source pm law e h =
    rw
      (
        render-conflictless settings pm source (parse-render_conflictless rx source pm law e h).0,
        h,
        no_mass pm.chunks h,
      )
      refl
