-- ===== src/Settings/Examples.antt =====
-- An instance of the theorem about src/settings.rs, where the marker size is changed.
use mirror_mergiraf.Base.{ℕ, true, none, some, ◌≡◌}
use mirror_mergiraf.Base.Run.{done}
use mirror_mergiraf.ParsedMerge.Parse.{ConflictRegexes}
use mirror_mergiraf.Settings.{
  DisplaySettings, new, set_conflict_marker_size, conflict_regexes, conflict_marker_size_or_default,
}
use mirror_mergiraf.Settings.Regexes.{constructed, resized, conflict_regexes_lem}

abbrev compile : ℕ → ConflictRegexes
compile size = record { diff2 = λ t. true; diff3 = λ t. none; diff3_no_newline = λ t. none }

abbrev changed : DisplaySettings
changed =
    set_conflict_marker_size compile
      (set_conflict_marker_size compile (new compile none (some 9) none none none) 12) 12

conflict_regexes_lem_example :
    conflict_regexes changed ≡ done (compile (conflict_marker_size_or_default changed))
conflict_regexes_lem_example =
    conflict_regexes_lem compile
      (resized 12 (resized 12 (constructed none (some 9) none none none)))
