-- ===== src/Settings.antt =====
-- src/settings.rs: how conflicts are displayed, and the conflict markers.
pub mod Regexes
mod Examples
use mirror_mergiraf.Base.{
  ℕ, Bool, true, false, Option, none, some, List, [], ◌∷◌, ◌++◌, ◌==◌, if◌then◌else◌, replicate,
  find_map, unwrap_or,
}
use mirror_mergiraf.Base.Run.{Run, done, panicked}
use mirror_mergiraf.Base.Text.{Text}
use mirror_mergiraf.ParsedMerge.{MergedChunk, resolved, conflict, ParsedMerge}
use mirror_mergiraf.ParsedMerge.Parse.{ConflictRegexes}

abbrev pub default_conflict_marker_size : ℕ
default_conflict_marker_size = 7

-- `ConflictRegexes`, with the size that debug builds keep beside the expressions.
pub record SizedRegexes : Type 0 where
  pub marker_size : ℕ
  pub regexes : ConflictRegexes

pub record DisplaySettings : Type 0 where
  pub diff3 : Bool
  pub compact : Option Bool
  pub conflict_marker_size : Option ℕ
  pub conflict_regexes : SizedRegexes
  pub left_revision_name : Option Text
  pub base_revision_name : Option Text
  pub right_revision_name : Option Text

unfoldable pub compact_or_default : DisplaySettings → Bool
compact_or_default s = unwrap_or s.compact false

unfoldable pub conflict_marker_size_or_default : DisplaySettings → ℕ
conflict_marker_size_or_default s = unwrap_or s.conflict_marker_size default_conflict_marker_size

-- `conflict_regexes` asserts in debug builds that the sizes agree.
unfoldable pub conflict_regexes : DisplaySettings → Run ConflictRegexes
unfolding conflict_marker_size_or_default
conflict_regexes s =
    if conflict_marker_size_or_default s == s.conflict_regexes.marker_size
    then done s.conflict_regexes.regexes
    else panicked

-- The crate `regex` compiles the three expressions for a marker size.
module _ (compile : ℕ → ConflictRegexes) where
  unfoldable pub calculate_regexes : ℕ → SizedRegexes
  calculate_regexes size = record { marker_size = size; regexes = compile size }

  unfoldable pub new :
      Option Bool → Option ℕ → Option Text → Option Text → Option Text → DisplaySettings
  unfolding calculate_regexes
  new compact size base_name left_name right_name = record {
    diff3 = true;
    compact = compact;
    conflict_marker_size = size;
    conflict_regexes = calculate_regexes (unwrap_or size default_conflict_marker_size);
    left_revision_name = left_name;
    base_revision_name = base_name;
    right_revision_name = right_name;
  }

  unfoldable pub default : DisplaySettings
  unfolding new
  default = new (some false) none none none none

  unfoldable pub default_compact : DisplaySettings
  unfolding default
  default_compact = record default { compact = some true }

  unfoldable pub set_conflict_marker_size : DisplaySettings → ℕ → DisplaySettings
  unfolding calculate_regexes conflict_marker_size_or_default
  set_conflict_marker_size s new_size = record s {
    conflict_regexes =
        if conflict_marker_size_or_default s == new_size
        then s.conflict_regexes
        else calculate_regexes new_size;
    conflict_marker_size = some new_size;
  }

abbrev names_of : MergedChunk → Option (Option Text × Option Text × Option Text)
names_of (resolved _ _) = none
names_of (conflict _ _ _ left_name base_name right_name) = some (left_name, base_name, right_name)

unfoldable pub add_revision_names : DisplaySettings → ParsedMerge → DisplaySettings
add_revision_names s pm = elim (find_map names_of pm.chunks) [
  | none ↦ s
  | some (left_name, base_name, right_name) ↦ record s {
    left_revision_name = left_name;
    base_revision_name = base_name;
    right_revision_name = right_name;
  }
]

-- "LEFT", "BASE" and "RIGHT" stand for names that are missing.
unfoldable pub left_revision_name_or_default : DisplaySettings → Text
left_revision_name_or_default s = unwrap_or s.left_revision_name (b'L' ∷ b'E' ∷ b'F' ∷ b'T' ∷ [])

unfoldable pub base_revision_name_or_default : DisplaySettings → Text
base_revision_name_or_default s = unwrap_or s.base_revision_name (b'B' ∷ b'A' ∷ b'S' ∷ b'E' ∷ [])

unfoldable pub right_revision_name_or_default : DisplaySettings → Text
right_revision_name_or_default s =
    unwrap_or s.right_revision_name (b'R' ∷ b'I' ∷ b'G' ∷ b'H' ∷ b'T' ∷ [])

unfoldable pub left_marker_or_default : DisplaySettings → Text
unfolding conflict_marker_size_or_default left_revision_name_or_default
left_marker_or_default s =
    replicate (conflict_marker_size_or_default s) b'<' ++ b' ' ∷ left_revision_name_or_default s

unfoldable pub base_marker_or_default : DisplaySettings → Text
unfolding conflict_marker_size_or_default base_revision_name_or_default
base_marker_or_default s =
    replicate (conflict_marker_size_or_default s) b'|' ++ b' ' ∷ base_revision_name_or_default s

unfoldable pub right_marker_or_default : DisplaySettings → Text
unfolding conflict_marker_size_or_default right_revision_name_or_default
right_marker_or_default s =
    replicate (conflict_marker_size_or_default s) b'>' ++ b' ' ∷ right_revision_name_or_default s

unfoldable pub middle_marker_or_default : DisplaySettings → Text
unfolding conflict_marker_size_or_default
middle_marker_or_default s = replicate (conflict_marker_size_or_default s) b'='
