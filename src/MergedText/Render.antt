-- ===== src/MergedText/Render.antt =====
-- `render` and what it calls: conflicts widened to whole lines, or with newlines put around them.
pub mod Lines
pub mod Blocks
pub mod Laid
pub mod Faithful
use mirror_mergiraf.Base.{
  ℕ, zero, suc, ◌+◌, Bool, true, false, ◌&&◌, ◌||◌, not, Option, none, some, List, [], ◌∷◌, ◌++◌,
  if◌then◌else◌, foldl, take, drop,
}
use mirror_mergiraf.Base.Text.{Text, lf, is_empty, is_blank, ends_with, rfind, split_once}
use mirror_mergiraf.Settings.{
  DisplaySettings, compact_or_default, left_marker_or_default, base_marker_or_default,
  middle_marker_or_default, right_marker_or_default,
}
use mirror_mergiraf.MergeResult.{MergeResult}
use mirror_mergiraf.MergedText.{
  count_conflicts, conflict_mass, MergeSection, merged, conflict, MergedText,
}

unfoldable pub maybe_add_newline : Text → Text
maybe_add_newline output =
    if not (ends_with lf output) && not (is_empty output) then output ++ lf ∷ [] else output

-- A side that is not blank is shown.
abbrev pub shown : Text → Text
unfolding is_blank
shown t = if not (is_blank t) then t else []

-- A marker begins a line, and ends it.
unfoldable pub push_marker : Text → Text → Text
unfolding maybe_add_newline
push_marker output marker = (maybe_add_newline output ++ marker) ++ lf ∷ []

unfoldable pub render_conflict : DisplaySettings → Text → Text → Text → Text → Text
unfolding is_blank
render_conflict settings base left right output =
    let output₁ = push_marker output (left_marker_or_default settings) ++ shown left in
    let output₂ =
      if settings.diff3
      then push_marker output₁ (base_marker_or_default settings) ++ shown base
      else output₁ in
    let output₃ = push_marker output₂ (middle_marker_or_default settings) ++ shown right in
    push_marker output₃ (right_marker_or_default settings)

-- The variables of the loop of `render_full_lines`.
pub record Rendering : Type 0 where
  pub output : Text
  pub base_buffer : Text
  pub left_buffer : Text
  pub right_buffer : Text
  pub gathering_conflict : Bool

-- White space goes to the sides that have text.
abbrev pub push_blank : Text → Text → Text
unfolding is_blank
push_blank buffer contents = if not (is_blank buffer) then buffer ++ contents else buffer

unfoldable pub flush : DisplaySettings → Rendering → Text
flush settings s = render_conflict settings s.base_buffer s.left_buffer s.right_buffer s.output

-- Text after a conflict whose last line is not complete.
unfoldable pub gather_merged : DisplaySettings → Rendering → Text → Rendering
unfolding split_once is_blank
gather_merged settings s contents = elim (split_once lf contents) [
  | some (to_append, rest) ↦
      let s' = record s {
        base_buffer = s.base_buffer ++ to_append;
        left_buffer = s.left_buffer ++ to_append;
        right_buffer = s.right_buffer ++ to_append;
        gathering_conflict = false;
      } in
      record s' { output = flush settings s' ++ rest }
  | none ↦
      if is_blank contents
      then record s {
        base_buffer = push_blank s.base_buffer contents;
        left_buffer = push_blank s.left_buffer contents;
        right_buffer = push_blank s.right_buffer contents;
      }
      else record s {
        base_buffer = s.base_buffer ++ contents;
        left_buffer = s.left_buffer ++ contents;
        right_buffer = s.right_buffer ++ contents;
      }
]

-- Where the unfinished last line starts.
unfoldable pub last_line_start : Text → ℕ
unfolding rfind
last_line_start output = elim (rfind lf output) [ some i ↦ i + 1 | none ↦ 0 ]

-- The buffers of a conflict that starts: empty, or the unfinished line, taken out of the output.
unfoldable pub start_conflict : Rendering → Rendering
unfolding last_line_start
start_conflict s =
    if ends_with lf s.output || is_empty s.output
    then record s { base_buffer = []; left_buffer = []; right_buffer = [] }
    else let at = last_line_start s.output in
      let last_line = drop at s.output in
      record s {
        output = take at s.output;
        base_buffer = last_line;
        left_buffer = last_line;
        right_buffer = last_line;
      }

abbrev pub is_complete : Text → Bool
unfolding is_blank
is_complete buffer = ends_with lf buffer || is_blank buffer

abbrev pub push_sides : Rendering → Text → Text → Text → Rendering
push_sides s base left right = record s {
  base_buffer = s.base_buffer ++ base;
  left_buffer = s.left_buffer ++ left;
  right_buffer = s.right_buffer ++ right;
}

-- The conflict is shown at once if each side ends a line or is blank.
unfoldable pub close_conflict : DisplaySettings → Rendering → Rendering
unfolding is_blank
close_conflict settings s =
    if is_complete s.base_buffer && is_complete s.left_buffer && is_complete s.right_buffer
    then record s { output = flush settings s; gathering_conflict = false }
    else record s { gathering_conflict = true }

unfoldable pub render_section : DisplaySettings → Rendering → MergeSection → Rendering
render_section settings s (merged contents) =
    if not s.gathering_conflict
    then record s { output = s.output ++ contents }
    else gather_merged settings s contents
render_section settings s (conflict base left right) =
    close_conflict settings
      (push_sides (if not s.gathering_conflict then start_conflict s else s) base left right)

abbrev pub no_output : Rendering
no_output = record {
  output = [];
  base_buffer = [];
  left_buffer = [];
  right_buffer = [];
  gathering_conflict = false;
}

unfoldable pub finish : DisplaySettings → Rendering → Text
finish settings s = if s.gathering_conflict then flush settings s else s.output

unfoldable pub render_full_lines : DisplaySettings → MergedText → Text
render_full_lines settings sections =
    finish settings (foldl (render_section settings) no_output sections)

-- The two expressions of `render_compact`, run by the crate `regex`: `^[\t ]*\n` is replaced by
-- nothing, and of `[\t ]+$` the start of a match is asked for.
pub record Patterns : Type 0 where
  pub replace_leading_whitespace : Text → Text
  pub find_trailing_whitespace : Text → Option ℕ

abbrev indented : Text → Text → Text
indented whitespace t = if is_empty t then t else whitespace ++ t

-- The output, and whether the last section was a conflict.
unfoldable pub compact_section :
    DisplaySettings → Patterns → Text × Bool → MergeSection → Text × Bool
compact_section settings rx (output, last_was_conflict) (merged contents) = (
  output ++ (if last_was_conflict then rx.replace_leading_whitespace contents else contents),
  false,
)
compact_section settings rx (output, last_was_conflict) (conflict base left right) =
    elim (rx.find_trailing_whitespace output) [
      | some at ↦
          let whitespace = drop at output in
          (
            render_conflict settings (indented whitespace base) (indented whitespace left)
                (indented whitespace right) (take at output),
            true,
          )
      | none ↦ (render_conflict settings base left right output, true)
    ]

unfoldable pub render_compact : DisplaySettings → Patterns → MergedText → Text
render_compact settings rx sections = (foldl (compact_section settings rx) ([], false) sections).0

-- The texts of the sections, if all are merged.
unfoldable pub all_merged : MergedText → Option Text
all_merged [] = some []
all_merged (merged contents ∷ sections) = elim (all_merged sections) [
  | some rest ↦ some (contents ++ rest)
  | none ↦ none
]
all_merged (conflict _ _ _ ∷ sections) = none

unfoldable pub render : DisplaySettings → Patterns → MergedText → Text
unfolding all_merged compact_or_default
render settings rx sections = elim (all_merged sections) [
  | some contents ↦ contents
  | none ↦
      if compact_or_default settings
      then render_compact settings rx sections
      else render_full_lines settings sections
]

unfoldable pub into_merge_result : DisplaySettings → Patterns → MergedText → Text → MergeResult
unfolding render
into_merge_result settings patterns sections method = record {
  contents = render settings patterns sections;
  conflict_count = count_conflicts sections;
  conflict_mass = conflict_mass sections;
  method = method;
  has_additional_issues = false;
}
