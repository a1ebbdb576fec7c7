-- ===== src/MergedText/Reindent.antt =====
-- `push_line_based_merge` and `reindent_line_based_merge`.
use mirror_mergiraf.Base.{
  Bool, true, false, ◌&&◌, ◌||◌, not, Option, none, some, List, [], ◌∷◌, ◌++◌, if◌then◌else◌, foldl,
  unwrap_or,
}
use mirror_mergiraf.Base.Text.{Text, lf, is_empty, contains, ends_with, split}
use mirror_mergiraf.ParsedMerge.{MergedChunk, ParsedMerge}
use mirror_mergiraf.MergedText.{merged, conflict, MergedText}

-- `Itertools::join("\n")`
unfoldable pub join_lines : List Text → Text
join_lines [] = []
join_lines (line ∷ []) = line
join_lines (line ∷ next ∷ lines) = line ++ lf ∷ join_lines (next ∷ lines)

-- The lines of a text but the first are indented, unless they are empty; the first one is if it is
-- asked for.
abbrev pub indent_line : Text → Bool → Text → Text
indent_line indentation wanted line =
    if is_empty line || not wanted then line else indentation ++ line

abbrev pub indent_lines : Text → List Text → List Text
indent_lines indentation [] = []
indent_lines indentation (line ∷ lines) =
    indent_line indentation true line ∷ indent_lines indentation lines

unfoldable pub reindent_all : Text → Bool → List Text → List Text
reindent_all indentation reindent_first [] = []
reindent_all indentation reindent_first (line ∷ lines) =
    indent_line indentation reindent_first line ∷ indent_lines indentation lines

unfoldable pub reindent_line_based_merge : Text → Text → Bool → Bool → Text
unfolding join_lines reindent_all split
reindent_line_based_merge content indentation reindent_first reindent_last =
    if is_empty indentation
    then content
    else let reindented = join_lines (reindent_all indentation reindent_first (split lf content)) in
      if reindent_last && ends_with lf reindented then reindented ++ indentation else reindented

-- The variables of the loop: the sections so far, and whether a newline was met.
pub record Pushing : Type 0 where
  pub sections : MergedText
  pub newline_found : Bool

abbrev has_newline : Option Text → Bool
has_newline none = false
has_newline (some t) = contains lf t

abbrev reindent_side : Text → Option Text → Text
unfolding reindent_line_based_merge
reindent_side indentation side =
    reindent_line_based_merge (unwrap_or side []) indentation false false

unfoldable pub push_chunk : Text → Pushing → MergedChunk → Pushing
unfolding reindent_line_based_merge
push_chunk indentation s (MergedChunk.resolved _ contents) = record {
  sections =
      s.sections
      ++ merged (reindent_line_based_merge contents indentation s.newline_found true) ∷ [];
  newline_found = s.newline_found || contains lf contents;
}
push_chunk indentation s (MergedChunk.conflict left base right _ _ _) = record {
  sections =
      s.sections
      ++ conflict (reindent_side indentation base) (reindent_side indentation left)
          (reindent_side indentation right)
        ∷ [];
  newline_found = s.newline_found || has_newline left || has_newline right || has_newline base;
}

unfoldable pub push_line_based_merge : MergedText → ParsedMerge → Text → MergedText
unfolding push_chunk
push_line_based_merge sections parsed indentation =
    (foldl (push_chunk indentation) (record { sections = sections; newline_found = false })
      parsed.chunks).sections
