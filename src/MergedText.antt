-- ===== src/MergedText.antt =====
-- src/merged_text.rs: merged text and conflicts whose bounds need not be those of lines, and their
-- display.
pub mod Reindent
pub mod Render
mod Examples
use mirror_mergiraf.Base.{
  ℕ, ◌+◌, Bool, true, false, ◌&&◌, ◌||◌, not, Option, none, some, List, [], ◌∷◌, ◌++◌,
  if◌then◌else◌, map, length, filter, sum,
}
use mirror_mergiraf.Base.Text.{Text, is_empty, text_eq}
use mirror_mergiraf.Revision.{Revision}

pub data MergeSection : Type 0 where
  merged : Text → MergeSection
  -- base, left and right
  conflict : Text → Text → Text → MergeSection

-- `MergedText` is the list of its sections.
abbrev pub MergedText : Type 0
MergedText = List MergeSection

abbrev pub is_conflict : MergeSection → Bool
is_conflict (merged _) = false
is_conflict (conflict _ _ _) = true

unfoldable pub count_conflicts : MergedText → ℕ
count_conflicts sections = length (filter is_conflict sections)

abbrev pub section_mass : MergeSection → ℕ
section_mass (merged _) = 0
section_mass (conflict base left right) = length base + length left + length right

unfoldable pub conflict_mass : MergedText → ℕ
conflict_mass sections = sum (map section_mass sections)

unfoldable pub push_merged : MergedText → Text → MergedText
push_merged sections contents =
    if not (is_empty contents) then sections ++ merged contents ∷ [] else sections

unfoldable pub push_conflict : MergedText → Text → Text → Text → MergedText
unfolding push_merged
push_conflict sections base left right =
    if text_eq left right || text_eq base right
    then push_merged sections left
    else if text_eq base left
    then push_merged sections right
    else sections ++ conflict base left right ∷ []

abbrev pub section_in : Revision → MergeSection → Text
section_in rev (merged contents) = contents
section_in Revision.base (conflict base left right) = base
section_in Revision.left (conflict base left right) = left
section_in Revision.right (conflict base left right) = right

abbrev pub concat : List Text → Text
concat [] = []
concat (t ∷ ts) = t ++ concat ts

unfoldable pub reconstruct_revision : MergedText → Revision → Text
reconstruct_revision sections rev = concat (map (section_in rev) sections)
