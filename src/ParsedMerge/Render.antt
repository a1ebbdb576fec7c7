-- ===== src/ParsedMerge/Render.antt =====
-- `render` of src/parsed_merge.rs, with conflict markers, and `into_merge_result`.
use mirror_mergiraf.Base.{
  Bool, true, false, not, ◌&&◌, Option, none, some, List, [], ◌∷◌, ◌++◌, ◌≡◌, refl, sym, ap, ◌∙◌,
  if◌then◌else◌, unwrap_or, is_some, all, ◌||◌, arith, append_assoc, append-nil,
}
use mirror_mergiraf.Base.Run.{Run, done, panicked, out_of_fuel, ◌>>=◌, Returns}
use mirror_mergiraf.Base.Text.{Text, lf, ends_with}
use mirror_mergiraf.MergeResult.{MergeResult}
use mirror_mergiraf.ParsedMerge.{
  MergedChunk, resolved, conflict, ParsedMerge, conflict_count, conflict_mass, conflictless,
  render_conflictless,
}
use mirror_mergiraf.Settings.{
  DisplaySettings, left_marker_or_default, base_marker_or_default, middle_marker_or_default,
  right_marker_or_default,
}

-- "line_based", `LINE_BASED_METHOD` of src/line_based.rs.
abbrev pub line_based_method : Text
line_based_method = b'l' ∷ b'i' ∷ b'n' ∷ b'e' ∷ b'_' ∷ b'b' ∷ b'a' ∷ b's' ∷ b'e' ∷ b'd' ∷ []

-- `is_none_or(|side| side.ends_with('\n'))`
abbrev pub ends_in_newline : Option Text → Bool
ends_in_newline none = true
ends_in_newline (some side) = ends_with lf side

abbrev pub newline_if : Bool → Text
newline_if true = lf ∷ []
newline_if false = []

unfoldable pub render_sides : DisplaySettings → (left base right : Option Text) → Text
render_sides settings left base right =
    let add_after_right_marker =
      ends_in_newline left && ends_in_newline base && ends_in_newline right in
    let after_lines = newline_if (not add_after_right_marker) in
    left_marker_or_default settings
    ++ lf ∷ unwrap_or left []
    ++ after_lines
    ++ (if settings.diff3
        then base_marker_or_default settings ++ lf ∷ unwrap_or base [] ++ after_lines
        else [])
    ++ middle_marker_or_default settings
    ++ lf ∷ unwrap_or right []
    ++ after_lines
    ++ right_marker_or_default settings
    ++ newline_if add_after_right_marker

-- A conflict without any side is `unreachable!`.
abbrev pub render_chunk : DisplaySettings → MergedChunk → Run Text
unfolding render_sides
render_chunk settings (resolved _ contents) = done contents
render_chunk settings (conflict none none none _ _ _) = panicked
render_chunk settings (conflict left base right _ _ _) =
    done (render_sides settings left base right)

-- The fold, with the result so far.
abbrev pub render_onto : DisplaySettings → Text → List MergedChunk → Run Text
unfolding render_sides
render_onto settings result [] = done result
render_onto settings result (chunk ∷ chunks) =
    render_chunk settings chunk >>= (λ text. render_onto settings (result ++ text) chunks)

unfoldable pub render : DisplaySettings → ParsedMerge → Run Text
unfolding render_sides
render settings pm = render_onto settings [] pm.chunks

unfoldable pub into_merge_result : DisplaySettings → ParsedMerge → Run MergeResult
unfolding render
into_merge_result settings pm = render settings pm >>= (λ contents. done (record {
  contents = contents;
  conflict_count = conflict_count pm;
  conflict_mass = conflict_mass pm;
  method = line_based_method;
  has_additional_issues = true;
}))

text_of : {t u : Text} → some t ≡ some u → t ≡ u
text_of e = ap (λ o. unwrap_or o []) e

render_onto-conflictless :
    (settings : DisplaySettings) (chunks : List MergedChunk) (result text : Text)
    → conflictless chunks ≡ some text
    → render_onto settings result chunks ≡ done (result ++ text)
unfolding conflictless render_onto
render_onto-conflictless settings [] result text e =
    ap done (sym (append-nil result) ∙ ap (λ t. result ++ t) (text_of e))
render_onto-conflictless settings (resolved o contents ∷ chunks) result text e =
    go (conflictless chunks) refl
      (λ rest. render_onto-conflictless settings chunks (result ++ contents) rest) e
  where
    go :
        (rest : Option Text)
        → conflictless chunks ≡ rest
        → ((t : Text)
            → conflictless chunks ≡ some t
            → render_onto settings (result ++ contents) chunks ≡ done ((result ++ contents) ++ t))
        → (elim rest [ some t ↦ some (contents ++ t) | none ↦ none ]) ≡ some text
        → render_onto settings (result ++ contents) chunks ≡ done (result ++ text)
    go none h ih e = absurd (ground arith)
    go (some rest) h ih e =
        ih rest h ∙ ap done (append_assoc result contents rest ∙ ap (λ t. result ++ t) (text_of e))
render_onto-conflictless settings (conflict _ _ _ _ _ _ ∷ chunks) result text e =
    absurd (ground arith)

-- A merge without conflicts is rendered, with any settings, as the concatenation of its chunks.
pub render-conflictless :
    (settings : DisplaySettings) (pm : ParsedMerge) (text : Text)
    → render_conflictless pm ≡ some text
    → render settings pm ≡ done text
unfolding render render_conflictless
render-conflictless settings pm text e = render_onto-conflictless settings pm.chunks [] text e

-- A conflict has a side.
abbrev pub has_side : MergedChunk → Bool
has_side (resolved _ _) = true
has_side (conflict left base right _ _ _) = is_some left || is_some base || is_some right

render_onto-Returns :
    (settings : DisplaySettings) (chunks : List MergedChunk) (result : Text)
    → all has_side chunks ≡ true
    → Returns (λ text. Unit) (render_onto settings result chunks)
unfolding render_sides
render_onto-Returns settings [] result h = tt
render_onto-Returns settings (resolved o contents ∷ chunks) result h =
    render_onto-Returns settings chunks (result ++ contents) h
render_onto-Returns settings (conflict none none none _ _ _ ∷ chunks) result h =
    absurd (ground arith)
render_onto-Returns settings (conflict none none (some r) _ _ _ ∷ chunks) result h =
    render_onto-Returns settings chunks (result ++ render_sides settings none none (some r)) h
render_onto-Returns settings (conflict none (some b) right _ _ _ ∷ chunks) result h =
    render_onto-Returns settings chunks (result ++ render_sides settings none (some b) right)
      (ground arith)
render_onto-Returns settings (conflict (some l) base right _ _ _ ∷ chunks) result h =
    render_onto-Returns settings chunks (result ++ render_sides settings (some l) base right)
      (ground arith)

-- A merge result that is about a parsed merge.
abbrev pub Reports : DisplaySettings → ParsedMerge → MergeResult → Type 0
Reports settings pm m =
    (m.conflict_count ≡ conflict_count pm)
    × (m.conflict_mass ≡ conflict_mass pm)
    × (m.method ≡ line_based_method)
    × (render settings pm ≡ done m.contents)

-- If every conflict has a side, the rendering does not panic, and `into_merge_result` reports the
-- merge's own statistics.
pub into_merge_result-Returns :
    (settings : DisplaySettings) (pm : ParsedMerge)
    → all has_side pm.chunks ≡ true
    → Returns (Reports settings pm) (into_merge_result settings pm)
unfolding into_merge_result render
into_merge_result-Returns settings pm h =
    go (render settings pm) refl (render_onto-Returns settings pm.chunks [] h)
  where
    go :
        (r : Run Text)
        → render settings pm ≡ r
        → Returns (λ text. Unit) r
        → Returns (Reports settings pm) (
            r >>= (λ contents. done (record {
              contents = contents;
              conflict_count = conflict_count pm;
              conflict_mass = conflict_mass pm;
              method = line_based_method;
              has_additional_issues = true;
            })))
    go (done text) e u = (refl, refl, refl, e)
    go panicked e u = u
    go out_of_fuel e u = u
