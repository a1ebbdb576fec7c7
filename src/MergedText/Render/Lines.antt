-- ===== src/MergedText/Render/Lines.antt =====
-- What `render_conflict` prints, described line by line.
use mirror_mergiraf.Base.{
  true, false, Bool, [], ◌∷◌, ◌++◌, ◌≡◌, inl, inr, refl, sym, ap, ◌∙◌, if◌then◌else◌, append_assoc,
  Bool-cases, append-nil, ℕ,
}
use mirror_mergiraf.Base.Text.{Text, lf, is_blank, ends_with}
use mirror_mergiraf.Settings.{
  DisplaySettings, left_marker_or_default, base_marker_or_default, middle_marker_or_default,
  right_marker_or_default,
}
use mirror_mergiraf.MergedText.Render.{maybe_add_newline, render_conflict, push_marker, shown}

-- A text made of whole lines: nothing is added to a text that is empty or that ends a line.
abbrev pub whole_lines : Text → Text
whole_lines [] = []
whole_lines (x ∷ t) = if ends_with lf (x ∷ t) then x ∷ t else x ∷ t ++ lf ∷ []

-- A side of a conflict after its marker: its lines, unless there is only white space.
abbrev pub side_lines : Text → Text → Text
side_lines marker side = marker ++ lf ∷ (if is_blank side then [] else whole_lines side)

-- A conflict as Git shows it: the left side, with diff3 the base, and the right side, each after its
-- marker, and the last marker.
abbrev pub conflict_lines : DisplaySettings → Text → Text → Text → Text
conflict_lines settings base left right =
    side_lines (left_marker_or_default settings) left
    ++ ((if settings.diff3 then side_lines (base_marker_or_default settings) base else [])
        ++ (side_lines (middle_marker_or_default settings) right
            ++ (right_marker_or_default settings ++ lf ∷ [])))

maybe_add_newline_lem : (t : Text) → maybe_add_newline t ≡ whole_lines t
unfolding maybe_add_newline
maybe_add_newline_lem [] = refl
maybe_add_newline_lem (x ∷ t) = elim (Bool-cases (ends_with lf (x ∷ t))) [
  | inl ended ↦ rw (ended, maybe_add_newline) refl
  | inr unended ↦ rw (unended, maybe_add_newline) refl
]

whole_lines-cons : (x y : ℕ) (t : Text) → whole_lines (x ∷ y ∷ t) ≡ x ∷ whole_lines (y ∷ t)
whole_lines-cons x y t = elim (Bool-cases (ends_with lf (y ∷ t))) [
  | inl ended ↦ rw ended refl
  | inr unended ↦ rw unended refl
]

whole_lines-append : (s t : Text) → whole_lines (s ++ lf ∷ t) ≡ s ++ lf ∷ whole_lines t
whole_lines-append [] [] = refl
whole_lines-append [] (y ∷ t) = whole_lines-cons lf y t
whole_lines-append (x ∷ []) t = whole_lines-cons x lf t ∙ ap (x ∷◌) (whole_lines-append [] t)
whole_lines-append (x ∷ y ∷ s) t =
    whole_lines-cons x y (s ++ lf ∷ t) ∙ ap (x ∷◌) (whole_lines-append (y ∷ s) t)

push_marker_lem :
    (output marker : Text) → push_marker output marker ≡ whole_lines output ++ (marker ++ lf ∷ [])
unfolding push_marker
push_marker_lem output marker =
    ap (λ t. (t ++ marker) ++ lf ∷ []) (maybe_add_newline_lem output)
    ∙ append_assoc (whole_lines output) marker (lf ∷ [])

whole_lines-shown :
    (side : Text) → whole_lines (shown side) ≡ (if is_blank side then [] else whole_lines side)
unfolding shown
whole_lines-shown side = elim (Bool-cases (is_blank side)) [
  | inl blank ↦ rw blank refl
  | inr text ↦ rw text refl
]

-- A marker and the side after it, completed to whole lines.
after_side :
    (output marker side : Text)
    → whole_lines (push_marker output marker ++ shown side)
      ≡ whole_lines output ++ side_lines marker side
after_side output marker side =
    ap (λ t. whole_lines (t ++ shown side))
      (push_marker_lem output marker ∙ sym (append_assoc (whole_lines output) marker (lf ∷ [])))
    ∙ ap whole_lines (append_assoc (whole_lines output ++ marker) (lf ∷ []) (shown side))
    ∙ whole_lines-append (whole_lines output ++ marker) (shown side)
    ∙ ap (λ t. (whole_lines output ++ marker) ++ lf ∷ t) (whole_lines-shown side)
    ∙ append_assoc (whole_lines output) marker
        (lf ∷ (if is_blank side then [] else whole_lines side))

after_base :
    (b : Bool) (output marker base : Text)
    → whole_lines (if b then push_marker output marker ++ shown base else output)
      ≡ whole_lines output ++ (if b then side_lines marker base else [])
after_base true output marker base = after_side output marker base
after_base false output marker base = sym (append-nil (whole_lines output))

pub render_conflict_lem :
    (settings : DisplaySettings) (base left right output : Text)
    → render_conflict settings base left right output
      ≡ whole_lines output ++ conflict_lines settings base left right
unfolding render_conflict
render_conflict_lem settings base left right output =
    let l = side_lines (left_marker_or_default settings) left in
    let b = if settings.diff3 then side_lines (base_marker_or_default settings) base else [] in
    let r = side_lines (middle_marker_or_default settings) right in
    let last = right_marker_or_default settings ++ lf ∷ [] in
    push_marker_lem _ (right_marker_or_default settings)
    ∙ ap (λ t. t ++ last)
        (after_side _ (middle_marker_or_default settings) right
          ∙ ap (λ t. t ++ r)
              (after_base settings.diff3 _ (base_marker_or_default settings) base
                ∙ ap (λ t. t ++ b) (after_side output (left_marker_or_default settings) left)))
    ∙ append_assoc ((whole_lines output ++ l) ++ b) r last
    ∙ append_assoc (whole_lines output ++ l) b (r ++ last)
    ∙ append_assoc (whole_lines output) l (b ++ (r ++ last))

ends_with-append : (t : Text) → ends_with lf (t ++ lf ∷ []) ≡ true
ends_with-append [] = refl
ends_with-append (x ∷ []) = refl
ends_with-append (x ∷ y ∷ t) = ends_with-append (y ∷ t)

ends_with-push_marker : (output marker : Text) → ends_with lf (push_marker output marker) ≡ true
unfolding push_marker
ends_with-push_marker output marker = ends_with-append (maybe_add_newline output ++ marker)

pub ends_with-render_conflict :
    (settings : DisplaySettings) (base left right output : Text)
    → ends_with lf (render_conflict settings base left right output) ≡ true
unfolding render_conflict
ends_with-render_conflict settings base left right output = rw ends_with-push_marker
