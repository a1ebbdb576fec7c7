-- ===== src/Newline/Infer.antt =====
-- What `infer_newline_style` finds in a text of one style.
use mirror_mergiraf.Base.{ℕ, ◌≤◌, ◌<◌, true, false, ◌≡◌, refl, [], ◌∷◌, length, arith, ◌/◌, lt→ltb}
use mirror_mergiraf.Base.Text.{Text, lf, cr, contains, replace, split, split_crlf}
use mirror_mergiraf.Newline.{
  style_lf, style_cr_lf, style_cr, infer_newline_style, imitate_newline_style, normalize_to_lf,
}
use mirror_mergiraf.Newline.Laws.{
  imitate_newline_style_lf, imitate_newline_style-cr-lf, imitate_newline_style_cr,
  contains-normalize_to_lf,
}

-- A text without the separator is one part.
split_absent : (c : ℕ) (t : Text) → contains c t ≡ false → length (split c t) ≡ 1
unfolding split
split_absent c [] h = refl
split_absent c (x ∷ t) h = ground (arith, split_absent c t)

split_crlf_absent : (t : Text) → contains cr t ≡ false → length (split_crlf t) ≡ 1
unfolding split_crlf
split_crlf_absent [] h = refl
split_crlf_absent (x ∷ []) h = refl
split_crlf_absent (x ∷ y ∷ t) h = ground (arith, split_crlf_absent (y ∷ t))

split_present : (c : ℕ) (t : Text) → contains c t ≡ true → 2 ≤ length (split c t)
unfolding split
split_present c [] h = absurd (ground arith)
split_present c (x ∷ t) h = ground (arith, split_present c t)

-- Each line feed of the text becomes one separator of either kind.
split_crlf-expand :
    (t : Text)
    → contains cr t ≡ false
    → length (split_crlf (replace lf (cr ∷ lf ∷ []) t)) ≡ length (split lf t)
unfolding split split_crlf replace
split_crlf-expand [] h = refl
split_crlf-expand (x ∷ []) h = ground arith
split_crlf-expand (x ∷ y ∷ t) h = ground (arith, split_crlf-expand (y ∷ t))

split-expand : (t : Text) → length (split lf (replace lf (cr ∷ lf ∷ []) t)) ≡ length (split lf t)
unfolding split replace
split-expand [] = refl
split-expand (x ∷ t) = ground (arith, split-expand t)

split_crlf_pos : (t : Text) → 0 < length (split_crlf t)
unfolding split_crlf
split_crlf_pos t = omega arith

infer_cr_lf :
    (t : Text)
    → length (split lf t) / 2 < length (split_crlf t)
    → infer_newline_style t ≡ style_cr_lf
unfolding infer_newline_style
infer_cr_lf t h = rw (lt→ltb _ _ h)

-- Any text without a line feed is taken for one with `\r\n`, be it that it has no newline at all or
-- that its newlines are carriage returns.
pub infer_absent_lf : (t : Text) → contains lf t ≡ false → infer_newline_style t ≡ style_cr_lf
infer_absent_lf t h = infer_cr_lf t (omega (arith, split_absent lf t h, split_crlf_pos t))

-- A text with line feeds and without carriage returns is recognised as such.
pub infer_lf :
    (t : Text) → contains lf t ≡ true → contains cr t ≡ false → infer_newline_style t ≡ style_lf
unfolding infer_newline_style
infer_lf t h k = ground (arith, split_present lf t h, split_absent cr t k, split_crlf_absent t k)

-- The style that is inferred of an imitation: `\r\n` whenever that was imitated, `\n` if that was
-- imitated in a text that has a newline, and never `\r`.
pub infer-imitate_newline_style :
    (t : Text)
    → (infer_newline_style (imitate_newline_style t style_cr_lf) ≡ style_cr_lf)
      × (contains lf (normalize_to_lf t) ≡ true
          → infer_newline_style (imitate_newline_style t style_lf) ≡ style_lf)
      × (infer_newline_style (imitate_newline_style t style_cr) ≡ style_cr_lf)
infer-imitate_newline_style t = (of_cr_lf, of_lf, infer_absent_lf _ (imitate_newline_style_cr t))
  where
    n : Text
    n = normalize_to_lf t

    of_cr_lf : infer_newline_style (imitate_newline_style t style_cr_lf) ≡ style_cr_lf
    of_cr_lf = rw (imitate_newline_style-cr-lf t) (
        infer_cr_lf _ (
          omega (
            arith,
            ◌/◌,
            lt→ltb,
            split-expand n,
            split_crlf-expand n (contains-normalize_to_lf t),
            split_crlf_pos (replace lf (cr ∷ lf ∷ []) n),
          )))

    of_lf : contains lf n ≡ true → infer_newline_style (imitate_newline_style t style_lf) ≡ style_lf
    of_lf h = rw (imitate_newline_style_lf t) (infer_lf n h (contains-normalize_to_lf t))
