-- ===== src/Newline/Examples.antt =====
-- The tests of src/newline.rs, and instances of the theorems.
use mirror_mergiraf.Base.{◌≡◌, refl, [], ◌∷◌, true}
use mirror_mergiraf.Base.Text.{Text, lf, cr, split, split_crlf, contains}
use mirror_mergiraf.Newline.{
  style_lf, style_cr_lf, style_cr, infer_newline_style, imitate_newline_style, normalize_to_lf,
}
use mirror_mergiraf.Newline.Laws.{
  has_style, has_style-imitate_newline_style, normalize_to_lf-imitate_newline_style,
}
use mirror_mergiraf.Newline.Infer.{infer-imitate_newline_style}

-- "A\nB\r\nC\rD"
abbrev mixed : Text
mixed = b'A' ∷ lf ∷ b'B' ∷ cr ∷ lf ∷ b'C' ∷ cr ∷ b'D' ∷ []

imitate_mixed : imitate_newline_style mixed style_lf ≡ b'A' ∷ lf ∷ b'B' ∷ lf ∷ b'C' ∷ lf ∷ b'D' ∷ []
unfolding imitate_newline_style
imitate_mixed = refl

-- "a\r\nb\r\nc\nd"
infer_mixed :
    infer_newline_style (b'a' ∷ cr ∷ lf ∷ b'b' ∷ cr ∷ lf ∷ b'c' ∷ lf ∷ b'd' ∷ []) ≡ style_cr_lf
unfolding infer_newline_style split split_crlf
infer_mixed = refl

-- "a\rb\rc\nd"
infer_cr : infer_newline_style (b'a' ∷ cr ∷ b'b' ∷ cr ∷ b'c' ∷ lf ∷ b'd' ∷ []) ≡ style_cr
unfolding infer_newline_style split split_crlf
infer_cr = refl

normalize_to_lf-imitate_newline_style_example :
    normalize_to_lf (imitate_newline_style mixed style_cr) ≡ normalize_to_lf mixed
normalize_to_lf-imitate_newline_style_example = normalize_to_lf-imitate_newline_style mixed style_cr

has_style-imitate_newline_style_example :
    has_style style_cr_lf (imitate_newline_style mixed style_cr_lf) ≡ true
has_style-imitate_newline_style_example = has_style-imitate_newline_style mixed style_cr_lf

infer-imitate_newline_style_example :
    (infer_newline_style (imitate_newline_style mixed style_cr_lf) ≡ style_cr_lf)
    × (contains lf (normalize_to_lf mixed) ≡ true
        → infer_newline_style (imitate_newline_style mixed style_lf) ≡ style_lf)
    × (infer_newline_style (imitate_newline_style mixed style_cr) ≡ style_cr_lf)
infer-imitate_newline_style_example = infer-imitate_newline_style mixed
