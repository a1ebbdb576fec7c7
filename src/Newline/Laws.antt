-- ===== src/Newline/Laws.antt =====
-- Imitating a style: the result has that style, and differs from the text in newlines only.
use mirror_mergiraf.Base.{
  ℕ, Bool, true, false, not, ◌&&◌, ◌≡◌, refl, sym, ap, ◌∙◌, [], ◌∷◌, ◌==◌, arith, Bool-cases, inl,
  inr,
}
use mirror_mergiraf.Base.Text.{Text, lf, cr, contains, replace, replace_crlf}
use mirror_mergiraf.Newline.{
  NewlineStyle, style_lf, style_cr_lf, style_cr, imitate_newline_style, normalize_to_lf,
}

-- Every carriage return is followed by a line feed, and every line feed follows one.
pub paired : Text → Bool
paired [] = true
paired (x ∷ []) = not (x == lf) && not (x == cr)
paired (x ∷ y ∷ t) = elim (x == cr) [
  | true ↦ y == lf && paired t
  | false ↦ not (x == lf) && paired (y ∷ t)
]

pub has_style : NewlineStyle → Text → Bool
unfolding paired
has_style style_lf t = not (contains cr t)
has_style style_cr_lf t = paired t
has_style style_cr t = not (contains lf t)

contains-replace-cr : (t : Text) → contains cr (replace cr (lf ∷ []) t) ≡ false
unfolding replace
contains-replace-cr [] = refl
contains-replace-cr (x ∷ t) = ground (arith, contains-replace-cr t)

contains-replace-lf : (t : Text) → contains lf (replace lf (cr ∷ []) t) ≡ false
unfolding replace
contains-replace-lf [] = refl
contains-replace-lf (x ∷ t) = ground (arith, contains-replace-lf t)

-- Texts without the character stay as they are.
pub replace_absent : (c : ℕ) (by t : Text) → contains c t ≡ false → replace c by t ≡ t
unfolding replace
replace_absent c by [] h = refl
replace_absent c by (x ∷ t) h = ground (arith, replace_absent c by t)

replace_crlf_absent_cr : (t : Text) → contains cr t ≡ false → replace_crlf t ≡ t
unfolding replace_crlf
replace_crlf_absent_cr [] h = refl
replace_crlf_absent_cr (x ∷ []) h = refl
replace_crlf_absent_cr (x ∷ y ∷ t) h = ground (arith, replace_crlf_absent_cr (y ∷ t))

replace_crlf_absent_lf : (t : Text) → contains lf t ≡ false → replace_crlf t ≡ t
unfolding replace_crlf
replace_crlf_absent_lf [] h = refl
replace_crlf_absent_lf (x ∷ []) h = refl
replace_crlf_absent_lf (x ∷ y ∷ t) h = ground (arith, replace_crlf_absent_lf (y ∷ t))

replace_crlf-expand :
    (t : Text) → contains cr t ≡ false → replace_crlf (replace lf (cr ∷ lf ∷ []) t) ≡ t
unfolding replace replace_crlf
replace_crlf-expand [] h = refl
replace_crlf-expand (x ∷ []) h = ground arith
replace_crlf-expand (x ∷ y ∷ t) h = ground (arith, replace_crlf-expand (y ∷ t))

paired-expand : (t : Text) → contains cr t ≡ false → paired (replace lf (cr ∷ lf ∷ []) t) ≡ true
unfolding replace paired
paired-expand [] h = refl
paired-expand (x ∷ []) h = ground arith
paired-expand (x ∷ y ∷ t) h = ground (arith, paired-expand (y ∷ t))

replace-cr-replace-lf :
    (t : Text) → replace cr (lf ∷ []) (replace lf (cr ∷ []) t) ≡ replace cr (lf ∷ []) t
unfolding replace
replace-cr-replace-lf [] = refl
replace-cr-replace-lf (x ∷ t) = ground (arith, replace-cr-replace-lf t)

replace-lf-replace-cr :
    (t : Text) → replace lf (cr ∷ []) (replace cr (lf ∷ []) t) ≡ replace lf (cr ∷ []) t
unfolding replace
replace-lf-replace-cr [] = refl
replace-lf-replace-cr (x ∷ t) = ground (arith, replace-lf-replace-cr t)

-- Normalising again changes nothing.
replace-cr_normal :
    (t : Text)
    → replace cr (lf ∷ []) (replace_crlf (replace cr (lf ∷ []) (replace_crlf t)))
      ≡ replace cr (lf ∷ []) (replace_crlf t)
replace-cr_normal t =
    let u : Text = replace cr (lf ∷ []) (replace_crlf t) in
    let absent : contains cr u ≡ false = contains-replace-cr (replace_crlf t) in
    ap (replace cr (lf ∷ [])) (replace_crlf_absent_cr u absent)
    ∙ replace_absent cr (lf ∷ []) u absent

-- The test for carriage returns is a shortcut.
pub normalize_to_lf_lem : (t : Text) → normalize_to_lf t ≡ replace cr (lf ∷ []) (replace_crlf t)
unfolding normalize_to_lf
normalize_to_lf_lem t = elim (Bool-cases (contains cr t)) [
  | inl h ↦ rw h
  | inr h ↦ rw (h, replace_crlf_absent_cr t h) (sym (replace_absent cr (lf ∷ []) t h))
]

-- A text in normal form has no carriage return.
pub contains-normalize_to_lf : (t : Text) → contains cr (normalize_to_lf t) ≡ false
contains-normalize_to_lf t = rw normalize_to_lf_lem (contains-replace-cr (replace_crlf t))

-- The imitation has the style that was asked for.
pub has_style-imitate_newline_style :
    (t : Text) (style : NewlineStyle) → has_style style (imitate_newline_style t style) ≡ true
unfolding has_style imitate_newline_style
has_style-imitate_newline_style t style_lf = rw (contains-replace-cr (replace_crlf t))
has_style-imitate_newline_style t style_cr_lf =
    paired-expand (replace cr (lf ∷ []) (replace_crlf t)) (contains-replace-cr (replace_crlf t))
has_style-imitate_newline_style t style_cr = rw (contains-replace-lf (replace_crlf t))

-- Imitation changes newlines only: both texts have one normal form.
pub normalize_to_lf-imitate_newline_style :
    (t : Text) (style : NewlineStyle)
    → normalize_to_lf (imitate_newline_style t style) ≡ normalize_to_lf t
unfolding imitate_newline_style
normalize_to_lf-imitate_newline_style t style =
    normalize_to_lf_lem (imitate_newline_style t style)
    ∙ by_style style
    ∙ sym (normalize_to_lf_lem t)
  where
    by_style :
        (style : NewlineStyle)
        → replace cr (lf ∷ []) (replace_crlf (imitate_newline_style t style))
          ≡ replace cr (lf ∷ []) (replace_crlf t)
    by_style style_lf = replace-cr_normal t
    by_style style_cr_lf =
        let absent = contains-replace-cr (replace_crlf t) in
        rw (replace_crlf-expand _ absent) (replace_absent cr _ _ absent)
    by_style style_cr =
        ap (replace cr (lf ∷ [])) (
          replace_crlf_absent_lf (replace lf (cr ∷ []) (replace_crlf t))
            (contains-replace-lf (replace_crlf t)))
        ∙ replace-cr-replace-lf (replace_crlf t)

pub imitate_newline_style_lf : (t : Text) → imitate_newline_style t style_lf ≡ normalize_to_lf t
unfolding imitate_newline_style
imitate_newline_style_lf t = sym (normalize_to_lf_lem t)

pub imitate_newline_style-cr-lf :
    (t : Text) → imitate_newline_style t style_cr_lf ≡ replace lf (cr ∷ lf ∷ []) (normalize_to_lf t)
unfolding imitate_newline_style
imitate_newline_style-cr-lf t = ap (replace lf (cr ∷ lf ∷ [])) (sym (normalize_to_lf_lem t))

pub imitate_newline_style_cr : (t : Text) → contains lf (imitate_newline_style t style_cr) ≡ false
unfolding imitate_newline_style
imitate_newline_style_cr t = contains-replace-lf (replace_crlf t)

-- What is imitated depends on the normal form only.
pub imitate_newline_style_normal :
    (t : Text) (style : NewlineStyle)
    → imitate_newline_style t style ≡ imitate_newline_style (normalize_to_lf t) style
unfolding imitate_newline_style
imitate_newline_style_normal t style =
    by_style style ∙ ap (λ s. imitate_newline_style s style) (sym (normalize_to_lf_lem t))
  where
    by_style :
        (style : NewlineStyle)
        → imitate_newline_style t style
          ≡ imitate_newline_style (replace cr (lf ∷ []) (replace_crlf t)) style
    by_style style_lf = sym (replace-cr_normal t)
    by_style style_cr_lf = ap (replace lf (cr ∷ lf ∷ [])) (sym (replace-cr_normal t))
    by_style style_cr = sym (
        ap (replace lf (cr ∷ [])) (
          replace_crlf_absent_cr (replace cr (lf ∷ []) (replace_crlf t))
            (contains-replace-cr (replace_crlf t)))
        ∙ replace-lf-replace-cr (replace_crlf t))

-- Texts with one normal form have one imitation in each style; so imitating twice is imitating once,
-- whatever the first style was.
pub imitate-imitate :
    (t : Text) (first second : NewlineStyle)
    → imitate_newline_style (imitate_newline_style t first) second ≡ imitate_newline_style t second
imitate-imitate t first second =
    imitate_newline_style_normal (imitate_newline_style t first) second
    ∙ ap (λ s. imitate_newline_style s second) (normalize_to_lf-imitate_newline_style t first)
    ∙ sym (imitate_newline_style_normal t second)
