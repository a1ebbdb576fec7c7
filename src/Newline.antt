-- ===== src/Newline.antt =====
-- src/newline.rs: the newline style of a text, and its imitation.
pub mod Laws
pub mod Infer
mod Examples
use mirror_mergiraf.Base.{ℕ, ◌/◌, Bool, true, false, not, if◌then◌else◌, ltb, length, [], ◌∷◌}
use mirror_mergiraf.Base.Text.{Text, lf, cr, contains, split, split_crlf, replace, replace_crlf}

pub data NewlineStyle : Type 0 where
  style_lf style_cr_lf style_cr : NewlineStyle

pub infer_newline_style : Text → NewlineStyle
infer_newline_style contents =
    let lf_count = length (split lf contents) in
    let cr_lf_count = length (split_crlf contents) in
    let cr_count = length (split cr contents) in
    if ltb (lf_count / 2) cr_lf_count
    then style_cr_lf
    else if ltb lf_count cr_count
    then style_cr
    else style_lf

pub imitate_newline_style : Text → NewlineStyle → Text
unfolding replace replace_crlf
imitate_newline_style contents style_lf = replace cr (lf ∷ []) (replace_crlf contents)
imitate_newline_style contents style_cr_lf =
    replace lf (cr ∷ lf ∷ []) (replace cr (lf ∷ []) (replace_crlf contents))
imitate_newline_style contents style_cr = replace lf (cr ∷ []) (replace_crlf contents)

pub normalize_to_lf : Text → Text
unfolding replace replace_crlf
normalize_to_lf contents =
    if not (contains cr contents) then contents else replace cr (lf ∷ []) (replace_crlf contents)
