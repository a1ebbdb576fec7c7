-- ===== src/MergedText/Examples.antt =====
-- A run of the display of src/merged_text.rs, and an instance of the theorem about it.
use mirror_mergiraf.Base.{false, none, List, [], ◌∷◌, ◌≡◌, refl}
use mirror_mergiraf.Base.Text.{lf}
use mirror_mergiraf.Revision.{Revision}
use mirror_mergiraf.Settings
use mirror_mergiraf.Settings.{DisplaySettings}
use mirror_mergiraf.MergedText.{merged, conflict, MergedText, conflict_mass, reconstruct_revision}
use mirror_mergiraf.MergedText.Render.{render_full_lines}
use mirror_mergiraf.MergedText.Render.Blocks.{Block, print, text_in, Erases}
use mirror_mergiraf.MergedText.Render.Faithful.{render_full_lines-Erases}

abbrev settings : DisplaySettings
unfolding Settings.new Settings.default Settings.calculate_regexes
settings =
    Settings.default
      (λ size. record { diff2 = λ t. false; diff3 = λ t. none; diff3_no_newline = λ t. none })

-- "x = ", then a conflict in the middle of the line, and the rest of the line.
abbrev inline_conflict : MergedText
inline_conflict =
    merged (b'x' ∷ b'=' ∷ [])
    ∷ conflict (b'1' ∷ []) (b'2' ∷ []) (b'3' ∷ [])
    ∷ merged (b';' ∷ lf ∷ [])
    ∷ []

mass_of_inline_conflict : conflict_mass inline_conflict ≡ 3
unfolding conflict_mass
mass_of_inline_conflict = refl

render_full_lines-Erases_example :
    (blocks : List Block) × (render_full_lines settings inline_conflict ≡ print settings [] blocks)
    × ((rev : Revision) → Erases (reconstruct_revision inline_conflict rev) (text_in rev blocks))
render_full_lines-Erases_example = render_full_lines-Erases settings inline_conflict
