-- ===== src/TreeMatcher/Recovery/Converts.antt =====
-- An edit script that fits the two trees is converted without a panic.
use mirror_mergiraf.Base.{true, ◌≡◌, Bool-cases, inl, inr}
use mirror_mergiraf.Base.Run.{Returns, Returns->>=}
use mirror_mergiraf.Base.Text.{text_eq}
use mirror_mergiraf.Ast.{info}
use mirror_mergiraf.Matching.{can_be_matched}
use mirror_mergiraf.TreeMatcher.Linear.{Recovered, add_recovered}
use mirror_mergiraf.TreeMatcher.Linear.Ends.{KeptByMatches, can_be_matched-same_kind}
use mirror_mergiraf.TreeMatcher.Recovery.{
  TedTrees, none_left, and_then, ted_node, ted_children, Edit, Edits, finished, next, advance,
  convert_tree_edits_to_matches,
}

-- A script fits two lists of trees, if it replaces a tree only where there is one on both sides and the
-- two are of one kind, and the script for the children fits these.
unfoldable pub Fits : Edits → TedTrees → TedTrees → Type 0
Fits finished lefts rights = Unit {0}
Fits (next (Edit.replace child_edits) edits) none_left rights = ⊥
Fits (next (Edit.replace child_edits) edits) (and_then l ls) none_left = ⊥
Fits (next (Edit.replace child_edits) edits) (and_then l ls) (and_then r rs) =
    (text_eq (info (ted_node l)).kind (info (ted_node r)).kind ≡ true)
    × Fits child_edits (ted_children l) (ted_children r)
    × Fits edits ls rs
Fits (next Edit.insert edits) lefts rights = Fits edits lefts (advance rights)
Fits (next Edit.remove edits) lefts rights = Fits edits (advance lefts) rights

-- The conversion of a script that fits the trees does not panic, and keeps what every match between nodes
-- of one kind keeps.
pub convert_tree_edits_to_matches-Returns :
    (P : Recovered → Type 0)
    → KeptByMatches P
    → (edits : Edits) (lefts rights : TedTrees) (s : Recovered) → Fits edits lefts rights
    → P s
    → Returns P (convert_tree_edits_to_matches edits lefts rights s)
unfolding convert_tree_edits_to_matches Fits
convert_tree_edits_to_matches-Returns P keep finished lefts rights s fits k = k
convert_tree_edits_to_matches-Returns P keep (next (Edit.replace es) edits) none_left rights s fits
      k =
    absurd fits
convert_tree_edits_to_matches-Returns P keep (next (Edit.replace es) edits) (and_then l ls)
      none_left s fits k =
    absurd fits
convert_tree_edits_to_matches-Returns P keep (next (Edit.replace es) edits) (and_then l ls)
      (and_then r rs) s fits k =
    rw (fits.0, convert_tree_edits_to_matches)
      (elim (Bool-cases (can_be_matched s.matching (ted_node l) (ted_node r))) [
        | inl can ↦
            rw (can, convert_tree_edits_to_matches)
              (Returns->>= P P _ _
                (λ s' k'. convert_tree_edits_to_matches-Returns P keep edits ls rs s' fits.2 k')
                (convert_tree_edits_to_matches-Returns P keep es (ted_children l) (ted_children r)
                  (add_recovered s (ted_node l) (ted_node r)) fits.1
                  (keep s (ted_node l) (ted_node r)
                    (can_be_matched-same_kind s.matching (ted_node l) (ted_node r) can) k)))
        | inr cannot ↦
            rw (cannot, convert_tree_edits_to_matches)
              (convert_tree_edits_to_matches-Returns P keep edits ls rs s fits.2 k)
      ])
convert_tree_edits_to_matches-Returns P keep (next Edit.insert edits) lefts rights s fits k =
    convert_tree_edits_to_matches-Returns P keep edits lefts (advance rights) s fits k
convert_tree_edits_to_matches-Returns P keep (next Edit.remove edits) lefts rights s fits k =
    convert_tree_edits_to_matches-Returns P keep edits (advance lefts) rights s fits k
