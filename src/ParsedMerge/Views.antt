-- ===== src/ParsedMerge/Views.antt =====
-- What the other methods of `ParsedMerge` say of a parsed source.
use mirror_mergiraf.Base.{
  ℕ, ◌+◌, ◌-◌, ◌*◌, ◌≤◌, ◌<◌, true, some, List, [], ◌∷◌, ◌++◌, ◌≡◌, refl, sym, ap, ◌∙◌, ◌↔◌, map,
  length, filter, sum, all, arith, Option-cases, inl, inr, subst, length-append, unwrap_or,
}
use mirror_mergiraf.Base.Run.{done, Returns, ok}
use mirror_mergiraf.Base.Text.{Text}
use mirror_mergiraf.Revision.{Revision}
use mirror_mergiraf.ParsedMerge.{
  MergedChunk, resolved, conflict, ParsedMerge, new, chunk_in, concat, reconstruct_revision,
  conflictless, render_conflictless, is_conflict, conflict_count, conflict_mass, is_empty,
  chunk_is_empty,
}
use mirror_mergiraf.ParsedMerge.Index.{chunks-new}
use mirror_mergiraf.ParsedMerge.Parse.{ConflictRegexes, IsLawful, parse}
use mirror_mergiraf.ParsedMerge.Parse.Layout.{
  Layout, Parsed, parse-Parsed, Layout-IsPlaced, end, merged, marked,
}
use mirror_mergiraf.ParsedMerge.Ranges.{
  Range, side_len-unwrap_or, rev_range_to_merged_range, rev_range_to_merged_range-Translates,
  Translates,
}

-- The result of a call that is known to satisfy what the call returns.
Parsed-ok :
    (rx : ConflictRegexes) (source : Text) (pm : ParsedMerge)
    → IsLawful rx
    → parse source rx ≡ done (ok pm)
    → Parsed rx source (ok pm)
Parsed-ok rx source pm law e = subst (Returns (Parsed rx source)) e (parse-Parsed rx source law)

-- Take a source that is parsed with lawful expressions, and a range of a revision reconstructed from
-- it whose end is not before its start and fits into 64 bits. The range is translated without a
-- panic, and the search for it ends. A range that is returned has the same length, and the source
-- has the same text there. None is returned only if no merged chunk holds the whole range.
pub parse-rev_range_to_merged_range :
    (rx : ConflictRegexes) (source : Text) (pm : ParsedMerge) (rev : Revision) (range : Range)
    → IsLawful rx
    → parse source rx ≡ done (ok pm)
    → range.start ≤ range.end
    → range.end < 0x1_0000_0000_0000_0000
    → Returns
        (Translates source pm rev range.start (range.end - range.start))
        (rev_range_to_merged_range pm range rev)
parse-rev_range_to_merged_range rx source pm rev range law e le bound =
    let (cs, of_chunks, l) = Parsed-ok rx source pm law e in
    let (placed, full) = Layout-IsPlaced rx l in
    rw of_chunks (rev_range_to_merged_range-Translates source cs rev range full placed le bound)

Layout-conflictless :
    (rx : ConflictRegexes) {n : ℕ} {text : Text} {cs : List MergedChunk}
    → Layout rx n text cs
    → length (filter is_conflict cs) ≡ 0
    → conflictless cs ≡ some text
unfolding conflictless
Layout-conflictless rx (end _) h = refl
Layout-conflictless rx (merged offset contents rest cs pos l) h =
    rw (Layout-conflictless rx l h, conflictless)
Layout-conflictless rx (marked offset c b raw rest cs found s t l) h = absurd (omega arith)

conflictless-concat :
    (rev : Revision) (cs : List MergedChunk) (t : Text)
    → conflictless cs ≡ some t
    → concat (map (chunk_in rev) cs) ≡ t
unfolding conflictless
conflictless-concat rev [] u h = cc
conflictless-concat rev (resolved o t ∷ cs) u h = elim (Option-cases (conflictless cs)) [
  | inl e ↦ absurd (ground arith)
  | inr (rest, e) ↦
      let whole : t ++ rest ≡ u = ground arith in
      ap (λ s. t ++ s) (conflictless-concat rev cs rest e) ∙ whole
]
conflictless-concat rev (conflict l b r ln bn rn ∷ cs) u h = cc

-- If parsing a source with lawful expressions finds no conflict, the source is what is rendered, and
-- what each revision is reconstructed to.
pub parse-render_conflictless :
    (rx : ConflictRegexes) (source : Text) (pm : ParsedMerge)
    → IsLawful rx
    → parse source rx ≡ done (ok pm)
    → conflict_count pm ≡ 0
    → (render_conflictless pm ≡ some source)
      × ((rev : Revision) → reconstruct_revision pm rev ≡ source)
unfolding render_conflictless conflict_count reconstruct_revision
parse-render_conflictless rx source pm law e h =
    let (cs, of_chunks, l) = Parsed-ok rx source pm law e in
    let same : pm.chunks ≡ cs = ap (λ (p : ParsedMerge). p.chunks) of_chunks ∙ chunks-new cs in
    let none_left : length (filter is_conflict cs) ≡ 0 =
      ap (λ k. length (filter is_conflict k)) (sym same) ∙ h in
    let whole : conflictless cs ≡ some source = Layout-conflictless rx l none_left in
    (
      ap conflictless same ∙ whole,
      λ rev. ap (λ k. concat (map (chunk_in rev) k)) same ∙ conflictless-concat rev cs source whole,
    )

abbrev pub resolved_len : MergedChunk → ℕ
resolved_len (resolved o t) = length t
resolved_len (conflict l b r ln bn rn) = 0

-- The conflicts of the merge weigh the bytes of their sides: what all revisions reconstruct to is
-- three times the merged text and the mass.
pub conflict_mass_lem :
    (cs : List MergedChunk)
    → conflict_mass (new cs) + 3 * sum (map resolved_len cs)
      ≡ length (reconstruct_revision (new cs) Revision.base)
        + length (reconstruct_revision (new cs) Revision.left)
        + length (reconstruct_revision (new cs) Revision.right)
unfolding conflict_mass reconstruct_revision new
conflict_mass_lem [] = refl
conflict_mass_lem (resolved o t ∷ cs) = omega (
  arith,
  conflict_mass_lem cs,
  length-append t (concat (map (chunk_in Revision.base) cs)),
  length-append t (concat (map (chunk_in Revision.left) cs)),
  length-append t (concat (map (chunk_in Revision.right) cs)),
)
conflict_mass_lem (conflict l b r ln bn rn ∷ cs) = omega (
  arith,
  conflict_mass_lem cs,
  side_len-unwrap_or b,
  side_len-unwrap_or l,
  side_len-unwrap_or r,
  length-append (unwrap_or b []) (concat (map (chunk_in Revision.base) cs)),
  length-append (unwrap_or l []) (concat (map (chunk_in Revision.left) cs)),
  length-append (unwrap_or r []) (concat (map (chunk_in Revision.right) cs)),
)

all_empty : (cs : List MergedChunk) → all chunk_is_empty cs ≡ true → conflictless cs ≡ some []
unfolding conflictless
all_empty [] h = refl
all_empty (resolved o [] ∷ cs) h = rw (all_empty cs h, conflictless)
all_empty (resolved o (x ∷ t) ∷ cs) h = cc
all_empty (conflict l b r ln bn rn ∷ cs) h = cc

conflictless_nil :
    (cs : List MergedChunk) → conflictless cs ≡ some [] → all chunk_is_empty cs ≡ true
unfolding conflictless
conflictless_nil [] h = refl
conflictless_nil (resolved o [] ∷ cs) h = ground (arith, conflictless_nil cs)
conflictless_nil (resolved o (x ∷ t) ∷ cs) h = ground arith
conflictless_nil (conflict l b r ln bn rn ∷ cs) h = cc

-- `is_empty` holds exactly if there is no conflict and no merged text.
is_empty_iff :
    (cs : List MergedChunk) → (is_empty (new cs) ≡ true) ↔ (render_conflictless (new cs) ≡ some [])
unfolding is_empty render_conflictless new
is_empty_iff cs = (all_empty cs, conflictless_nil cs)
