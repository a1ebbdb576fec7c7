-- ===== src/ParsedMerge/Index.antt =====
-- `ParsedMerge::new`: the three lists of sections, read off the chunks one revision at a time.
use mirror_mergiraf.Base.{
  ℕ, zero, suc, ◌+◌, ◌≤◌, ◌<◌, some, List, [], ◌∷◌, ◌++◌, ◌≡◌, refl, sym, ◌∙◌, foldl, length,
  get_elem?, All, arith, append-nil, append_assoc,
}
use mirror_mergiraf.Revision.{Revision}
use mirror_mergiraf.ParsedMerge.{
  MergedChunk, resolved, conflict, OffsetMap, offset_map, ParsedMerge, Indexing, index_chunk,
  no_index, new, side, side_len,
}
use mirror_mergiraf.ParsedMerge.Search.{IsIndex}

-- The sections of a revision whose text so far has the length `n`.
unfoldable pub sections : Revision → ℕ → List MergedChunk → List OffsetMap
sections rev n [] = []
sections rev n (resolved offset contents ∷ cs) =
    offset_map n offset (length contents) ∷ sections rev (n + length contents) cs
sections rev n (conflict l b r ln bn rn ∷ cs) = sections rev (n + side_len (side rev l b r)) cs

-- The list of a `ParsedMerge` that `rev_range_to_merged_range` picks for a revision.
abbrev pub maps_of : Revision → ParsedMerge → List OffsetMap
maps_of Revision.base pm = pm.base
maps_of Revision.left pm = pm.left
maps_of Revision.right pm = pm.right

index_left :
    (cs : List MergedChunk) (s : Indexing)
    → (foldl index_chunk s cs).left ≡ s.left ++ sections Revision.left s.left_offset cs
unfolding sections index_chunk
index_left [] s = sym (append-nil _)
index_left (resolved o t ∷ cs) s =
    index_left cs (index_chunk s (resolved o t))
    ∙ append_assoc s.left (offset_map s.left_offset o (length t) ∷ [])
        (sections Revision.left (s.left_offset + length t) cs)
index_left (conflict l b r ln bn rn ∷ cs) s =
    index_left cs (index_chunk s (conflict l b r ln bn rn))

index_base :
    (cs : List MergedChunk) (s : Indexing)
    → (foldl index_chunk s cs).base ≡ s.base ++ sections Revision.base s.base_offset cs
unfolding sections index_chunk
index_base [] s = sym (append-nil _)
index_base (resolved o t ∷ cs) s =
    index_base cs (index_chunk s (resolved o t))
    ∙ append_assoc s.base (offset_map s.base_offset o (length t) ∷ [])
        (sections Revision.base (s.base_offset + length t) cs)
index_base (conflict l b r ln bn rn ∷ cs) s =
    index_base cs (index_chunk s (conflict l b r ln bn rn))

index_right :
    (cs : List MergedChunk) (s : Indexing)
    → (foldl index_chunk s cs).right ≡ s.right ++ sections Revision.right s.right_offset cs
unfolding sections index_chunk
index_right [] s = sym (append-nil _)
index_right (resolved o t ∷ cs) s =
    index_right cs (index_chunk s (resolved o t))
    ∙ append_assoc s.right (offset_map s.right_offset o (length t) ∷ [])
        (sections Revision.right (s.right_offset + length t) cs)
index_right (conflict l b r ln bn rn ∷ cs) s =
    index_right cs (index_chunk s (conflict l b r ln bn rn))

-- The one loop over the chunks computes the sections of all three revisions.
pub maps_of-new :
    (rev : Revision) (cs : List MergedChunk) → maps_of rev (new cs) ≡ sections rev 0 cs
unfolding new
maps_of-new Revision.base cs = index_base cs no_index
maps_of-new Revision.left cs = index_left cs no_index
maps_of-new Revision.right cs = index_right cs no_index

pub chunks-new : (cs : List MergedChunk) → (new cs).chunks ≡ cs
unfolding new
chunks-new cs = refl

-- No merged chunk is empty.
abbrev pub IsNonempty : MergedChunk → Type 0
IsNonempty (resolved o t) = 0 < length t
IsNonempty (conflict l b r ln bn rn) = Unit

section_from :
    (rev : Revision) (n : ℕ) (cs : List MergedChunk) (i : ℕ) (m : OffsetMap)
    → get_elem? (sections rev n cs) i ≡ some m
    → n ≤ m.rev_start
unfolding sections
section_from rev n [] i m e = absurd (ground arith)
section_from rev n (resolved o t ∷ cs) zero m e = ground arith
section_from rev n (resolved o t ∷ cs) (suc i) m e =
    omega (arith, section_from rev (n + length t) cs i m e)
section_from rev n (conflict l b r ln bn rn ∷ cs) i m e =
    omega (arith, section_from rev (n + side_len (side rev l b r)) cs i m e)

section_nonempty :
    (rev : Revision) (n : ℕ) (cs : List MergedChunk) (i : ℕ) (m : OffsetMap)
    → All IsNonempty cs
    → get_elem? (sections rev n cs) i ≡ some m
    → 0 < m.len
unfolding sections
section_nonempty rev n [] i m h e = absurd (ground arith)
section_nonempty rev n (resolved o t ∷ cs) zero m h e = ground arith
section_nonempty rev n (resolved o t ∷ cs) (suc i) m h e =
    section_nonempty rev (n + length t) cs i m h.1 e
section_nonempty rev n (conflict l b r ln bn rn ∷ cs) i m h e =
    section_nonempty rev (n + side_len (side rev l b r)) cs i m h.1 e

section_ordered :
    (rev : Revision) (n : ℕ) (cs : List MergedChunk) (i j : ℕ) (m k : OffsetMap)
    → get_elem? (sections rev n cs) i ≡ some m
    → get_elem? (sections rev n cs) j ≡ some k
    → i < j
    → m.rev_start + m.len ≤ k.rev_start
unfolding sections
section_ordered rev n [] i j m k e f h = absurd (ground arith)
section_ordered rev n (resolved o t ∷ cs) i zero m k e f h = absurd (omega arith)
section_ordered rev n (resolved o t ∷ cs) zero (suc j) m k e f h =
    ground (arith, section_from rev (n + length t) cs j k f)
section_ordered rev n (resolved o t ∷ cs) (suc i) (suc j) m k e f h =
    section_ordered rev (n + length t) cs i j m k e f (omega arith)
section_ordered rev n (conflict l b r ln bn rn ∷ cs) i j m k e f h =
    section_ordered rev (n + side_len (side rev l b r)) cs i j m k e f h

-- The sections of chunks of which no merged one is empty can be searched.
pub sections-IsIndex :
    (rev : Revision) (n : ℕ) (cs : List MergedChunk)
    → All IsNonempty cs
    → IsIndex (sections rev n cs)
sections-IsIndex rev n cs h = record {
  ordered = λ i j m k e f lt. section_ordered rev n cs i j m k e f lt;
  nonempty = λ i m e. section_nonempty rev n cs i m h e;
}
