-- ===== src/ParsedMerge/Ranges.antt =====
-- `ParsedMerge::rev_range_to_merged_range`: a range of a reconstructed revision, found again in the
-- merge output.
use mirror_mergiraf.Base.{
  ℕ, zero, suc, ◌+◌, ◌-◌, ◌%◌, ◌≤◌, ◌<◌, true, false, Option, none, some, List, [], ◌∷◌, ◌++◌, ◌≡◌,
  refl, sym, ap, ◌∙◌, map, length, get_elem?, All, subst, lt-length_of_get_elem?, arith, unwrap_or,
  slice, take-append, slice-append-right, slice-slice,
}
use mirror_mergiraf.Base.Run.{Run, done, ◌>>=◌, Returns, Returns->>=}
use mirror_mergiraf.Base.Text.{Text}
use mirror_mergiraf.Revision.{Revision}
use mirror_mergiraf.ParsedMerge.{
  MergedChunk, resolved, conflict, OffsetMap, offset_map, ParsedMerge, new, chunk_in, concat, side,
  side_len, reconstruct_revision,
}
use mirror_mergiraf.ParsedMerge.Search.{holds, place, binary_search, binary_search-Answers, Answers}
use mirror_mergiraf.ParsedMerge.Index.{sections, maps_of, maps_of-new, IsNonempty, sections-IsIndex}

-- `std::ops::Range<usize>`
pub record Range : Type 0 where
  pub start : ℕ
  pub end : ℕ

-- The subtraction of two `usize`, which wraps around.
abbrev pub sub_usize : ℕ → ℕ → ℕ
sub_usize a b = (a + 0x1_0000_0000_0000_0000 - b) % 0x1_0000_0000_0000_0000

abbrev range_at : ℕ → ℕ → Range
range_at start n = record { start = start; end = start + n }

abbrev to_range : ℕ → Option ℕ → Option Range
to_range n none = none
to_range n (some start) = some (range_at start n)

unfoldable pub rev_range_to_merged_range : ParsedMerge → Range → Revision → Run (Option Range)
rev_range_to_merged_range pm range rev =
    let n = sub_usize range.end range.start in
    do found ← binary_search (maps_of rev pm) range.start n; done (to_range n found)

-- The merged chunk stands in the merge output where its offset says.
abbrev pub IsPlaced : Text → MergedChunk → Type 0
IsPlaced source (resolved o t) = slice o (length t) source ≡ t
IsPlaced source (conflict l b r ln bn rn) = Unit

pub side_len-unwrap_or : (o : Option Text) → side_len o ≡ length (unwrap_or o [])
side_len-unwrap_or none = refl
side_len-unwrap_or (some t) = refl

-- The text of a section is the same in the revision and in the merge output. Before the chunks
-- stand `n` bytes of the revision.
record IsShared (source text : Text) (n : ℕ) (m : OffsetMap) : Type 0 where
  at : ℕ
  starts : m.rev_start ≡ n + at
  same : slice at m.len text ≡ slice m.merged_start m.len source

IsShared-append :
    (source before text : Text) (n k : ℕ) (m : OffsetMap)
    → k ≡ length before
    → IsShared source text (n + k) m
    → IsShared source (before ++ text) n m
IsShared-append source before text n k m e s = record {
  at = length before + s.at;
  starts = omega (arith, s.starts);
  same = slice-append-right before text s.at m.len ∙ s.same;
}

first-IsShared :
    (source : Text) (n o : ℕ) (t text : Text)
    → slice o (length t) source ≡ t
    → IsShared source (t ++ text) n (offset_map n o (length t))
first-IsShared source n o t text p = record {
  at = 0;
  starts = omega arith;
  same = take-append t text ∙ sym p;
}

same_section : {m k : OffsetMap} → some m ≡ some k → m ≡ k
same_section e = cc

section-IsShared :
    (source : Text) (rev : Revision) (n : ℕ) (cs : List MergedChunk) (i : ℕ) (m : OffsetMap)
    → All (IsPlaced source) cs
    → get_elem? (sections rev n cs) i ≡ some m
    → IsShared source (concat (map (chunk_in rev) cs)) n m
unfolding sections
section-IsShared source rev n [] i m p e = absurd (ground arith)
section-IsShared source rev n (resolved o t ∷ cs) zero m p e =
    subst (λ s. IsShared source (t ++ concat (map (chunk_in rev) cs)) n s) (same_section e)
      (first-IsShared source n o t (concat (map (chunk_in rev) cs)) p.0)
section-IsShared source rev n (resolved o t ∷ cs) (suc i) m p e =
    IsShared-append source t (concat (map (chunk_in rev) cs)) n (length t) m refl
      (section-IsShared source rev (n + length t) cs i m p.1 e)
section-IsShared source rev n (conflict l b r ln bn rn ∷ cs) i m p e =
    IsShared-append source (unwrap_or (side rev l b r) []) (concat (map (chunk_in rev) cs)) n
      (side_len (side rev l b r)) m (side_len-unwrap_or (side rev l b r))
      (section-IsShared source rev (n + side_len (side rev l b r)) cs i m p.1 e)

-- A section that holds a range has the range's text at the place that it gives to it.
place-text :
    (source text : Text) (start n : ℕ) (m : OffsetMap)
    → IsShared source text 0 m
    → holds m start n ≡ true
    → slice start n text ≡ slice (place m start) n source
place-text source text start n m s h =
    let d : ℕ = start - m.rev_start in
    let (below, above) = bounds in
    let fits : d + n ≤ m.len = omega arith in
    let from : start ≡ s.at + d = omega (arith, s.starts) in
    let to : m.merged_start + d ≡ place m start = omega arith in
    ap (λ k. slice k n text) from
    ∙ sym (slice-slice d n s.at m.len text fits)
    ∙ ap (slice d n) s.same
    ∙ slice-slice d n m.merged_start m.len source fits
    ∙ ap (λ k. slice k n source) to
  where
    bounds : (m.rev_start ≤ start) × (start + n ≤ m.rev_start + m.len)
    bounds = ground arith

reconstruct_revision-new :
    (cs : List MergedChunk) (rev : Revision)
    → reconstruct_revision (new cs) rev ≡ concat (map (chunk_in rev) cs)
unfolding reconstruct_revision new
reconstruct_revision-new cs rev = refl

-- What `rev_range_to_merged_range` may return for the range `start .. start + n`.
abbrev pub Translates : Text → ParsedMerge → Revision → ℕ → ℕ → Option Range → Type 0
Translates source pm rev start n (some r) =
    (r.end ≡ r.start + n) × (slice start n (reconstruct_revision pm rev) ≡ slice r.start n source)
Translates source pm rev start n none =
    (i : ℕ) (m : OffsetMap)
    → get_elem? (sections rev 0 pm.chunks) i ≡ some m
    → holds m start n ≡ false

Answers-Translates :
    (source : Text) (cs : List MergedChunk) (rev : Revision) (start n : ℕ) (o : Option ℕ)
    → All (IsPlaced source) cs
    → Answers (sections rev 0 cs) start n 0 (length (sections rev 0 cs)) o
    → Translates source (new cs) rev start n (to_range n o)
unfolding new
Answers-Translates source cs rev start n (some p) h a = (
  refl,
  rw (reconstruct_revision-new cs rev, a.placed)
      (place-text source _ start n a.section
        (section-IsShared source rev 0 cs a.index a.section h a.found) a.held),
)
Answers-Translates source cs rev start n none h a =
    λ i m e. a i m (omega arith) (lt-length_of_get_elem? _ i e) e

-- The chunks are those of the merge output `source`, and no merged one is empty. Then a range of a
-- reconstructed revision is translated without a panic and in bounded time. A range that is returned
-- has the same length, and the merge output has the same text there. None is returned only if no
-- merged chunk holds the whole range.
pub rev_range_to_merged_range-Translates :
    (source : Text) (cs : List MergedChunk) (rev : Revision) (range : Range)
    → All IsNonempty cs
    → All (IsPlaced source) cs
    → range.start ≤ range.end
    → range.end < 0x1_0000_0000_0000_0000
    → Returns
        (Translates source (new cs) rev range.start (range.end - range.start))
        (rev_range_to_merged_range (new cs) range rev)
unfolding rev_range_to_merged_range
rev_range_to_merged_range-Translates source cs rev range full placed le bound =
    let e : sub_usize range.end range.start ≡ range.end - range.start = omega arith in
    rw (e, maps_of-new rev cs)
      (Returns->>= _ _ (binary_search (sections rev 0 cs) range.start (range.end - range.start))
        (λ found. done (to_range (range.end - range.start) found))
        (λ o. Answers-Translates source cs rev range.start (range.end - range.start) o placed)
        (binary_search-Answers (sections rev 0 cs) range.start (range.end - range.start)
          (sections-IsIndex rev 0 cs full)))
