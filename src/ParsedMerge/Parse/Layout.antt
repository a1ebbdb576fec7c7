-- ===== src/ParsedMerge/Parse/Layout.antt =====
-- What `ParsedMerge::parse` returns: chunks that lie in the source one after the other.
use mirror_mergiraf.Base.{
  ℕ, zero, suc, ◌+◌, ◌-◌, ◌≤◌, ◌<◌, true, none, some, List, [], ◌∷◌, ◌++◌, ◌≡◌, refl, sym, ap, ◌∙◌,
  ltb, if◌then◌else◌, length, take, drop, All, arith, Bool-cases, Option-cases, inl, inr, ltb→lt,
  le→leb, take-append-drop, length-take_le, drop-drop, subst, length-drop, length-append,
  append_assoc, append-nil, slice, take-append, slice-append-right,
}
use native.Mathlib.Nat.{add-zero}
use mirror_mergiraf.Base.Run.{done, Returns, Returns-imp, Returns->>=, Result, ok, err}
use mirror_mergiraf.Base.Text.{Text}
use mirror_mergiraf.ParsedMerge.{MergedChunk, resolved, ParsedMerge, new}
use mirror_mergiraf.ParsedMerge.Index.{IsNonempty}
use mirror_mergiraf.ParsedMerge.Ranges.{IsPlaced}
use mirror_mergiraf.ParsedMerge.Parse.{
  Captures, ConflictRegexes, IsLawful, ParseError, slice_from, occurrence, conflict_of,
  push_resolved, parse_loop, indexed, parse,
}

-- How chunks make up a text, that starts `offset` bytes after the start of the source: a merged one
-- is a piece of the text at its offset, and not empty; a conflict is a piece that one of the
-- expressions matches, at the start of what is left of it.
pub data Layout (rx : ConflictRegexes) : ℕ → Text → List MergedChunk → Type 0 where
  end : (offset : ℕ) → Layout rx offset [] []
  merged :
      (offset : ℕ) (contents rest : Text) (cs : List MergedChunk)
      → 0 < length contents
      → Layout rx (offset + length contents) rest cs
      → Layout rx offset (contents ++ rest) (resolved offset contents ∷ cs)
  marked :
      (offset : ℕ) (c : Captures) (before raw rest : Text) (cs : List MergedChunk)
      → occurrence rx (before ++ raw ++ rest) ≡ some c
      → length before ≡ c.start
      → length before + length raw ≡ c.end
      → Layout rx (offset + length raw) rest cs
      → Layout rx offset (raw ++ rest) (conflict_of c ∷ cs)

-- What `parse_loop` returns for a text, after the chunks that it has collected.
abbrev pub Parses :
    ConflictRegexes → ℕ → Text → List MergedChunk → Result ParseError (List MergedChunk) → Type 0
Parses rx offset text chunks (ok cs) =
    (new : List MergedChunk) × (cs ≡ chunks ++ new) × Layout rx offset text new
Parses rx offset text chunks (err e) =
    (before rest : Text) × (text ≡ before ++ rest)
    × (occurrence rx rest ≡ none)
    × (rx.diff2 rest ≡ true)

-- The chunk that `push_resolved` appends, or none.
abbrev piece : ℕ → ℕ → Text → List MergedChunk
piece offset k t = if ltb 0 k then resolved offset (take k t) ∷ [] else []

push_resolved_lem :
    (offset k : ℕ) (t : Text) (chunks : List MergedChunk)
    → k ≤ length t
    → push_resolved offset k t chunks ≡ done (chunks ++ piece offset k t)
unfolding push_resolved
push_resolved_lem offset k t chunks h = elim (Bool-cases (ltb 0 k)) [
  | inl some_text ↦ rw (some_text, le→leb k (length t) h)
  | inr no_text ↦ rw no_text (ap done (sym (append-nil chunks)))
]

slice_from_lem : (n : ℕ) (t : Text) → n ≤ length t → slice_from n t ≡ done (drop n t)
slice_from_lem n t h = rw (le→leb n (length t) h)

module _ (rx : ConflictRegexes) where
  Layout-piece :
      (offset k : ℕ) (t : Text) (cs : List MergedChunk)
      → k ≤ length t
      → Layout rx (offset + k) (drop k t) cs
      → Layout rx offset t (piece offset k t ++ cs)
  Layout-piece offset k t cs h l = elim (Bool-cases (ltb 0 k)) [
    | inl some_text ↦
        let pos : 0 < k = ltb→lt 0 k some_text in
        let n : length (take k t) ≡ k = length-take_le k t h in
        rw some_text (
          subst (λ s. Layout rx offset s (resolved offset (take k t) ∷ cs)) (take-append-drop k t)
            (merged offset (take k t) (drop k t) cs (omega arith) (rw n l)))
    | inr no_text ↦
        let z : k ≡ 0 = ground arith in
        rw no_text (
          subst (λ m. Layout rx m t cs) (omega arith)
            (subst (λ j. Layout rx (offset + j) (drop j t) cs) z l))
  ]

  Layout-marked :
      (offset : ℕ) (c : Captures) (t : Text) (cs : List MergedChunk)
      → occurrence rx t ≡ some c
      → c.start < c.end
      → c.end ≤ length t
      → Layout rx (offset + c.end) (drop c.end t) cs
      → Layout rx (offset + c.start) (drop c.start t) (conflict_of c ∷ cs)
  Layout-marked offset c t cs found lt le l =
      subst (λ s. Layout rx (offset + c.start) s (conflict_of c ∷ cs)) rejoin
        (marked (offset + c.start) c (take c.start t) raw (drop c.end t) cs
          (ap (occurrence rx) whole ∙ found) (length-take_le c.start t (omega arith))
          (omega (arith, length-take_le c.start t (omega arith), raw_length))
          (subst (λ k. Layout rx k (drop c.end t) cs) (omega (arith, raw_length)) l))
    where
      raw : Text
      raw = take (c.end - c.start) (drop c.start t)

      raw_length : length raw ≡ c.end - c.start
      raw_length = length-take_le _ _ (omega (arith, length-drop c.start t))

      from_end : drop (c.end - c.start) (drop c.start t) ≡ drop c.end t
      from_end =
          let e : c.start + (c.end - c.start) ≡ c.end = omega arith in
          drop-drop (c.end - c.start) c.start t ∙ ap (λ k. drop k t) e

      rejoin : raw ++ drop c.end t ≡ drop c.start t
      rejoin = rw (← from_end) (take-append-drop (c.end - c.start) (drop c.start t))

      whole : take c.start t ++ raw ++ drop c.end t ≡ t
      whole =
          append_assoc (take c.start t) raw (drop c.end t)
          ∙ ap (λ s. take c.start t ++ s) rejoin
          ∙ take-append-drop c.start t

  occurrence_within :
      (t : Text) (c : Captures)
      → IsLawful rx
      → occurrence rx t ≡ some c
      → (c.start < c.end) × (c.end ≤ length t)
  unfolding occurrence
  occurrence_within t c law e =
      ground (arith, law.diff3_within t c, law.diff3_no_newline_within t c)

  -- What is returned for the rest of a text, as what is returned for the text.
  Parses-rest :
      (offset k : ℕ) (t : Text) (chunks front : List MergedChunk)
      (res : Result ParseError (List MergedChunk))
      → ((cs : List MergedChunk)
          → Layout rx (offset + k) (drop k t) cs
          → Layout rx offset t (front ++ cs))
      → Parses rx (offset + k) (drop k t) (chunks ++ front) res
      → Parses rx offset t chunks res
  Parses-rest offset k t chunks front (ok cs) f (new, e, l) =
      (front ++ new, e ∙ append_assoc chunks front new, f new l)
  Parses-rest offset k t chunks front (err e) f (before, rest, split, found, diff2) = (
    take k t ++ before,
    rest,
    sym (take-append-drop k t)
        ∙ ap (λ s. take k t ++ s) split
        ∙ sym (append_assoc (take k t) before rest),
    found,
    diff2,
  )

  parse_loop-Parses :
      (fuel offset : ℕ) (t : Text) (chunks : List MergedChunk)
      → IsLawful rx
      → length t < fuel
      → Returns (Parses rx offset t chunks) (parse_loop rx fuel offset t chunks)
  unfolding parse_loop
  parse_loop-Parses zero offset t chunks law h = elim h [ ]
  parse_loop-Parses (suc fuel) offset [] chunks law h = ([], sym (append-nil chunks), end offset)
  parse_loop-Parses (suc fuel) offset (x ∷ r) chunks law h =
      elim (Option-cases (occurrence rx (x ∷ r))) [
        | inr (c, found) ↦
            let (lt, le) = occurrence_within (x ∷ r) c law found in
            rw
              (
                found,
                parse_loop,
                push_resolved_lem offset c.start (x ∷ r) chunks (omega arith),
                le→leb c.end (length (x ∷ r)) le,
              )
              (found_rest c found lt le (
                parse_loop-Parses fuel (offset + c.end) (drop c.end (x ∷ r))
                  (chunks ++ (piece offset c.start (x ∷ r) ++ conflict_of c ∷ [])) law
                  (omega (arith, length-drop c.end (x ∷ r)))))
        | inl nothing ↦ elim (Bool-cases (rx.diff2 (x ∷ r))) [
          | inl two ↦ rw (nothing, parse_loop, two, parse_loop) ([], (x ∷ r), refl, nothing, two)
          | inr one ↦
              rw
                (
                  nothing,
                  parse_loop,
                  one,
                  parse_loop,
                  push_resolved_lem offset (length (x ∷ r)) (x ∷ r) chunks (omega arith),
                  le→leb (length (x ∷ r)) (length (x ∷ r)) (omega arith),
                )
                (Returns-imp _
                  (λ res.
                    Parses-rest offset (length (x ∷ r)) (x ∷ r) chunks
                      (piece offset (length (x ∷ r)) (x ∷ r)) res
                      (λ cs. Layout-piece offset (length (x ∷ r)) (x ∷ r) cs (omega arith)))
                  (parse_loop-Parses fuel (offset + length (x ∷ r)) (drop (length r) r)
                    (chunks ++ piece offset (length (x ∷ r)) (x ∷ r)) law
                    (omega (arith, length-drop (length r) r))))
        ]
      ]
    where
      t : Text
      t = x ∷ r

      found_rest :
          (c : Captures)
          → occurrence rx t ≡ some c
          → c.start < c.end
          → c.end ≤ length t
          → Returns
              (Parses rx
                (offset + c.end)
                (drop c.end t)
                (chunks ++ (piece offset c.start t ++ conflict_of c ∷ [])))
              (parse_loop rx fuel
                (offset + c.end)
                (drop c.end t)
                (chunks ++ (piece offset c.start t ++ conflict_of c ∷ [])))
          → Returns (Parses rx offset t chunks) (
              parse_loop rx fuel
                (offset + c.end)
                (drop c.end t)
                ((chunks ++ piece offset c.start t) ++ conflict_of c ∷ []))
      found_rest c found lt le ih =
          let front : List MergedChunk = piece offset c.start t ++ conflict_of c ∷ [] in
          rw (append_assoc chunks (piece offset c.start t) (conflict_of c ∷ [])) (
            Returns-imp _
              (λ res. Parses-rest offset c.end t chunks front res (λ cs l.
                rw (append_assoc (piece offset c.start t) (conflict_of c ∷ []) cs) (
                  Layout-piece offset c.start t (conflict_of c ∷ cs) (omega arith)
                    (Layout-marked offset c t cs found lt le l))))
              ih)

-- What `parse` returns for a source.
abbrev pub Parsed : ConflictRegexes → Text → Result ParseError ParsedMerge → Type 0
Parsed rx source (ok pm) = (cs : List MergedChunk) × (pm ≡ new cs) × Layout rx 0 source cs
Parsed rx source (err e) =
    (before rest : Text) × (source ≡ before ++ rest)
    × (occurrence rx rest ≡ none)
    × (rx.diff2 rest ≡ true)

-- With expressions whose matches are not empty and lie in the text that is searched, `parse` returns
-- for every source: it slices no text out of bounds, and its loop ends. The chunks that it returns
-- lie in the source one after the other, and nothing of the source is left out. It fails only where
-- what is left of the source has a conflict in the diff2 style and none in the diff3 style.
pub parse-Parsed :
    (rx : ConflictRegexes) (source : Text)
    → IsLawful rx
    → Returns (Parsed rx source) (parse source rx)
unfolding parse
parse-Parsed rx source law =
    Returns->>= _ _ (parse_loop rx (suc (length source)) 0 source []) (λ cs. done (indexed cs))
      (λ res h. of_result res h)
      (parse_loop-Parses rx (suc (length source)) 0 source [] law (omega arith))
  where
    of_result :
        (res : Result ParseError (List MergedChunk))
        → Parses rx 0 source [] res
        → Parsed rx source (indexed res)
    of_result (ok cs) (new, e, l) = (cs, refl, subst (λ k. Layout rx 0 source k) (sym e) l)
    of_result (err e) h = h

-- The chunks of a text that starts `n` bytes into the source are in their places, and none is empty.
Layout-IsPlaced' :
    (rx : ConflictRegexes) (before : Text) {n : ℕ} {text : Text} {cs : List MergedChunk}
    → length before ≡ n
    → Layout rx n text cs
    → All (IsPlaced (before ++ text)) cs × All IsNonempty cs
Layout-IsPlaced' rx before e (end _) = (tt, tt)
Layout-IsPlaced' rx before e (merged offset contents rest cs pos l) =
    let rejoin : (before ++ contents) ++ rest ≡ before ++ (contents ++ rest) =
      append_assoc before contents rest in
    let n : length (before ++ contents) ≡ offset + length contents =
      omega (arith, length-append before contents) in
    let (placed, full) = Layout-IsPlaced' rx (before ++ contents) n l in
    let here : slice offset (length contents) (before ++ (contents ++ rest)) ≡ contents =
      ap (λ k. slice k (length contents) (before ++ (contents ++ rest))) (sym e ∙ sym (add-zero _))
      ∙ slice-append-right before (contents ++ rest) 0 (length contents)
      ∙ take-append contents rest in
    ((here, subst (λ s. All (IsPlaced s) cs) rejoin placed), (pos, full))
Layout-IsPlaced' rx before e (marked offset c b raw rest cs found s t l) =
    let n : length (before ++ raw) ≡ offset + length raw =
      omega (arith, length-append before raw) in
    let (placed, full) = Layout-IsPlaced' rx (before ++ raw) n l in
    ((tt, subst (λ s. All (IsPlaced s) cs) (append_assoc before raw rest) placed), (tt, full))

-- The chunks of a parsed source are in their places, and no merged one is empty.
pub Layout-IsPlaced :
    (rx : ConflictRegexes) {source : Text} {cs : List MergedChunk}
    → Layout rx 0 source cs
    → All (IsPlaced source) cs × All IsNonempty cs
Layout-IsPlaced rx l = Layout-IsPlaced' rx [] refl l
