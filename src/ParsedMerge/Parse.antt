-- ===== src/ParsedMerge/Parse.antt =====
-- `ParsedMerge::parse`, over the three regular expressions of `ConflictRegexes`. The engine that runs
-- them (the crate `regex`) is a parameter, with what its documentation says of a match.
pub mod Layout
use mirror_mergiraf.Base.{
  ℕ, zero, suc, ◌+◌, ◌-◌, ◌≤◌, ◌<◌, Bool, true, false, Option, none, some, List, [], ◌∷◌, ◌++◌, ◌≡◌,
  refl, sym, ap, ◌∙◌, leb, ltb, if◌then◌else◌, length, take, drop, All, arith, Bool-cases,
  Option-cases, inl, inr, ltb→lt, le→leb, take-append-drop, length-take_le, drop-drop, subst,
  length-drop, length-append, append_assoc, append-nil, slice, take-append, slice-append-right,
}
use native.Mathlib.Nat.{add-zero}
use mirror_mergiraf.Base.Run.{
  Run, done, panicked, out_of_fuel, ◌>>=◌, Returns, Returns-imp, Returns->>=, Result, ok, err,
}
use mirror_mergiraf.Base.Text.{Text, is_empty}
use mirror_mergiraf.ParsedMerge.{MergedChunk, resolved, conflict, ParsedMerge, new}
use mirror_mergiraf.ParsedMerge.Index.{IsNonempty}
use mirror_mergiraf.ParsedMerge.Ranges.{IsPlaced}

-- `regex::Captures`: the bounds of the whole match, and the texts of the groups 1 to 6.
pub record Captures : Type 0 where
  pub start : ℕ
  pub end : ℕ
  pub left_name : Option Text
  pub left : Option Text
  pub base_name : Option Text
  pub base : Option Text
  pub right : Option Text
  pub right_name : Option Text

pub record ConflictRegexes : Type 0 where
  pub diff2 : Text → Bool
  pub diff3 : Text → Option Captures
  pub diff3_no_newline : Text → Option Captures

-- A match lies in the text that is searched. It is not empty, since each expression has the newline
-- after its first marker.
abbrev pub FindsWithin : (Text → Option Captures) → Type 0
FindsWithin find =
    (t : Text) (c : Captures) → find t ≡ some c → (c.start < c.end) × (c.end ≤ length t)

pub record IsLawful (rx : ConflictRegexes) : Type 0 where
  pub diff3_within : FindsWithin rx.diff3
  pub diff3_no_newline_within : FindsWithin rx.diff3_no_newline

-- `PARSED_MERGE_DIFF2_DETECTED`, the only message of the function
pub data ParseError : Type 0 where
  diff2_detected : ParseError

-- `&text[..n]` and `&text[n..]`
abbrev pub slice_to : ℕ → Text → Run Text
slice_to n t = if leb n (length t) then done (take n t) else panicked

abbrev pub slice_from : ℕ → Text → Run Text
slice_from n t = if leb n (length t) then done (drop n t) else panicked

unfoldable pub occurrence : ConflictRegexes → Text → Option Captures
occurrence rx t = elim (rx.diff3 t) [ some c ↦ some c | none ↦ rx.diff3_no_newline t ]

abbrev conflict_of : Captures → MergedChunk
conflict_of c = conflict c.left c.base c.right c.left_name c.base_name c.right_name

-- `if resolved_end > 0 { chunks.push(…) }`
unfoldable pub push_resolved : ℕ → ℕ → Text → List MergedChunk → Run (List MergedChunk)
push_resolved offset resolved_end remaining chunks =
    if ltb 0 resolved_end
    then (do
      contents ← slice_to resolved_end remaining
      done (chunks ++ resolved offset contents ∷ []))
    else done chunks

-- The `while` loop. `offset` is the distance of `remaining` from the start of the source, which the
-- code computes from the two pointers. The fuel bounds the rounds: each takes some bytes off.
unfoldable pub parse_loop :
    ConflictRegexes → ℕ → ℕ → Text → List MergedChunk → Run (Result ParseError (List MergedChunk))
parse_loop rx zero offset remaining chunks = out_of_fuel
parse_loop rx (suc fuel) offset remaining chunks = elim (is_empty remaining) [
  | true ↦ done (ok chunks)
  | false ↦ elim (occurrence rx remaining) [
    | some c ↦ do
      chunks' ← push_resolved offset c.start remaining chunks
      rest ← slice_from c.end remaining
      parse_loop rx fuel (offset + c.end) rest (chunks' ++ conflict_of c ∷ [])
    | none ↦ elim (rx.diff2 remaining) [
      | true ↦ done (err diff2_detected)
      | false ↦ do
        chunks' ← push_resolved offset (length remaining) remaining chunks
        rest ← slice_from (length remaining) remaining
        parse_loop rx fuel (offset + length remaining) rest chunks'
    ]
  ]
]

abbrev indexed : Result ParseError (List MergedChunk) → Result ParseError ParsedMerge
indexed (ok chunks) = ok (new chunks)
indexed (err e) = err e

unfoldable pub parse : Text → ConflictRegexes → Run (Result ParseError ParsedMerge)
unfolding parse_loop
parse source rx = do chunks ← parse_loop rx (suc (length source)) 0 source []; done (indexed chunks)
