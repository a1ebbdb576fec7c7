-- ===== src/ParsedMerge/Examples.antt =====
-- Runs of the functions of src/parsed_merge.rs, and instances of the theorems about them.
use mirror_mergiraf.Base.{
  ℕ, suc, ◌+◌, ◌-◌, ◌*◌, ◌≤◌, ◌<◌, false, Option, none, some, List, [], ◌∷◌, ◌≡◌, refl, length, sum,
  map, if◌then◌else◌, ◌==◌, arith,
}
use mirror_mergiraf.Base.Run.{done, Returns, ok}
use mirror_mergiraf.Base.Text.{Text}
use mirror_mergiraf.Revision.{Revision}
use mirror_mergiraf.Settings
use mirror_mergiraf.Settings.{DisplaySettings}
use mirror_mergiraf.ParsedMerge.{
  MergedChunk, resolved, conflict, ParsedMerge, new, index_chunk, reconstruct_revision,
  conflict_count, conflict_mass, render_conflictless,
}
use mirror_mergiraf.ParsedMerge.Parse.{
  Captures, ConflictRegexes, IsLawful, occurrence, push_resolved, parse_loop, parse,
}
use mirror_mergiraf.ParsedMerge.Parse.Layout.{Parsed, parse-Parsed}
use mirror_mergiraf.ParsedMerge.Ranges.{Range, rev_range_to_merged_range, Translates}
use mirror_mergiraf.ParsedMerge.Render.{into_merge_result}
use mirror_mergiraf.ParsedMerge.Unchanged.{unchanged, parse-into_merge_result}
use mirror_mergiraf.ParsedMerge.Search.{binary_search, Answers, binary_search-Answers}
use mirror_mergiraf.ParsedMerge.Index.{sections, sections-IsIndex}
use mirror_mergiraf.ParsedMerge.Views.{
  parse-rev_range_to_merged_range, parse-render_conflictless, resolved_len, conflict_mass_lem,
}

-- An engine that takes each `<` for a conflict, with a side of the left revision.
abbrev captures : ℕ → Captures
captures k = record {
  start = k;
  end = suc k;
  left_name = none;
  left = some (b'l' ∷ []);
  base_name = none;
  base = none;
  right = none;
  right_name = none;
}

abbrev find_from : ℕ → Text → Option Captures
find_from k [] = none
find_from k (c ∷ t) = if c == b'<' then some (captures k) else find_from (suc k) t

abbrev engine : ConflictRegexes
engine = record { diff2 = λ t. false; diff3 = find_from 0; diff3_no_newline = λ t. none }

find_from-within :
    (k : ℕ) (t : Text) (c : Captures)
    → find_from k t ≡ some c
    → (c.start < c.end) × (c.end ≤ k + length t)
find_from-within k [] c e = absurd (ground arith)
find_from-within k (x ∷ t) c e = ground (arith, find_from-within (suc k) t c)

engine-IsLawful : IsLawful engine
engine-IsLawful = record {
  diff3_within = λ t c e. let h = find_from-within 0 t c e in (h.0, omega (arith, h.1));
  diff3_no_newline_within = λ t c e. absurd (ground arith);
}

-- "a<b"
abbrev source : Text
source = b'a' ∷ b'<' ∷ b'b' ∷ []

abbrev parsed : ParsedMerge
unfolding new index_chunk
parsed = new (
    resolved 0 (b'a' ∷ [])
    ∷ conflict (some (b'l' ∷ [])) none none none none none
    ∷ resolved 2 (b'b' ∷ [])
    ∷ [])

parse_source : parse source engine ≡ done (ok parsed)
unfolding parse parse_loop push_resolved occurrence new index_chunk
parse_source = refl

parse-Parsed_example : Returns (Parsed engine source) (parse source engine)
parse-Parsed_example = parse-Parsed engine source engine-IsLawful

-- The "b" of the right revision "ab", which has nothing for the conflict.
abbrev range_b : Range
range_b = record { start = 1; end = 2 }

found_b :
    rev_range_to_merged_range parsed range_b Revision.right
    ≡ done (some (record { start = 2; end = 3 }))
unfolding rev_range_to_merged_range binary_search new index_chunk
found_b = refl

parse-rev_range_to_merged_range_example :
    Returns
      (Translates source parsed Revision.right 1 (2 - 1))
      (rev_range_to_merged_range parsed range_b Revision.right)
parse-rev_range_to_merged_range_example =
    parse-rev_range_to_merged_range engine source parsed Revision.right range_b engine-IsLawful
      parse_source (omega arith) (omega arith)

-- "ab"
abbrev plain_source : Text
plain_source = b'a' ∷ b'b' ∷ []

abbrev plain : ParsedMerge
unfolding new index_chunk
plain = new (resolved 0 plain_source ∷ [])

parse-plain : parse plain_source engine ≡ done (ok plain)
unfolding parse parse_loop push_resolved occurrence new index_chunk
parse-plain = refl

count_plain : conflict_count plain ≡ 0
unfolding conflict_count new index_chunk
count_plain = refl

parse-render_conflictless_example :
    (render_conflictless plain ≡ some plain_source)
    × ((rev : Revision) → reconstruct_revision plain rev ≡ plain_source)
parse-render_conflictless_example =
    parse-render_conflictless engine plain_source plain engine-IsLawful parse-plain count_plain

abbrev chunks : List MergedChunk
chunks =
    resolved 0 (b'a' ∷ [])
    ∷ conflict (some (b'l' ∷ [])) none (some (b'r' ∷ b'\n' ∷ [])) none none none
    ∷ resolved 9 (b'b' ∷ [])
    ∷ []

conflict_mass_chunks : conflict_mass (new chunks) ≡ 3
unfolding conflict_mass new index_chunk
conflict_mass_chunks = refl

conflict_mass_lem_example :
    conflict_mass (new chunks) + 3 * sum (map resolved_len chunks)
    ≡ length (reconstruct_revision (new chunks) Revision.base)
      + length (reconstruct_revision (new chunks) Revision.left)
      + length (reconstruct_revision (new chunks) Revision.right)
conflict_mass_lem_example = conflict_mass_lem chunks

binary_search-Answers_example :
    Returns
      (Answers (sections Revision.left 0 chunks) 2 1 0 (length (sections Revision.left 0 chunks)))
      (binary_search (sections Revision.left 0 chunks) 2 1)
binary_search-Answers_example =
    binary_search-Answers (sections Revision.left 0 chunks) 2 1
      (sections-IsIndex Revision.left 0 chunks (omega arith, (tt, (omega arith, tt))))

abbrev settings : DisplaySettings
unfolding Settings.new Settings.default Settings.calculate_regexes
settings = Settings.default (λ size. engine)

parse-into_merge_result_example : into_merge_result settings plain ≡ done (unchanged plain_source)
parse-into_merge_result_example =
    parse-into_merge_result engine settings plain_source plain engine-IsLawful parse-plain
      count_plain
