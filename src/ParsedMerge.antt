-- ===== src/ParsedMerge.antt =====
-- src/parsed_merge.rs: a file with conflict markers as a list of chunks, with the positions of its
-- merged parts in each reconstructed revision.
pub mod Index
pub mod Search
pub mod Parse
pub mod Ranges
pub mod Views
pub mod Unchanged
pub mod Render
mod Examples
use mirror_mergiraf.Base.{
  ℕ, ◌+◌, ◌<◌, Bool, true, false, ◌&&◌, ◌||◌, Option, none, some, List, [], ◌∷◌, ◌++◌,
  if◌then◌else◌, foldl, map, leb, ◌==◌, length, all, filter, find_map, sum, unwrap_or, flatten,
}
use mirror_mergiraf.Base.Text.{Text, is_empty as text_is_empty}
use mirror_mergiraf.Revision.{Revision}

pub data MergedChunk : Type 0 where
  resolved : ℕ → Text → MergedChunk
  -- left, base, right, and the names of left, base and right
  conflict :
      Option Text
      → Option Text
      → Option Text
      → Option Text
      → Option Text
      → Option Text
      → MergedChunk

pub record OffsetMap : Type 0 where
  pub rev_start : ℕ
  pub merged_start : ℕ
  pub len : ℕ

pub record ParsedMerge : Type 0 where
  pub chunks : List MergedChunk
  pub left : List OffsetMap
  pub right : List OffsetMap
  pub base : List OffsetMap

-- The variables of the loop of `ParsedMerge::new`.
pub record Indexing : Type 0 where
  pub left_offset : ℕ
  pub base_offset : ℕ
  pub right_offset : ℕ
  pub left : List OffsetMap
  pub base : List OffsetMap
  pub right : List OffsetMap

-- `map_or(0, str::len)`
abbrev pub side_len : Option Text → ℕ
side_len none = 0
side_len (some t) = length t

abbrev offset_map : ℕ → ℕ → ℕ → OffsetMap
offset_map r m n = record { rev_start = r; merged_start = m; len = n }

-- The body of that loop.
unfoldable pub index_chunk : Indexing → MergedChunk → Indexing
index_chunk s (resolved offset contents) =
    let n = length contents in
    record {
      left_offset = s.left_offset + n;
      base_offset = s.base_offset + n;
      right_offset = s.right_offset + n;
      left = s.left ++ offset_map s.left_offset offset n ∷ [];
      base = s.base ++ offset_map s.base_offset offset n ∷ [];
      right = s.right ++ offset_map s.right_offset offset n ∷ [];
    }
index_chunk s (conflict l b r _ _ _) = record s {
  left_offset = s.left_offset + side_len l;
  base_offset = s.base_offset + side_len b;
  right_offset = s.right_offset + side_len r;
}

abbrev pub no_index : Indexing
no_index = record {
  left_offset = 0;
  base_offset = 0;
  right_offset = 0;
  left = [];
  base = [];
  right = [];
}

-- The end of `ParsedMerge::new`.
abbrev pub with_chunks : List MergedChunk → Indexing → ParsedMerge
with_chunks cs s = record { chunks = cs; left = s.left; right = s.right; base = s.base }

unfoldable pub new : List MergedChunk → ParsedMerge
unfolding index_chunk
new chunks = with_chunks chunks (foldl index_chunk no_index chunks)

-- The side of a conflict in a revision, and a chunk's text in it.
abbrev pub side : Revision → Option Text → Option Text → Option Text → Option Text
side Revision.base l b r = b
side Revision.left l b r = l
side Revision.right l b r = r

abbrev pub chunk_in : Revision → MergedChunk → Text
chunk_in rev (resolved _ contents) = contents
chunk_in rev (conflict l b r _ _ _) = unwrap_or (side rev l b r) []

abbrev pub concat : List Text → Text
concat [] = []
concat (t ∷ ts) = t ++ concat ts

unfoldable pub reconstruct_revision : ParsedMerge → Revision → Text
reconstruct_revision pm rev = concat (map (chunk_in rev) pm.chunks)

-- `collect` into an option stops at the first `None`.
unfoldable pub conflictless : List MergedChunk → Option Text
conflictless [] = some []
conflictless (resolved _ contents ∷ cs) = elim (conflictless cs) [
  | some rest ↦ some (contents ++ rest)
  | none ↦ none
]
conflictless (conflict _ _ _ _ _ _ ∷ cs) = none

unfoldable pub render_conflictless : ParsedMerge → Option Text
unfolding conflictless
render_conflictless pm = conflictless pm.chunks

abbrev pub is_conflict : MergedChunk → Bool
is_conflict (resolved _ _) = false
is_conflict (conflict _ _ _ _ _ _) = true

unfoldable pub conflict_count : ParsedMerge → ℕ
conflict_count pm = length (filter is_conflict pm.chunks)

abbrev pub chunk_mass : MergedChunk → ℕ
chunk_mass (resolved _ _) = 0
chunk_mass (conflict l b r _ _ _) = side_len b + side_len l + side_len r

unfoldable pub conflict_mass : ParsedMerge → ℕ
conflict_mass pm = sum (map chunk_mass pm.chunks)

abbrev pub chunk_is_empty : MergedChunk → Bool
chunk_is_empty (resolved _ contents) = text_is_empty contents
chunk_is_empty (conflict _ _ _ _ _ _) = false

unfoldable pub is_empty : ParsedMerge → Bool
is_empty pm = all chunk_is_empty pm.chunks

abbrev pub is_ascii_hexdigit : ℕ → Bool
is_ascii_hexdigit c =
    leb b'0' c && leb c b'9' || leb b'A' c && leb c b'F' || leb b'a' c && leb c b'f'

unfoldable pub is_oid : Text → Bool
is_oid s = length s == 40 && all is_ascii_hexdigit s

-- `name.filter(is_oid)`
abbrev oid : Option Text → Option Text
unfolding is_oid
oid none = none
oid (some name) = if is_oid name then some name else none

-- The first element of `izip!` of three options.
abbrev zip_oids : Option Text → Option Text → Option Text → Option (Text × Text × Text)
zip_oids (some b) (some l) (some r) = some (b, l, r)
zip_oids _ _ _ = none

abbrev chunk_oids : MergedChunk → Option (Text × Text × Text)
unfolding is_oid
chunk_oids (resolved _ _) = none
chunk_oids (conflict _ _ _ left_name base_name right_name) =
    zip_oids (oid base_name) (oid left_name) (oid right_name)

unfoldable pub extract_conflict_oids : ParsedMerge → Option (Text × Text × Text)
unfolding is_oid
extract_conflict_oids pm = find_map chunk_oids pm.chunks
