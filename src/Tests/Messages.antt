-- ===== src/Tests/Messages.antt =====
-- A message of two segments of row ids, a manifest, a column and its pages.
use lakeql.Base.{ℕ, ◌≡◌, ◌≤◌, ◌<◌, ◌⊎◌, List, [], ◌∷◌, none, some, length, arith, ◌+◌}
use lakeql.Base.Result.{ok, err, lance_read_error}
use lakeql.Base.Returns.{IsTotal}
use lakeql.RowIds.{Segment}
use lakeql.Proto.Reader.{Bytes, Utf8, max_safe_integer}
use lakeql.Proto.RowIds.{parse_row_id_sequence}
use lakeql.Proto.Encodings.{parse_array_encoding}
use lakeql.Proto.Columns.{Page, LocatedPage, locate_pages, parse_column_metadata}
use lakeql.Proto.Manifest.{parse_manifest}
use lakeql.Proto.Encode.{
  varint_bytes, number_field, delimited_field, little_endian_bytes, encode_words64,
  encode_u64_array, optional_field, encode_segment, encode_sequence,
}
use lakeql.Proto.RoundTrip.{parse_row_id_sequence-encode}
use lakeql.Proto.TotalRowIds.{parse_row_id_sequence-IsTotal}
use lakeql.Proto.TotalEncodings.{parse_array_encoding-IsTotal}
use lakeql.Proto.TotalColumns.{parse_column_metadata-IsTotal}
use lakeql.Proto.TotalManifest.{parse_manifest-IsTotal}
use lakeql.Proto.Located.{total_length, AreAdjacent, locate_pages-AreAdjacent}

abbrev two_segments : List Segment
two_segments =
    Segment.range_with_holes (some 20) (some 300) (22 ∷ [])
    ∷ Segment.sorted_array (7 ∷ 70000 ∷ [])
    ∷ []

-- One segment, the range from 20 to 30.
abbrev range_bytes : Bytes
range_bytes = 10 ∷ 6 ∷ 10 ∷ 4 ∷ 8 ∷ 20 ∷ 16 ∷ 30 ∷ []

two_segments-encode : length (encode_sequence two_segments) ≤ max_safe_integer
unfolding encode_sequence encode_segment encode_u64_array encode_words64 little_endian_bytes
    optional_field delimited_field number_field varint_bytes
two_segments-encode = omega arith

parse_row_id_sequence-encode_example :
    parse_row_id_sequence (encode_sequence two_segments) ≡ ok two_segments
parse_row_id_sequence-encode_example =
    parse_row_id_sequence-encode two_segments
      ((omega arith, omega arith, (omega arith, tt)), ((omega arith, (omega arith, tt)), tt))
      two_segments-encode

parse_row_id_sequence-IsTotal_example : IsTotal (parse_row_id_sequence range_bytes)
parse_row_id_sequence-IsTotal_example = parse_row_id_sequence-IsTotal range_bytes

-- A text is its bytes.
abbrev ascii : Utf8
ascii bytes = some bytes

-- A flat encoding of eight bits, nullable without nulls.
abbrev nullable_bytes : Bytes
nullable_bytes = 18 ∷ 8 ∷ 10 ∷ 6 ∷ 10 ∷ 4 ∷ 10 ∷ 2 ∷ 8 ∷ 8 ∷ []

parse_array_encoding-IsTotal_example : IsTotal (parse_array_encoding ascii nullable_bytes)
parse_array_encoding-IsTotal_example = parse_array_encoding-IsTotal ascii nullable_bytes

-- A column of buffers at 64 and of the size 8.
abbrev column_bytes : Bytes
column_bytes = 26 ∷ 1 ∷ 64 ∷ 34 ∷ 1 ∷ 8 ∷ []

parse_column_metadata-IsTotal_example : IsTotal (parse_column_metadata ascii column_bytes)
parse_column_metadata-IsTotal_example = parse_column_metadata-IsTotal ascii column_bytes

-- A manifest of the version 300 with one fragment.
abbrev manifest_bytes : Bytes
manifest_bytes = 18 ∷ 2 ∷ 8 ∷ 1 ∷ 24 ∷ 172 ∷ 2 ∷ []

parse_manifest-IsTotal_example : IsTotal (parse_manifest ascii manifest_bytes)
parse_manifest-IsTotal_example = parse_manifest-IsTotal ascii manifest_bytes

abbrev page_of : ℕ → Page
page_of n = record {
  buffer_offsets = [];
  buffer_sizes = [];
  length = n;
  priority = 0;
  encoding = none;
}

locate_pages-AreAdjacent_example :
    ((located : List LocatedPage) × (locate_pages 0 (page_of 5 ∷ page_of 7 ∷ []) ≡ ok located)
      × AreAdjacent 0 (page_of 5 ∷ page_of 7 ∷ []) located
      × (0 + total_length (page_of 5 ∷ page_of 7 ∷ []) ≤ max_safe_integer))
    ⊎ ((locate_pages 0 (page_of 5 ∷ page_of 7 ∷ []) ≡ err lance_read_error)
        × (max_safe_integer < 0 + total_length (page_of 5 ∷ page_of 7 ∷ [])))
locate_pages-AreAdjacent_example =
    locate_pages-AreAdjacent 0 (page_of 5 ∷ page_of 7 ∷ []) (omega arith)
