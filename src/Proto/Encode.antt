-- ===== src/Proto/Encode.antt =====
-- What a writer of the protobuf format writes for the sequences of row ids that packages/lance/src/proto.ts
-- reads: the specification that the parsers are compared with.
use lakeql.Base.{
  ℕ, zero, suc, ◌+◌, ◌*◌, ◌/◌, ◌%◌, ◌^◌, ◌<◌, List, [], ◌∷◌, ◌++◌, Option, none, some, ◌==◌,
  if◌then◌else◌, length, All,
}
use lakeql.RowIds.{Segment}
use lakeql.Proto.Reader.{Bytes}

-- Groups of seven bits, the lowest first; `more` groups may follow the first.
unfoldable pub varint_bytes : ℕ → ℕ → Bytes
varint_bytes zero v = v ∷ []
varint_bytes (suc more) v =
    let rest = varint_bytes more (v / 128) in
    if v / 128 == 0 then v ∷ [] else (128 + v % 128) ∷ rest

abbrev pub encode_varint : ℕ → Bytes
encode_varint v = varint_bytes 9 v

abbrev pub encode_key : ℕ → ℕ → Bytes
encode_key field wire = encode_varint (8 * field + wire)

unfoldable pub number_field : ℕ → ℕ → Bytes
unfolding varint_bytes
number_field field v = encode_key field 0 ++ encode_varint v

unfoldable pub delimited_field : ℕ → Bytes → Bytes
unfolding varint_bytes
delimited_field field payload = encode_key field 2 ++ (encode_varint (length payload) ++ payload)

unfoldable pub little_endian_bytes : ℕ → ℕ → Bytes
little_endian_bytes zero v = []
little_endian_bytes (suc n) v = v % 256 ∷ little_endian_bytes n (v / 256)

unfoldable pub encode_words64 : List ℕ → Bytes
unfolding little_endian_bytes
encode_words64 [] = []
encode_words64 (v ∷ vs) = little_endian_bytes 8 v ++ encode_words64 vs

unfoldable pub encode_u64_array : List ℕ → Bytes
unfolding delimited_field encode_words64
encode_u64_array vs = delimited_field 3 (delimited_field 2 (encode_words64 vs))

unfoldable pub optional_field : ℕ → Option ℕ → Bytes
unfolding number_field
optional_field field none = []
optional_field field (some v) = number_field field v

unfoldable pub encode_segment : Segment → Bytes
unfolding delimited_field optional_field encode_u64_array
encode_segment (Segment.range s e) = delimited_field 1 (optional_field 1 s ++ optional_field 2 e)
encode_segment (Segment.range_with_holes s e holes) =
    delimited_field 2
      (optional_field 1 s ++ (optional_field 2 e ++ delimited_field 3 (encode_u64_array holes)))
encode_segment (Segment.range_with_bitmap s e bitmap) =
    delimited_field 3 (optional_field 1 s ++ (optional_field 2 e ++ delimited_field 3 bitmap))
encode_segment (Segment.sorted_array vs) = delimited_field 4 (encode_u64_array vs)
encode_segment (Segment.array vs) = delimited_field 5 (encode_u64_array vs)

unfoldable pub encode_sequence : List Segment → Bytes
unfolding delimited_field encode_segment
encode_sequence [] = []
encode_sequence (s ∷ ss) = delimited_field 1 (encode_segment s) ++ encode_sequence ss

abbrev pub IsU64 : ℕ → Type 0
IsU64 v = v < 2 ^ 64

abbrev pub IsBound : Option ℕ → Type 0
IsBound none = ⊥
IsBound (some v) = IsU64 v

-- A segment that can be written: its bounds are there, and its numbers have 64 bits.
abbrev pub IsWritable : Segment → Type 0
IsWritable (Segment.range s e) = IsBound s × IsBound e
IsWritable (Segment.range_with_holes s e holes) = IsBound s × IsBound e × All IsU64 holes
IsWritable (Segment.range_with_bitmap s e bitmap) = IsBound s × IsBound e
IsWritable (Segment.sorted_array vs) = All IsU64 vs
IsWritable (Segment.array vs) = All IsU64 vs
