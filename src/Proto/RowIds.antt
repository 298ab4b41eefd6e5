-- ===== src/Proto/RowIds.antt =====
-- packages/lance/src/proto.ts: the segments of a sequence of stable row ids.
use lakeql.Base.{
  ℕ, ◌+◌, ◌*◌, ◌%◌, List, [], ◌∷◌, ◌++◌, Option, none, some, ◌==◌, if◌then◌else◌, length,
}
use lakeql.Base.Result.{Result, ok, lance_read_error, ◌>>=◌, ◌>>◌, guard}
use lakeql.RowIds.{Segment}
use lakeql.Proto.Reader.{
  Bytes, FieldReader, varint, bytes_value, set_field, message_field, skip_field, parse_fields,
  required,
}

-- An unsigned integer of several bytes, the lowest first.
unfoldable pub little_endian : Bytes → ℕ
little_endian [] = 0
little_endian (byte ∷ bytes) = byte + 256 * little_endian bytes

-- `for (offset = 0; offset < byteLength; offset += 2)`, and the same by four and by eight bytes. The
-- length is a multiple of the width where it is called.
unfoldable pub words16 : Bytes → List ℕ
unfolding little_endian
words16 (a ∷ b ∷ bytes) = little_endian (a ∷ b ∷ []) ∷ words16 bytes
words16 bytes = []

unfoldable pub words32 : Bytes → List ℕ
unfolding little_endian
words32 (a ∷ b ∷ c ∷ d ∷ bytes) = little_endian (a ∷ b ∷ c ∷ d ∷ []) ∷ words32 bytes
words32 bytes = []

unfoldable pub words64 : Bytes → List ℕ
unfolding little_endian
words64 (a ∷ b ∷ c ∷ d ∷ e ∷ f ∷ g ∷ h ∷ bytes) =
    little_endian (a ∷ b ∷ c ∷ d ∷ e ∷ f ∷ g ∷ h ∷ []) ∷ words64 bytes
words64 bytes = []

pub data Width : Type 0 where
  two four : Width

unfoldable pub deltas : Width → Bytes → List ℕ
unfolding words16 words32
deltas Width.two bytes = words16 bytes
deltas Width.four bytes = words32 bytes

abbrev pub width_bytes : Width → ℕ
width_bytes Width.two = 2
width_bytes Width.four = 4

unfoldable pub add_base : ℕ → List ℕ → List ℕ
add_base base [] = []
add_base base (delta ∷ rest) = (base + delta) ∷ add_base base rest

unfoldable pub delta_array_step : ℕ × Bytes → ℕ → FieldReader (ℕ × Bytes)
unfolding set_field skip_field varint bytes_value
delta_array_step (base, offsets) field =
    if field == 1
    then set_field varint (λ v. (v, offsets))
    else if field == 2
    then set_field bytes_value (λ v. (base, v))
    else skip_field (base, offsets)

unfoldable pub parse_delta_array : Width → Bytes → Result (List ℕ)
unfolding delta_array_step parse_fields deltas add_base
parse_delta_array width bytes = do
  (base, offsets) ← parse_fields delta_array_step (0, []) bytes
  guard (length offsets % width_bytes width == 0) lance_read_error
  ok (add_base base (deltas width offsets))

unfoldable pub u64_array_step : Bytes → ℕ → FieldReader Bytes
unfolding set_field skip_field bytes_value
u64_array_step raw field = if field == 2 then set_field bytes_value (λ v. v) else skip_field raw

unfoldable pub parse_u64_array : Bytes → Result (List ℕ)
unfolding u64_array_step parse_fields words64
parse_u64_array bytes = do
  raw ← parse_fields u64_array_step [] bytes
  guard (length raw % 8 == 0) lance_read_error
  ok (words64 raw)

unfoldable pub encoded_u64_array_step : Option (List ℕ) → ℕ → FieldReader (Option (List ℕ))
unfolding message_field skip_field parse_delta_array parse_u64_array
encoded_u64_array_step values field =
    if field == 1
    then message_field (parse_delta_array Width.two) (λ v. some v)
    else if field == 2
    then message_field (parse_delta_array Width.four) (λ v. some v)
    else if field == 3
    then message_field parse_u64_array (λ v. some v)
    else skip_field values

unfoldable pub parse_encoded_u64_array : Bytes → Result (List ℕ)
unfolding encoded_u64_array_step parse_fields
parse_encoded_u64_array bytes = parse_fields encoded_u64_array_step none bytes >>= required

unfoldable pub range_step : ℕ × ℕ → ℕ → FieldReader (ℕ × ℕ)
unfolding set_field skip_field varint
range_step (start, end) field =
    if field == 1
    then set_field varint (λ v. (v, end))
    else if field == 2
    then set_field varint (λ v. (start, v))
    else skip_field (start, end)

unfoldable pub parse_range : Bytes → Result (ℕ × ℕ)
unfolding range_step parse_fields
parse_range bytes = parse_fields range_step (0, 0) bytes

unfoldable pub range_with_holes_step : ℕ × ℕ × List ℕ → ℕ → FieldReader (ℕ × ℕ × List ℕ)
unfolding set_field message_field skip_field varint parse_encoded_u64_array
range_with_holes_step (start, end, holes) field =
    if field == 1
    then set_field varint (λ v. (v, end, holes))
    else if field == 2
    then set_field varint (λ v. (start, v, holes))
    else if field == 3
    then message_field parse_encoded_u64_array (λ v. (start, end, v))
    else skip_field (start, end, holes)

unfoldable pub parse_range_with_holes : Bytes → Result (ℕ × ℕ × List ℕ)
unfolding range_with_holes_step parse_fields
parse_range_with_holes bytes = parse_fields range_with_holes_step (0, 0, []) bytes

unfoldable pub range_with_bitmap_step : ℕ × ℕ × Bytes → ℕ → FieldReader (ℕ × ℕ × Bytes)
unfolding set_field skip_field varint bytes_value
range_with_bitmap_step (start, end, bitmap) field =
    if field == 1
    then set_field varint (λ v. (v, end, bitmap))
    else if field == 2
    then set_field varint (λ v. (start, v, bitmap))
    else if field == 3
    then set_field bytes_value (λ v. (start, end, v))
    else skip_field (start, end, bitmap)

unfoldable pub parse_range_with_bitmap : Bytes → Result (ℕ × ℕ × Bytes)
unfolding range_with_bitmap_step parse_fields
parse_range_with_bitmap bytes = parse_fields range_with_bitmap_step (0, 0, []) bytes

-- The last of the alternatives that the message holds stands.
unfoldable pub segment_step : Option Segment → ℕ → FieldReader (Option Segment)
unfolding message_field skip_field parse_range parse_range_with_holes parse_range_with_bitmap
    parse_encoded_u64_array
segment_step segment field =
    if field == 1
    then message_field parse_range (λ (s, e). some (Segment.range (some s) (some e)))
    else if field == 2
    then message_field parse_range_with_holes
        (λ (s, e, h). some (Segment.range_with_holes (some s) (some e) h))
    else if field == 3
    then message_field parse_range_with_bitmap
        (λ (s, e, b). some (Segment.range_with_bitmap (some s) (some e) b))
    else if field == 4
    then message_field parse_encoded_u64_array (λ vs. some (Segment.sorted_array vs))
    else if field == 5
    then message_field parse_encoded_u64_array (λ vs. some (Segment.array vs))
    else skip_field segment

unfoldable pub parse_u64_segment : Bytes → Result Segment
unfolding segment_step parse_fields
parse_u64_segment bytes = parse_fields segment_step none bytes >>= required

unfoldable pub sequence_step : List Segment → ℕ → FieldReader (List Segment)
unfolding message_field skip_field parse_u64_segment
sequence_step segments field =
    if field == 1
    then message_field parse_u64_segment (λ s. segments ++ (s ∷ []))
    else skip_field segments

unfoldable pub parse_row_id_sequence : Bytes → Result (List Segment)
unfolding sequence_step parse_fields
parse_row_id_sequence bytes = parse_fields sequence_step [] bytes
