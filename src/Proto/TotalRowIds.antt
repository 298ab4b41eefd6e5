-- ===== src/Proto/TotalRowIds.antt =====
-- Parsing a sequence of row ids ends.
use lakeql.Base.{ℕ, List, [], Option, none, length, ◌%◌, ◌==◌}
use lakeql.Proto.Reader.{Bytes}
use lakeql.RowIds.{Segment}
use lakeql.Base.Returns.{returns, IsTotal, Returns-bind, Returns-guard}
use lakeql.Proto.Total.{Reads, required-IsTotal, every_parse-IsTotal, reader_rules}
use lakeql.Proto.RowIds.{
  Width, width_bytes, delta_array_step, parse_delta_array, u64_array_step, parse_u64_array,
  encoded_u64_array_step, parse_encoded_u64_array, range_step, parse_range, range_with_holes_step,
  parse_range_with_holes, range_with_bitmap_step, parse_range_with_bitmap, segment_step,
  parse_u64_segment, sequence_step, parse_row_id_sequence,
}

delta_array_step-Reads : (n : ℕ) (m : ℕ × Bytes) (field : ℕ) → Reads n (delta_array_step m field)
unfolding delta_array_step
delta_array_step-Reads n (base, offsets) field = search reader_rules depth 20

parse_delta_array-IsTotal :
    (width : Width) (bytes : Bytes) → IsTotal (parse_delta_array width bytes)
unfolding parse_delta_array
parse_delta_array-IsTotal width bytes =
    Returns-bind (every_parse-IsTotal delta_array_step-Reads (0, []) bytes)
      (λ (base, offsets) u. Returns-guard (length offsets % width_bytes width == 0) (returns tt))

u64_array_step-Reads : (n : ℕ) (raw : Bytes) (field : ℕ) → Reads n (u64_array_step raw field)
unfolding u64_array_step
u64_array_step-Reads n raw field = search reader_rules depth 20

parse_u64_array-IsTotal : (bytes : Bytes) → IsTotal (parse_u64_array bytes)
unfolding parse_u64_array
parse_u64_array-IsTotal bytes =
    Returns-bind (every_parse-IsTotal u64_array_step-Reads [] bytes)
      (λ raw u. Returns-guard (length raw % 8 == 0) (returns tt))

encoded_u64_array_step-Reads :
    (n : ℕ) (values : Option (List ℕ)) (field : ℕ) → Reads n (encoded_u64_array_step values field)
unfolding encoded_u64_array_step
encoded_u64_array_step-Reads n values field =
    search (reader_rules, parse_delta_array-IsTotal, parse_u64_array-IsTotal) depth 20

parse_encoded_u64_array-IsTotal : (bytes : Bytes) → IsTotal (parse_encoded_u64_array bytes)
unfolding parse_encoded_u64_array
parse_encoded_u64_array-IsTotal bytes =
    Returns-bind (every_parse-IsTotal encoded_u64_array_step-Reads none bytes)
      (λ values u. required-IsTotal values)

range_step-Reads : (n : ℕ) (m : ℕ × ℕ) (field : ℕ) → Reads n (range_step m field)
unfolding range_step
range_step-Reads n (start, end) field = search reader_rules depth 20

parse_range-IsTotal : (bytes : Bytes) → IsTotal (parse_range bytes)
unfolding parse_range
parse_range-IsTotal bytes = every_parse-IsTotal range_step-Reads (0, 0) bytes

range_with_holes_step-Reads :
    (n : ℕ) (m : ℕ × ℕ × List ℕ) (field : ℕ) → Reads n (range_with_holes_step m field)
unfolding range_with_holes_step
range_with_holes_step-Reads n (start, end, holes) field =
    search (reader_rules, parse_encoded_u64_array-IsTotal) depth 20

parse_range_with_holes-IsTotal : (bytes : Bytes) → IsTotal (parse_range_with_holes bytes)
unfolding parse_range_with_holes
parse_range_with_holes-IsTotal bytes =
    every_parse-IsTotal range_with_holes_step-Reads (0, 0, []) bytes

range_with_bitmap_step-Reads :
    (n : ℕ) (m : ℕ × ℕ × Bytes) (field : ℕ) → Reads n (range_with_bitmap_step m field)
unfolding range_with_bitmap_step
range_with_bitmap_step-Reads n (start, end, bitmap) field = search reader_rules depth 20

parse_range_with_bitmap-IsTotal : (bytes : Bytes) → IsTotal (parse_range_with_bitmap bytes)
unfolding parse_range_with_bitmap
parse_range_with_bitmap-IsTotal bytes =
    every_parse-IsTotal range_with_bitmap_step-Reads (0, 0, []) bytes

segment_step-Reads : (n : ℕ) (m : Option Segment) (field : ℕ) → Reads n (segment_step m field)
unfolding segment_step
segment_step-Reads n segment field =
    search
      (
        reader_rules, parse_range-IsTotal, parse_range_with_holes-IsTotal,
        parse_range_with_bitmap-IsTotal, parse_encoded_u64_array-IsTotal,
      )
      depth 20

parse_u64_segment-IsTotal : (bytes : Bytes) → IsTotal (parse_u64_segment bytes)
unfolding parse_u64_segment
parse_u64_segment-IsTotal bytes =
    Returns-bind (every_parse-IsTotal segment_step-Reads none bytes) (λ s u. required-IsTotal s)

sequence_step-Reads : (n : ℕ) (m : List Segment) (field : ℕ) → Reads n (sequence_step m field)
unfolding sequence_step
sequence_step-Reads n segments field = search (reader_rules, parse_u64_segment-IsTotal) depth 20

-- Parsing a sequence of row ids ends on every source, in its segments or in an error of the program: the
-- rounds that the number of bytes allows are enough.
pub parse_row_id_sequence-IsTotal : (bytes : Bytes) → IsTotal (parse_row_id_sequence bytes)
unfolding parse_row_id_sequence
parse_row_id_sequence-IsTotal bytes = every_parse-IsTotal sequence_step-Reads [] bytes
