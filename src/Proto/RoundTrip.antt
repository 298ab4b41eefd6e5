-- ===== src/Proto/RoundTrip.antt =====
-- A sequence of row ids that is written is read back by packages/lance/src/proto.ts.
use lakeql.Base.{
  ℕ, zero, suc, ◌/◌, ◌%◌, ◌^◌, ◌<◌, ◌≤◌, ◌≡◌, refl, sym, ap, List, [], ◌∷◌, ◌++◌, none, some,
  length, arith, length-append, All,
}
use lakeql.Base.Result.{Result, ok}
use lakeql.RowIds.{Segment}
use lakeql.Proto.Reader.{Bytes, message_field, max_safe_integer}
use lakeql.Proto.RowIds.{
  little_endian, words64, u64_array_step, parse_u64_array, encoded_u64_array_step,
  parse_encoded_u64_array, range_step, parse_range, range_with_holes_step, parse_range_with_holes,
  range_with_bitmap_step, parse_range_with_bitmap, segment_step, parse_u64_segment, sequence_step,
  parse_row_id_sequence,
}
use lakeql.Proto.Encode.{
  number_field, delimited_field, little_endian_bytes, encode_words64, encode_u64_array,
  optional_field, encode_segment, encode_sequence, IsU64, IsWritable,
}
use lakeql.Proto.Fields.{
  Chunks, parse_fields-Chunks, number_field-Decodes, bytes_field-Decodes, message_field-Decodes,
  length-delimited_field,
}
use mathlib.Core.List.{append_assoc, append-nil}

little_endian-bytes : (n v : ℕ) → v < 256 ^ n → little_endian (little_endian_bytes n v) ≡ v
unfolding little_endian little_endian_bytes
little_endian-bytes zero v h = omega (arith, h)
little_endian-bytes (suc n) v h =
    rw (little_endian-bytes n (v / 256) (omega (arith, h))) (omega arith)

words64-encode : (vs : List ℕ) → All IsU64 vs → words64 (encode_words64 vs) ≡ vs
unfolding words64 encode_words64 little_endian_bytes
words64-encode [] u = refl
words64-encode (v ∷ vs) (h, u) =
    rw (words64-encode vs u) (ap (λ (t : ℕ). t ∷ vs) (little_endian-bytes 8 v (omega (arith, h))))

length-encode_words64 : (vs : List ℕ) → length (encode_words64 vs) % 8 ≡ 0
unfolding encode_words64 little_endian_bytes
length-encode_words64 [] = refl
length-encode_words64 (v ∷ vs) = omega (arith, length-encode_words64 vs)

parse_u64_array-encode :
    (vs : List ℕ)
    → All IsU64 vs
    → length (encode_words64 vs) ≤ max_safe_integer
    → parse_u64_array (delimited_field 2 (encode_words64 vs)) ≡ ok vs
unfolding parse_u64_array u64_array_step
parse_u64_array-encode vs u l =
    rw
      (parse_fields-Chunks u64_array_step (
        Chunks.last (
          bytes_field-Decodes u64_array_step [] 2 (omega arith) (omega arith) (encode_words64 vs)
            (λ v. v) l refl)))
      (rw (length-encode_words64 vs) (ap ok (words64-encode vs u)))

parse_encoded_u64_array-encode :
    (vs : List ℕ)
    → All IsU64 vs
    → length (encode_u64_array vs) ≤ max_safe_integer
    → parse_encoded_u64_array (encode_u64_array vs) ≡ ok vs
unfolding parse_encoded_u64_array encoded_u64_array_step encode_u64_array
parse_encoded_u64_array-encode vs u l =
    let words = encode_words64 vs in
    let inner = length-delimited_field 2 words in
    let outer = length-delimited_field 3 (delimited_field 2 words) in
    rw
      (parse_fields-Chunks encoded_u64_array_step (
        Chunks.last (
          message_field-Decodes encoded_u64_array_step none 3 (omega arith) (omega arith)
            parse_u64_array (delimited_field 2 words) vs (λ v. some v) (omega (arith, l, outer))
            (parse_u64_array-encode vs u (omega (arith, l, inner, outer))) refl)))
      refl

parse_range-encode :
    (s e : ℕ) → IsU64 s → IsU64 e → parse_range (number_field 1 s ++ number_field 2 e) ≡ ok (s, e)
unfolding parse_range range_step
parse_range-encode s e hs he = parse_fields-Chunks range_step (
    Chunks.chunk (number_field-Decodes range_step (0, 0) 1 (omega arith) (omega arith) s _ hs refl)
      (Chunks.last
        (number_field-Decodes range_step (s, 0) 2 (omega arith) (omega arith) e _ he refl)))

parse_range_with_holes-encode :
    (s e : ℕ) (holes : List ℕ)
    → IsU64 s
    → IsU64 e
    → All IsU64 holes
    → length (encode_u64_array holes) ≤ max_safe_integer
    → parse_range_with_holes
        (number_field 1 s ++ (number_field 2 e ++ delimited_field 3 (encode_u64_array holes)))
      ≡ ok (s, e, holes)
unfolding parse_range_with_holes range_with_holes_step
parse_range_with_holes-encode s e holes hs he hh l =
    let step = range_with_holes_step in
    parse_fields-Chunks step (
      Chunks.chunk (number_field-Decodes step (0, 0, []) 1 (omega arith) (omega arith) s _ hs refl)
        (Chunks.chunk
          (number_field-Decodes step (s, 0, []) 2 (omega arith) (omega arith) e _ he refl)
          (Chunks.last (
            message_field-Decodes step (s, e, []) 3 (omega arith) (omega arith)
              parse_encoded_u64_array (encode_u64_array holes) holes _ l
              (parse_encoded_u64_array-encode holes hh l) refl))))

parse_range_with_bitmap-encode :
    (s e : ℕ) (bitmap : Bytes)
    → IsU64 s
    → IsU64 e
    → length bitmap ≤ max_safe_integer
    → parse_range_with_bitmap (number_field 1 s ++ (number_field 2 e ++ delimited_field 3 bitmap))
      ≡ ok (s, e, bitmap)
unfolding parse_range_with_bitmap range_with_bitmap_step
parse_range_with_bitmap-encode s e bitmap hs he l =
    let step = range_with_bitmap_step in
    parse_fields-Chunks step (
      Chunks.chunk (number_field-Decodes step (0, 0, []) 1 (omega arith) (omega arith) s _ hs refl)
        (Chunks.chunk
          (number_field-Decodes step (s, 0, []) 2 (omega arith) (omega arith) e _ he refl)
          (Chunks.last
            (bytes_field-Decodes step (s, e, []) 3 (omega arith) (omega arith) bitmap _ l refl))))

-- One alternative of a segment.
segment_field :
    {A : Type 0} (field : ℕ)
    → 0 < field
    → field < 2 ^ 29
    → (parse : Bytes → Result A) (payload : Bytes) (message : A) (change : A → Segment)
    → length (delimited_field field payload) ≤ max_safe_integer
    → parse payload ≡ ok message
    → segment_step none field ≡ message_field parse (λ v. some (change v))
    → parse_u64_segment (delimited_field field payload) ≡ ok (change message)
unfolding parse_u64_segment
segment_field field p b parse payload message change l r e =
    rw
      (parse_fields-Chunks segment_step (
        Chunks.last (
          message_field-Decodes segment_step none field p b parse payload message
            (λ v. some (change v)) (omega (arith, l, length-delimited_field field payload)) r e)))
      refl

-- The last field of two or three is no longer than they are.
length-third :
    (a b : Bytes) (field : ℕ) (payload : Bytes)
    → length payload ≤ length (a ++ (b ++ delimited_field field payload))
length-third a b field payload = omega (
  arith,
  length-delimited_field field payload,
  length-append b (delimited_field field payload),
  length-append a (b ++ delimited_field field payload),
)

parse_u64_segment-encode :
    (s : Segment)
    → IsWritable s
    → length (encode_segment s) ≤ max_safe_integer
    → parse_u64_segment (encode_segment s) ≡ ok s
unfolding encode_segment optional_field segment_step
parse_u64_segment-encode (Segment.range (some s) (some e)) (hs, he) l =
    segment_field 1 (omega arith) (omega arith) parse_range (number_field 1 s ++ number_field 2 e)
      (s, e) (λ (a, b). Segment.range (some a) (some b)) l (parse_range-encode s e hs he) refl
parse_u64_segment-encode (Segment.range none e) (hs, he) l = absurd hs
parse_u64_segment-encode (Segment.range (some s) none) (hs, he) l = absurd he
parse_u64_segment-encode (Segment.range_with_holes (some s) (some e) holes) (hs, he, hh) l =
    let payload =
      number_field 1 s ++ (number_field 2 e ++ delimited_field 3 (encode_u64_array holes)) in
    segment_field 2 (omega arith) (omega arith) parse_range_with_holes payload (s, e, holes)
      (λ (a, b, h). Segment.range_with_holes (some a) (some b) h) l
      (parse_range_with_holes-encode s e holes hs he hh (
        omega (
          arith,
          l,
          length-delimited_field 2 payload,
          length-third (number_field 1 s) (number_field 2 e) 3 (encode_u64_array holes),
        )))
      refl
parse_u64_segment-encode (Segment.range_with_holes none e holes) (hs, he, hh) l = absurd hs
parse_u64_segment-encode (Segment.range_with_holes (some s) none holes) (hs, he, hh) l = absurd he
parse_u64_segment-encode (Segment.range_with_bitmap (some s) (some e) bitmap) (hs, he) l =
    let payload = number_field 1 s ++ (number_field 2 e ++ delimited_field 3 bitmap) in
    segment_field 3 (omega arith) (omega arith) parse_range_with_bitmap payload (s, e, bitmap)
      (λ (a, b, m). Segment.range_with_bitmap (some a) (some b) m) l
      (parse_range_with_bitmap-encode s e bitmap hs he (
        omega (
          arith,
          l,
          length-delimited_field 3 payload,
          length-third (number_field 1 s) (number_field 2 e) 3 bitmap,
        )))
      refl
parse_u64_segment-encode (Segment.range_with_bitmap none e bitmap) (hs, he) l = absurd hs
parse_u64_segment-encode (Segment.range_with_bitmap (some s) none bitmap) (hs, he) l = absurd he
parse_u64_segment-encode (Segment.sorted_array vs) h l =
    segment_field 4 (omega arith) (omega arith) parse_encoded_u64_array (encode_u64_array vs) vs
      Segment.sorted_array l
      (parse_encoded_u64_array-encode vs h
        (omega (arith, l, length-delimited_field 4 (encode_u64_array vs))))
      refl
parse_u64_segment-encode (Segment.array vs) h l =
    segment_field 5 (omega arith) (omega arith) parse_encoded_u64_array (encode_u64_array vs) vs
      Segment.array l
      (parse_encoded_u64_array-encode vs h
        (omega (arith, l, length-delimited_field 5 (encode_u64_array vs))))
      refl

sequence-Chunks :
    (before segments : List Segment)
    → All IsWritable segments
    → length (encode_sequence segments) ≤ max_safe_integer
    → Chunks sequence_step before (encode_sequence segments) (before ++ segments)
unfolding encode_sequence sequence_step
sequence-Chunks before [] w l = rw (append-nil before) Chunks.done
sequence-Chunks before (s ∷ ss) (h, w) l =
    let payload = encode_segment s in
    let size = length-append (delimited_field 1 payload) (encode_sequence ss) in
    let inner = length-delimited_field 1 payload in
    Chunks.chunk
      (message_field-Decodes sequence_step before 1 (omega arith) (omega arith) parse_u64_segment
        payload s _ (omega (arith, l, size, inner))
        (parse_u64_segment-encode s h (omega (arith, l, size, inner))) refl)
      (rw (sym (append_assoc before (s ∷ []) ss))
        (sequence-Chunks (before ++ (s ∷ [])) ss w (omega (arith, l, size))))

-- A sequence of segments whose bounds are there and whose numbers have 64 bits, written as protobuf in at
-- most 2^53 - 1 bytes, is read back as it was: the ranges, the holes, the bitmaps and the arrays, in
-- order.
pub parse_row_id_sequence-encode :
    (segments : List Segment)
    → All IsWritable segments
    → length (encode_sequence segments) ≤ max_safe_integer
    → parse_row_id_sequence (encode_sequence segments) ≡ ok segments
unfolding parse_row_id_sequence
parse_row_id_sequence-encode segments w l =
    parse_fields-Chunks sequence_step (sequence-Chunks [] segments w l)
