-- ===== src/Proto/TotalEncodings.antt =====
-- Parsing the encoding of an array ends.
use lakeql.Base.{ℕ, zero, suc, ◌<◌, ◌+◌, Bool, [], Option, none, arith, ltb, length}
use lakeql.Base.Result.{Result}
use lakeql.Expr.{Text}
use lakeql.Proto.Reader.{Bytes, FieldReader, Utf8, safe_integer, varint}
use lakeql.Proto.Encodings.{
  FlatEncoding, ArrayEncoding, NullableEncoding, buffer_step, parse_buffer, constant_step,
  parse_constant, compression_step, parse_compression, flat_step, parse_flat, no_nulls_step,
  parse_no_nulls, pair_step, parse_some_nulls, ignore, nullable_step, parse_nullable,
  fixed_size_list_step, parse_fixed_size_list, arrays_step, parse_dictionary, parse_binary,
  unsupported_field, array_step, array_encoding_loop, parse_array_encoding,
}
use lakeql.Base.Returns.{returns, fails, IsTotal, Returns-bind, Returns-guard}
use lakeql.Proto.Total.{
  Reads, required-IsTotal, parse_fields-IsTotal, every_parse-IsTotal, safe_integer-Reads,
  varint-Reads, reader_rules,
}

buffer_step-Reads : (n : ℕ) (m : ℕ × ℕ) (field : ℕ) → Reads n (buffer_step m field)
unfolding buffer_step
buffer_step-Reads n (index, type) field = search reader_rules depth 20

parse_buffer-IsTotal : (bytes : Bytes) → IsTotal (parse_buffer bytes)
unfolding parse_buffer
parse_buffer-IsTotal bytes = every_parse-IsTotal buffer_step-Reads (0, 0) bytes

constant_step-Reads : (n : ℕ) (value : Bytes) (field : ℕ) → Reads n (constant_step value field)
unfolding constant_step
constant_step-Reads n value field = search reader_rules depth 20

parse_constant-IsTotal : (bytes : Bytes) → IsTotal (parse_constant bytes)
unfolding parse_constant
parse_constant-IsTotal bytes =
    Returns-bind (every_parse-IsTotal constant_step-Reads [] bytes) (λ v u. returns tt)

module _ (utf8 : Utf8) where
  compression_step-Reads :
      (n : ℕ) (scheme : Text) (field : ℕ) → Reads n (compression_step utf8 scheme field)
  unfolding compression_step
  compression_step-Reads n scheme field = search reader_rules depth 20

  parse_compression-IsTotal : (bytes : Bytes) → IsTotal (parse_compression utf8 bytes)
  unfolding parse_compression
  parse_compression-IsTotal bytes = every_parse-IsTotal compression_step-Reads [] bytes

  flat_step-Reads : (n : ℕ) (f : FlatEncoding) (field : ℕ) → Reads n (flat_step utf8 f field)
  unfolding flat_step
  flat_step-Reads n f field =
      search (reader_rules, parse_buffer-IsTotal, parse_compression-IsTotal) depth 20

  parse_flat-IsTotal : (bytes : Bytes) → IsTotal (parse_flat utf8 bytes)
  unfolding parse_flat
  parse_flat-IsTotal bytes =
      Returns-bind (every_parse-IsTotal flat_step-Reads _ bytes) (λ f u. returns tt)

  -- The parser of the nested arrays is total on what is shorter than `n`.
  module _ (parse : Bytes → Result ArrayEncoding) (n : ℕ)
      (nested : (payload : Bytes) → length payload < n → IsTotal (parse payload)) where
    no_nulls_step-Reads :
        (m : Option ArrayEncoding) (field : ℕ) → Reads n (no_nulls_step utf8 parse m field)
    unfolding no_nulls_step
    no_nulls_step-Reads m field = search reader_rules depth 20

    parse_no_nulls-IsTotal :
        (bytes : Bytes) → length bytes < n → IsTotal (parse_no_nulls utf8 parse bytes)
    unfolding parse_no_nulls
    parse_no_nulls-IsTotal bytes l =
        Returns-bind
          (Returns-bind (parse_fields-IsTotal n no_nulls_step-Reads none bytes (omega (arith, l)))
            (λ o u. required-IsTotal o))
          (λ v u. returns tt)

    pair_step-Reads :
        (m : Option ArrayEncoding × Option ArrayEncoding) (field : ℕ)
        → Reads n (pair_step utf8 parse m field)
    unfolding pair_step
    pair_step-Reads (validity, values) field = search reader_rules depth 20

    parse_some_nulls-IsTotal :
        (bytes : Bytes) → length bytes < n → IsTotal (parse_some_nulls utf8 parse bytes)
    unfolding parse_some_nulls
    parse_some_nulls-IsTotal bytes l =
        Returns-bind (parse_fields-IsTotal n pair_step-Reads (none, none) bytes (omega (arith, l)))
          (λ (validity, values) u.
            Returns-bind (required-IsTotal validity)
              (λ p t. Returns-bind (required-IsTotal values) (λ v w. returns tt)))

    ignore-IsTotal : (bytes : Bytes) → IsTotal (ignore bytes)
    ignore-IsTotal bytes = returns tt

    nullable_step-Reads :
        (m : Option NullableEncoding) (field : ℕ) → Reads n (nullable_step utf8 parse m field)
    unfolding nullable_step
    nullable_step-Reads m field =
        search (reader_rules, parse_no_nulls-IsTotal, parse_some_nulls-IsTotal, ignore-IsTotal)
          depth 20

    parse_nullable-IsTotal :
        (bytes : Bytes) → length bytes < n → IsTotal (parse_nullable utf8 parse bytes)
    unfolding parse_nullable
    parse_nullable-IsTotal bytes l =
        Returns-bind
          (Returns-bind (parse_fields-IsTotal n nullable_step-Reads none bytes (omega (arith, l)))
            (λ o u. required-IsTotal o))
          (λ v u. returns tt)

    fixed_size_list_step-Reads :
        (m : ℕ × Bool × Option ArrayEncoding) (field : ℕ)
        → Reads n (fixed_size_list_step utf8 parse m field)
    unfolding fixed_size_list_step
    fixed_size_list_step-Reads (dimension, has_validity, items) field = search reader_rules depth 20

    parse_fixed_size_list-IsTotal :
        (bytes : Bytes) → length bytes < n → IsTotal (parse_fixed_size_list utf8 parse bytes)
    unfolding parse_fixed_size_list
    parse_fixed_size_list-IsTotal bytes l =
        Returns-bind (parse_fields-IsTotal n fixed_size_list_step-Reads _ bytes (omega (arith, l)))
          (λ (dimension, has_validity, items) u.
            Returns-guard (ltb 0 dimension)
              (Returns-bind (required-IsTotal items) (λ v w. returns tt)))

    arrays_step-Reads :
        (number : FieldReader ℕ)
        → Reads n number
        → (m : Option ArrayEncoding × Option ArrayEncoding × ℕ) (field : ℕ)
        → Reads n (arrays_step utf8 parse number m field)
    unfolding arrays_step
    arrays_step-Reads number r (indices, items, k) field = search reader_rules depth 20

    parse_dictionary-IsTotal :
        (bytes : Bytes) → length bytes < n → IsTotal (parse_dictionary utf8 parse bytes)
    unfolding parse_dictionary
    parse_dictionary-IsTotal bytes l =
        Returns-bind
          (parse_fields-IsTotal n (arrays_step-Reads safe_integer (safe_integer-Reads n)) _ bytes
            (omega (arith, l)))
          (λ (indices, items, k) u. Returns-bind (required-IsTotal indices) (λ i t.
            Returns-bind (required-IsTotal items) (λ v w. Returns-guard (ltb 0 k) (returns tt))))

    parse_binary-IsTotal :
        (bytes : Bytes) → length bytes < n → IsTotal (parse_binary utf8 parse bytes)
    unfolding parse_binary
    parse_binary-IsTotal bytes l =
        Returns-bind
          (parse_fields-IsTotal n (arrays_step-Reads varint (varint-Reads n)) _ bytes
            (omega (arith, l)))
          (λ (indices, items, k) u.
            Returns-bind (required-IsTotal indices)
              (λ i t. Returns-bind (required-IsTotal items) (λ v w. returns tt)))

    unsupported_field-Reads : Reads n (unsupported_field)
    unfolding unsupported_field
    unsupported_field-Reads = record { leaves = λ wire bytes h. fails tt }

    array_step-Reads :
        (m : Option ArrayEncoding) (field : ℕ) → Reads n (array_step utf8 parse m field)
    unfolding array_step
    array_step-Reads m field =
        search
          (
            reader_rules, parse_flat-IsTotal, parse_nullable-IsTotal, parse_fixed_size_list-IsTotal,
            parse_binary-IsTotal, parse_dictionary-IsTotal, parse_constant-IsTotal,
            unsupported_field-Reads,
          )
          depth 20

  -- A depth above the number of bytes is enough.
  array_encoding_loop-IsTotal :
      (depth : ℕ) (bytes : Bytes)
      → length bytes < depth
      → IsTotal (array_encoding_loop utf8 depth bytes)
  unfolding array_encoding_loop
  array_encoding_loop-IsTotal zero bytes l = absurd (omega (arith, l))
  array_encoding_loop-IsTotal (suc depth) bytes l =
      Returns-bind
        (parse_fields-IsTotal (length bytes)
          (array_step-Reads (array_encoding_loop utf8 depth) (length bytes)
            (λ payload h. array_encoding_loop-IsTotal depth payload (omega (arith, l, h))))
          none bytes (omega arith))
        (λ o u. required-IsTotal o)

  -- Parsing the encoding of an array ends, however deep its arrays nest, in the encoding or in an error
  -- of the program.
  pub parse_array_encoding-IsTotal : (bytes : Bytes) → IsTotal (parse_array_encoding utf8 bytes)
  unfolding parse_array_encoding
  parse_array_encoding-IsTotal bytes =
      array_encoding_loop-IsTotal (length bytes + 1) bytes (omega arith)
