-- ===== src/Proto/Encodings.antt =====
-- packages/lance/src/proto.ts: the encodings of a page's arrays, which nest in each other.
use lakeql.Base.{
  ℕ, zero, suc, Bool, true, false, [], ◌∷◌, Option, none, some, ltb, ◌==◌, if◌then◌else◌, length,
  ◌+◌,
}
use lakeql.Base.Result.{
  Result, ok, err, lance_read_error, unsupported_lance_feature, fuel_exhausted, ◌>>=◌, ◌>>◌, guard,
}
use lakeql.Expr.{Text}
use lakeql.Proto.Reader.{
  Bytes, FieldReader, Utf8, varint, safe_integer, string, bytes_value, set_field, message_field,
  skip_field, parse_fields, required,
}

pub record FlatEncoding : Type 0 where
  pub bits_per_value : ℕ
  pub buffer_index : ℕ
  pub buffer_type : ℕ
  pub compression : Option Text

mutual
  pub data ArrayEncoding : Type 0 where
    flat : FlatEncoding → ArrayEncoding
    nullable : NullableEncoding → ArrayEncoding
    fixed_size_list : ℕ → Bool → ArrayEncoding → ArrayEncoding
    binary : ArrayEncoding → ArrayEncoding → ℕ → ArrayEncoding
    dictionary : ArrayEncoding → ArrayEncoding → ℕ → ArrayEncoding
    constant : Bytes → ArrayEncoding

  pub data NullableEncoding : Type 0 where
    no_nulls : ArrayEncoding → NullableEncoding
    some_nulls : ArrayEncoding → ArrayEncoding → NullableEncoding
    all_nulls : NullableEncoding

abbrev pub is_set : ℕ → Bool
is_set v = if v == 0 then false else true

unfoldable pub buffer_step : ℕ × ℕ → ℕ → FieldReader (ℕ × ℕ)
unfolding set_field skip_field safe_integer
buffer_step (index, type) field =
    if field == 1
    then set_field safe_integer (λ v. (v, type))
    else if field == 2
    then set_field safe_integer (λ v. (index, v))
    else skip_field (index, type)

unfoldable pub parse_buffer : Bytes → Result (ℕ × ℕ)
unfolding buffer_step parse_fields
parse_buffer bytes = parse_fields buffer_step (0, 0) bytes

unfoldable pub constant_step : Bytes → ℕ → FieldReader Bytes
unfolding set_field skip_field bytes_value
constant_step value field = if field == 1 then set_field bytes_value (λ v. v) else skip_field value

unfoldable pub parse_constant : Bytes → Result ArrayEncoding
unfolding constant_step parse_fields
parse_constant bytes = parse_fields constant_step [] bytes >>= λ v. ok (ArrayEncoding.constant v)

-- An empty scheme is left out.
abbrev pub named_compression : Option Text → Option Text
named_compression none = none
named_compression (some []) = none
named_compression (some (c ∷ t)) = some (c ∷ t)

abbrev pub ignore : Bytes → Result (Unit {0})
ignore payload = ok tt

unfoldable pub unsupported_field : FieldReader (Option ArrayEncoding)
unsupported_field wire bytes = err unsupported_lance_feature

module _ (utf8 : Utf8) where
  unfoldable pub compression_step : Text → ℕ → FieldReader Text
  unfolding set_field skip_field string
  compression_step scheme field =
      if field == 1 then set_field (string utf8) (λ v. v) else skip_field scheme

  unfoldable pub parse_compression : Bytes → Result Text
  unfolding compression_step parse_fields
  parse_compression bytes = parse_fields compression_step [] bytes

  unfoldable pub flat_step : FlatEncoding → ℕ → FieldReader FlatEncoding
  unfolding set_field message_field skip_field safe_integer parse_buffer parse_compression
  flat_step f field =
      if field == 1
      then set_field safe_integer (λ v. record f { bits_per_value = v })
      else if field == 2
      then message_field parse_buffer (λ (i, t). record f { buffer_index = i; buffer_type = t })
      else if field == 3
      then message_field parse_compression (λ v. record f { compression = some v })
      else skip_field f

  unfoldable pub parse_flat : Bytes → Result ArrayEncoding
  unfolding flat_step parse_fields
  parse_flat bytes =
      parse_fields flat_step
        (record { bits_per_value = 0; buffer_index = 0; buffer_type = 0; compression = none }) bytes
      >>= λ f. ok (ArrayEncoding.flat (record f { compression = named_compression f.compression }))

  -- The parsers below take the parser of the arrays that are nested in them.
  module _ (parse : Bytes → Result ArrayEncoding) where
    unfoldable pub no_nulls_step : Option ArrayEncoding → ℕ → FieldReader (Option ArrayEncoding)
    unfolding message_field skip_field
    no_nulls_step values field =
        if field == 1 then message_field parse (λ v. some v) else skip_field values

    unfoldable pub parse_no_nulls : Bytes → Result NullableEncoding
    unfolding no_nulls_step parse_fields
    parse_no_nulls bytes =
        parse_fields no_nulls_step none bytes >>= required >>= λ v. ok (NullableEncoding.no_nulls v)

    unfoldable pub pair_step :
        Option ArrayEncoding × Option ArrayEncoding
        → ℕ
        → FieldReader (Option ArrayEncoding × Option ArrayEncoding)
    unfolding message_field skip_field
    pair_step (validity, values) field =
        if field == 1
        then message_field parse (λ v. (some v, values))
        else if field == 2
        then message_field parse (λ v. (validity, some v))
        else skip_field (validity, values)

    unfoldable pub parse_some_nulls : Bytes → Result NullableEncoding
    unfolding pair_step parse_fields
    parse_some_nulls bytes = do
      (validity, values) ← parse_fields pair_step (none, none) bytes
      present ← required validity
      v ← required values
      ok (NullableEncoding.some_nulls present v)

    unfoldable pub nullable_step :
        Option NullableEncoding → ℕ → FieldReader (Option NullableEncoding)
    unfolding message_field skip_field parse_no_nulls parse_some_nulls
    nullable_step encoding field =
        if field == 1
        then message_field parse_no_nulls (λ v. some v)
        else if field == 2
        then message_field parse_some_nulls (λ v. some v)
        else if field == 3
        then message_field ignore (λ u. some NullableEncoding.all_nulls)
        else skip_field encoding

    unfoldable pub parse_nullable : Bytes → Result ArrayEncoding
    unfolding nullable_step parse_fields
    parse_nullable bytes =
        parse_fields nullable_step none bytes >>= required >>= λ v. ok (ArrayEncoding.nullable v)

    unfoldable pub fixed_size_list_step :
        ℕ × Bool × Option ArrayEncoding → ℕ → FieldReader (ℕ × Bool × Option ArrayEncoding)
    unfolding set_field message_field skip_field safe_integer varint
    fixed_size_list_step (dimension, has_validity, items) field =
        if field == 1
        then set_field safe_integer (λ v. (v, has_validity, items))
        else if field == 2
        then message_field parse (λ v. (dimension, has_validity, some v))
        else if field == 3
        then set_field varint (λ v. (dimension, is_set v, items))
        else skip_field (dimension, has_validity, items)

    unfoldable pub parse_fixed_size_list : Bytes → Result ArrayEncoding
    unfolding fixed_size_list_step parse_fields
    parse_fixed_size_list bytes = do
      (dimension, has_validity, items) ← parse_fields fixed_size_list_step (0, false, none) bytes
      guard (ltb 0 dimension) lance_read_error
      array ← required items
      ok (ArrayEncoding.fixed_size_list dimension has_validity array)

    -- The two arrays and the number that binary and dictionary encodings hold.
    unfoldable pub arrays_step :
        FieldReader ℕ
        → Option ArrayEncoding × Option ArrayEncoding × ℕ
        → ℕ
        → FieldReader (Option ArrayEncoding × Option ArrayEncoding × ℕ)
    unfolding set_field message_field skip_field
    arrays_step number (indices, items, n) field =
        if field == 1
        then message_field parse (λ v. (some v, items, n))
        else if field == 2
        then message_field parse (λ v. (indices, some v, n))
        else if field == 3
        then set_field number (λ v. (indices, items, v))
        else skip_field (indices, items, n)

    unfoldable pub parse_dictionary : Bytes → Result ArrayEncoding
    unfolding arrays_step parse_fields safe_integer
    parse_dictionary bytes = do
      (indices, items, n) ← parse_fields (arrays_step safe_integer) (none, none, 0) bytes
      i ← required indices
      v ← required items
      guard (ltb 0 n) lance_read_error
      ok (ArrayEncoding.dictionary i v n)

    unfoldable pub parse_binary : Bytes → Result ArrayEncoding
    unfolding arrays_step parse_fields varint
    parse_binary bytes = do
      (indices, values, n) ← parse_fields (arrays_step varint) (none, none, 0) bytes
      i ← required indices
      v ← required values
      ok (ArrayEncoding.binary i v n)

    unfoldable pub array_step : Option ArrayEncoding → ℕ → FieldReader (Option ArrayEncoding)
    unfolding message_field unsupported_field parse_flat parse_nullable parse_fixed_size_list
        parse_binary parse_dictionary parse_constant
    array_step encoding field =
        if field == 1
        then message_field parse_flat (λ v. some v)
        else if field == 2
        then message_field parse_nullable (λ v. some v)
        else if field == 3
        then message_field parse_fixed_size_list (λ v. some v)
        else if field == 6
        then message_field parse_binary (λ v. some v)
        else if field == 7
        then message_field parse_dictionary (λ v. some v)
        else if field == 13
        then message_field parse_constant (λ v. some v)
        else unsupported_field

  -- An array that is nested is shorter, so that the number of bytes bounds the depth.
  unfoldable pub array_encoding_loop : ℕ → Bytes → Result ArrayEncoding
  unfolding array_step parse_fields
  array_encoding_loop zero bytes = err fuel_exhausted
  array_encoding_loop (suc depth) bytes =
      let parse = array_encoding_loop depth in
      parse_fields (array_step parse) none bytes >>= required

  unfoldable pub parse_array_encoding : Bytes → Result ArrayEncoding
  unfolding array_encoding_loop
  parse_array_encoding bytes = array_encoding_loop (length bytes + 1) bytes
