-- ===== src/Proto/Columns.antt =====
-- packages/lance/src/proto.ts: the metadata of a column and of its pages, and the index of vectors.
use lakeql.Base.{
  ℕ, ◌+◌, ◌*◌, List, [], ◌∷◌, ◌++◌, Option, none, some, leb, ltb, ◌==◌, if◌then◌else◌, length, ◌&&◌,
  get_or,
}
use lakeql.Base.Result.{
  Result, ok, err, lance_read_error, unsupported_lance_feature, ◌>>=◌, ◌>>◌, guard,
}
use lakeql.Expr.{Text}
use lakeql.Evaluator.{text_eq}
use lakeql.Proto.Reader.{
  Bytes, FieldReader, Utf8, max_safe_integer, safe_integer, string, bytes_value,
  packed_safe_integers, set_field, message_field, skip_field, parse_fields, required,
}
use lakeql.Proto.Encodings.{ArrayEncoding, parse_array_encoding}

pub record Page : Type 0 where
  pub buffer_offsets : List ℕ
  pub buffer_sizes : List ℕ
  pub length : ℕ
  pub priority : ℕ
  pub encoding : Option ArrayEncoding

-- A page that is parsed has an encoding; `row_start` is where its rows begin in the column.
pub record LocatedPage : Type 0 where
  pub page : Page
  pub row_start : ℕ

pub record ColumnMetadata : Type 0 where
  pub pages : List LocatedPage
  pub buffer_offsets : List ℕ
  pub buffer_sizes : List ℕ

unfoldable pub direct_encoding_step : Option Bytes → ℕ → FieldReader (Option Bytes)
unfolding set_field skip_field bytes_value
direct_encoding_step encoding field =
    if field == 1 then set_field bytes_value (λ v. some v) else skip_field encoding

unfoldable pub parse_direct_encoding : Bytes → Result Bytes
unfolding direct_encoding_step parse_fields
parse_direct_encoding bytes = parse_fields direct_encoding_step none bytes >>= required

abbrev deferred : FieldReader (Option Bytes)
deferred wire bytes = err unsupported_lance_feature

unfoldable pub file_encoding_step : Option Bytes → ℕ → FieldReader (Option Bytes)
unfolding message_field skip_field parse_direct_encoding
file_encoding_step direct field =
    if field == 2
    then message_field parse_direct_encoding (λ v. some v)
    else if field == 1
    then deferred
    else skip_field direct

-- "/lance.encodings.ArrayEncoding"
abbrev array_encoding_url : Text
array_encoding_url =
    b'/' ∷ b'l' ∷ b'a' ∷ b'n' ∷ b'c' ∷ b'e' ∷ b'.' ∷ b'e' ∷ b'n' ∷ b'c' ∷ b'o' ∷ b'd' ∷ b'i' ∷ b'n'
    ∷ b'g' ∷ b's' ∷ b'.' ∷ b'A' ∷ b'r' ∷ b'r' ∷ b'a' ∷ b'y' ∷ b'E' ∷ b'n' ∷ b'c' ∷ b'o' ∷ b'd'
    ∷ b'i' ∷ b'n' ∷ b'g' ∷ []

unfoldable pub checked_page_row_end : ℕ → ℕ → Result ℕ
checked_page_row_end row_start size = do
  guard (leb (row_start + size) max_safe_integer) lance_read_error
  ok (row_start + size)

-- `parsedPages.map` with the running `rowStart`.
unfoldable pub locate_pages : ℕ → List Page → Result (List LocatedPage)
unfolding checked_page_row_end
locate_pages row_start [] = ok []
locate_pages row_start (page ∷ pages) = do
  row_end ← checked_page_row_end row_start page.length
  rest ← locate_pages row_end pages
  ok (record { page = page; row_start = row_start } ∷ rest)

module _ (utf8 : Utf8) where
  unfoldable pub any_step : Text × Option Bytes → ℕ → FieldReader (Text × Option Bytes)
  unfolding set_field skip_field string bytes_value
  any_step (type_url, value) field =
      if field == 1
      then set_field (string utf8) (λ v. (v, value))
      else if field == 2
      then set_field bytes_value (λ v. (type_url, some v))
      else skip_field (type_url, value)

  unfoldable pub parse_any : Bytes → Result (Text × Option Bytes)
  unfolding any_step parse_fields
  parse_any bytes = parse_fields any_step ([], none) bytes

  unfoldable pub parse_encoding_any : Bytes → Result ArrayEncoding
  unfolding any_step parse_fields parse_array_encoding
  parse_encoding_any bytes = do
    (type_url, value) ← parse_fields any_step ([], none) bytes
    guard (text_eq type_url array_encoding_url) unsupported_lance_feature
    payload ← required value
    parse_array_encoding utf8 payload

  unfoldable pub parse_file_encoding : Bytes → Result ArrayEncoding
  unfolding file_encoding_step parse_fields parse_encoding_any
  parse_file_encoding bytes = do
    direct ← parse_fields file_encoding_step none bytes >>= required
    parse_encoding_any direct

  unfoldable pub page_step : Page → ℕ → FieldReader Page
  unfolding set_field message_field skip_field packed_safe_integers safe_integer parse_file_encoding
  page_step p field =
      if field == 1
      then set_field packed_safe_integers (λ v. record p { buffer_offsets = p.buffer_offsets ++ v })
      else if field == 2
      then set_field packed_safe_integers (λ v. record p { buffer_sizes = p.buffer_sizes ++ v })
      else if field == 3
      then set_field safe_integer (λ v. record p { length = v })
      else if field == 4
      then message_field parse_file_encoding (λ v. record p { encoding = some v })
      else if field == 5
      then set_field safe_integer (λ v. record p { priority = v })
      else skip_field p

  abbrev empty_page : Page
  empty_page = record {
    buffer_offsets = [];
    buffer_sizes = [];
    length = 0;
    priority = 0;
    encoding = none;
  }

  unfoldable pub parse_page : Bytes → Result Page
  unfolding page_step parse_fields
  parse_page bytes = do
    page ← parse_fields page_step empty_page bytes
    guard (length page.buffer_offsets == length page.buffer_sizes) lance_read_error
    encoding ← required page.encoding
    ok page

  unfoldable pub column_step :
      List Page × List ℕ × List ℕ → ℕ → FieldReader (List Page × List ℕ × List ℕ)
  unfolding set_field message_field skip_field packed_safe_integers parse_page
  column_step (pages, offsets, sizes) field =
      if field == 2
      then message_field parse_page (λ v. (pages ++ (v ∷ []), offsets, sizes))
      else if field == 3
      then set_field packed_safe_integers (λ v. (pages, offsets ++ v, sizes))
      else if field == 4
      then set_field packed_safe_integers (λ v. (pages, offsets, sizes ++ v))
      else skip_field (pages, offsets, sizes)

  unfoldable pub parse_column_metadata : Bytes → Result ColumnMetadata
  unfolding column_step parse_fields locate_pages
  parse_column_metadata bytes = do
    (parsed, offsets, sizes) ← parse_fields column_step ([], [], []) bytes
    guard (length offsets == length sizes) lance_read_error
    pages ← locate_pages 0 parsed
    ok (record { pages = pages; buffer_offsets = offsets; buffer_sizes = sizes })

pub record Tensor : Type 0 where
  pub data_type : ℕ
  pub shape : List ℕ
  pub payload : Bytes

unfoldable pub tensor_step : Tensor → ℕ → FieldReader Tensor
unfolding set_field skip_field safe_integer packed_safe_integers bytes_value
tensor_step t field =
    if field == 1
    then set_field safe_integer (λ v. record t { data_type = v })
    else if field == 2
    then set_field packed_safe_integers (λ v. record t { shape = t.shape ++ v })
    else if field == 3
    then set_field bytes_value (λ v. record t { payload = v })
    else skip_field t

unfoldable pub parse_tensor : Bytes → Result Tensor
unfolding tensor_step parse_fields
parse_tensor bytes =
    parse_fields tensor_step (record { data_type = 0; shape = []; payload = [] }) bytes

-- The centroids are the bytes of their floats, four for each.
pub record IvfMetadata : Type 0 where
  pub offsets : List ℕ
  pub lengths : List ℕ
  pub centroids : Bytes
  pub num_partitions : ℕ
  pub dimension : ℕ

unfoldable pub ivf_step :
    List ℕ × List ℕ × Option Tensor → ℕ → FieldReader (List ℕ × List ℕ × Option Tensor)
unfolding set_field message_field skip_field packed_safe_integers parse_tensor
ivf_step (offsets, lengths, tensor) field =
    if field == 2
    then set_field packed_safe_integers (λ v. (offsets ++ v, lengths, tensor))
    else if field == 3
    then set_field packed_safe_integers (λ v. (offsets, lengths ++ v, tensor))
    else if field == 4
    then message_field parse_tensor (λ v. (offsets, lengths, some v))
    else skip_field (offsets, lengths, tensor)

unfoldable pub ivf_of : List ℕ → List ℕ → Option Tensor → Result IvfMetadata
ivf_of offsets lengths none = ok (record {
  offsets = offsets;
  lengths = lengths;
  centroids = [];
  num_partitions = length offsets;
  dimension = 0;
})
ivf_of offsets lengths (some tensor) = do
  guard (tensor.data_type == 2 && length tensor.shape == 2) unsupported_lance_feature
  let num_partitions = get_or tensor.shape 0 0
  let dimension = get_or tensor.shape 1 0
  guard
      (num_partitions == length offsets
        && ltb 0 dimension
        && length tensor.payload == num_partitions * dimension * 4)
      lance_read_error
  ok (record {
    offsets = offsets;
    lengths = lengths;
    centroids = tensor.payload;
    num_partitions = num_partitions;
    dimension = dimension;
  })

unfoldable pub parse_ivf_metadata : Bytes → Result IvfMetadata
unfolding ivf_step parse_fields ivf_of
parse_ivf_metadata bytes = do
  (offsets, lengths, tensor) ← parse_fields ivf_step ([], [], none) bytes
  guard (ltb 0 (length offsets) && length offsets == length lengths) lance_read_error
  ivf_of offsets lengths tensor
