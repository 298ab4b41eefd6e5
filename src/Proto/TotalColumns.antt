-- ===== src/Proto/TotalColumns.antt =====
-- Parsing the metadata of a column, and of an index of vectors, ends.
use lakeql.Base.{ℕ, ◌+◌, Bool, true, false, List, [], ◌∷◌, Option, none, some, ◌==◌, leb, length}
use lakeql.Base.Result.{Result, err, unsupported_lance_feature, ◌>>◌, guard}
use lakeql.Expr.{Text}
use lakeql.Proto.Reader.{Bytes, Utf8, max_safe_integer}
use lakeql.Proto.TotalEncodings.{parse_array_encoding-IsTotal}
use lakeql.Proto.Columns.{
  Page, Tensor, direct_encoding_step, parse_direct_encoding, file_encoding_step, any_step,
  parse_encoding_any, parse_file_encoding, page_step, parse_page, column_step, checked_page_row_end,
  locate_pages, parse_column_metadata, tensor_step, parse_tensor, ivf_step, ivf_of,
  parse_ivf_metadata,
}
use lakeql.Base.Returns.{returns, fails, IsTotal, Returns-bind, Returns-guard}
use lakeql.Proto.Total.{Reads, required-IsTotal, every_parse-IsTotal, reader_rules}

-- A test of what the reader does not support.
supported-IsTotal :
    {A : Type 0} (b : Bool) {r : Result A}
    → IsTotal r
    → IsTotal (guard b unsupported_lance_feature >> r)
supported-IsTotal true h = h
supported-IsTotal false h = fails tt

direct_encoding_step-Reads :
    (n : ℕ) (m : Option Bytes) (field : ℕ) → Reads n (direct_encoding_step m field)
unfolding direct_encoding_step
direct_encoding_step-Reads n m field = search reader_rules depth 20

parse_direct_encoding-IsTotal : (bytes : Bytes) → IsTotal (parse_direct_encoding bytes)
unfolding parse_direct_encoding
parse_direct_encoding-IsTotal bytes =
    Returns-bind (every_parse-IsTotal direct_encoding_step-Reads none bytes)
      (λ o u. required-IsTotal o)

deferred-Reads :
    {A : Type 0} (n : ℕ) → Reads {A = A} n (λ wire bytes. err unsupported_lance_feature)
deferred-Reads n = record { leaves = λ wire bytes h. fails tt }

file_encoding_step-Reads :
    (n : ℕ) (m : Option Bytes) (field : ℕ) → Reads n (file_encoding_step m field)
unfolding file_encoding_step
file_encoding_step-Reads n m field =
    search (reader_rules, parse_direct_encoding-IsTotal, deferred-Reads) depth 20

locate_pages-IsTotal : (row_start : ℕ) (pages : List Page) → IsTotal (locate_pages row_start pages)
unfolding locate_pages checked_page_row_end
locate_pages-IsTotal row_start [] = returns tt
locate_pages-IsTotal row_start (page ∷ pages) =
    Returns-bind
      (Returns-guard {Q = λ v. Unit {0}} (leb (row_start + page.length) max_safe_integer)
        (returns tt))
      (λ row_end u. Returns-bind (locate_pages-IsTotal row_end pages) (λ rest w. returns tt))

module _ (utf8 : Utf8) where
  pub any_step-Reads :
      (n : ℕ) (m : Text × Option Bytes) (field : ℕ) → Reads n (any_step utf8 m field)
  unfolding any_step
  any_step-Reads n (type_url, value) field = search reader_rules depth 20

  parse_encoding_any-IsTotal : (bytes : Bytes) → IsTotal (parse_encoding_any utf8 bytes)
  unfolding parse_encoding_any
  parse_encoding_any-IsTotal bytes =
      Returns-bind (every_parse-IsTotal any_step-Reads _ bytes) (λ (type_url, value) u.
        supported-IsTotal _ (
          Returns-bind (required-IsTotal value)
            (λ payload w. parse_array_encoding-IsTotal utf8 payload)))

  parse_file_encoding-IsTotal : (bytes : Bytes) → IsTotal (parse_file_encoding utf8 bytes)
  unfolding parse_file_encoding
  parse_file_encoding-IsTotal bytes =
      Returns-bind
        (Returns-bind (every_parse-IsTotal file_encoding_step-Reads none bytes)
          (λ o u. required-IsTotal o))
        (λ direct u. parse_encoding_any-IsTotal direct)

  page_step-Reads : (n : ℕ) (p : Page) (field : ℕ) → Reads n (page_step utf8 p field)
  unfolding page_step
  page_step-Reads n p field = search (reader_rules, parse_file_encoding-IsTotal) depth 20

  parse_page-IsTotal : (bytes : Bytes) → IsTotal (parse_page utf8 bytes)
  unfolding parse_page
  parse_page-IsTotal bytes = Returns-bind (every_parse-IsTotal page_step-Reads _ bytes) (λ p u.
      Returns-guard (length p.buffer_offsets == length p.buffer_sizes)
        (Returns-bind (required-IsTotal p.encoding) (λ e w. returns tt)))

  column_step-Reads :
      (n : ℕ) (m : List Page × List ℕ × List ℕ) (field : ℕ) → Reads n (column_step utf8 m field)
  unfolding column_step
  column_step-Reads n (pages, offsets, sizes) field =
      search (reader_rules, parse_page-IsTotal) depth 20

  -- Parsing the metadata of a column ends on every source, in the metadata or in an error of the program.
  pub parse_column_metadata-IsTotal : (bytes : Bytes) → IsTotal (parse_column_metadata utf8 bytes)
  unfolding parse_column_metadata
  parse_column_metadata-IsTotal bytes =
      Returns-bind (every_parse-IsTotal column_step-Reads _ bytes) (λ (parsed, offsets, sizes) u.
        Returns-guard (length offsets == length sizes)
          (Returns-bind (locate_pages-IsTotal 0 parsed) (λ pages w. returns tt)))

tensor_step-Reads : (n : ℕ) (t : Tensor) (field : ℕ) → Reads n (tensor_step t field)
unfolding tensor_step
tensor_step-Reads n t field = search reader_rules depth 20

parse_tensor-IsTotal : (bytes : Bytes) → IsTotal (parse_tensor bytes)
unfolding parse_tensor
parse_tensor-IsTotal bytes = every_parse-IsTotal tensor_step-Reads _ bytes

ivf_step-Reads :
    (n : ℕ) (m : List ℕ × List ℕ × Option Tensor) (field : ℕ) → Reads n (ivf_step m field)
unfolding ivf_step
ivf_step-Reads n (offsets, lengths, tensor) field =
    search (reader_rules, parse_tensor-IsTotal) depth 20

ivf_of-IsTotal : (offsets lengths : List ℕ) (o : Option Tensor) → IsTotal (ivf_of offsets lengths o)
unfolding ivf_of
ivf_of-IsTotal offsets lengths none = returns tt
ivf_of-IsTotal offsets lengths (some t) = supported-IsTotal _ (Returns-guard _ (returns tt))

-- Parsing the metadata of an index of vectors ends on every source, in the metadata or in an error of the
-- program.
parse_ivf_metadata-IsTotal : (bytes : Bytes) → IsTotal (parse_ivf_metadata bytes)
unfolding parse_ivf_metadata
parse_ivf_metadata-IsTotal bytes =
    Returns-bind (every_parse-IsTotal ivf_step-Reads _ bytes)
      (λ (offsets, lengths, tensor) u. Returns-guard _ (ivf_of-IsTotal offsets lengths tensor))
