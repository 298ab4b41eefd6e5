-- ===== src/Proto/TotalManifest.antt =====
-- Parsing a manifest, an index section and a file descriptor ends.
use lakeql.Base.{ℕ, List, [], ◌∷◌, Option, none}
use lakeql.Expr.{Text}
use lakeql.Proto.Reader.{Bytes, Utf8}
use lakeql.Proto.Columns.{parse_any}
use lakeql.Proto.TotalColumns.{any_step-Reads}
use lakeql.Proto.Manifest.{
  Field, DataFile, DeletionFile, ExternalFile, Fragment, Manifest, IndexFile, IndexMetadata,
  FileDescriptor, deletion_file_step, parse_deletion_file, uuid_step, uuid_text, parse_uuid,
  field_step, parse_field, data_file_step, parse_data_file, external_file_step, parse_external_file,
  fragment_step, parse_fragment, two_texts_step, parse_writer_version, manifest_step,
  parse_manifest, index_file_step, parse_index_file, index_step, parse_index_metadata,
  index_section_step, parse_index_section, map_entry_step, parse_bytes_map_entry, schema_step,
  parse_schema, descriptor_step, parse_file_descriptor,
}
use lakeql.Base.Returns.{returns, fails, IsTotal, Returns-bind}
use lakeql.Proto.Total.{Reads, required-IsTotal, every_parse-IsTotal, reader_rules}

deletion_file_step-Reads :
    (n : ℕ) (d : DeletionFile) (field : ℕ) → Reads n (deletion_file_step d field)
unfolding deletion_file_step
deletion_file_step-Reads n d field = search reader_rules depth 20

parse_deletion_file-IsTotal : (bytes : Bytes) → IsTotal (parse_deletion_file bytes)
unfolding parse_deletion_file
parse_deletion_file-IsTotal bytes = every_parse-IsTotal deletion_file_step-Reads _ bytes

uuid_step-Reads : (n : ℕ) (raw : Option Bytes) (field : ℕ) → Reads n (uuid_step raw field)
unfolding uuid_step
uuid_step-Reads n raw field = search reader_rules depth 20

uuid_text-IsTotal : (raw : Bytes) → IsTotal (uuid_text raw)
unfolding uuid_text
uuid_text-IsTotal (a ∷ b ∷ c ∷ d ∷ e ∷ f ∷ g ∷ h ∷ i ∷ j ∷ k ∷ l ∷ m ∷ n ∷ o ∷ p ∷ []) = returns tt
uuid_text-IsTotal raw = fails tt

parse_uuid-IsTotal : (bytes : Bytes) → IsTotal (parse_uuid bytes)
unfolding parse_uuid
parse_uuid-IsTotal bytes =
    Returns-bind
      (Returns-bind (every_parse-IsTotal uuid_step-Reads none bytes) (λ o u. required-IsTotal o))
      (λ raw u. uuid_text-IsTotal raw)

module _ (utf8 : Utf8) where
  parse_any-IsTotal : (bytes : Bytes) → IsTotal (parse_any utf8 bytes)
  unfolding parse_any
  parse_any-IsTotal bytes = every_parse-IsTotal (any_step-Reads utf8) _ bytes

  field_step-Reads : (n : ℕ) (f : Field) (field : ℕ) → Reads n (field_step utf8 f field)
  unfolding field_step
  field_step-Reads n f field = search reader_rules depth 20

  parse_field-IsTotal : (bytes : Bytes) → IsTotal (parse_field utf8 bytes)
  unfolding parse_field
  parse_field-IsTotal bytes = every_parse-IsTotal field_step-Reads _ bytes

  data_file_step-Reads : (n : ℕ) (f : DataFile) (field : ℕ) → Reads n (data_file_step utf8 f field)
  unfolding data_file_step
  data_file_step-Reads n f field = search reader_rules depth 20

  parse_data_file-IsTotal : (bytes : Bytes) → IsTotal (parse_data_file utf8 bytes)
  unfolding parse_data_file
  parse_data_file-IsTotal bytes = every_parse-IsTotal data_file_step-Reads _ bytes

  external_file_step-Reads :
      (n : ℕ) (f : ExternalFile) (field : ℕ) → Reads n (external_file_step utf8 f field)
  unfolding external_file_step
  external_file_step-Reads n f field = search reader_rules depth 20

  parse_external_file-IsTotal : (bytes : Bytes) → IsTotal (parse_external_file utf8 bytes)
  unfolding parse_external_file
  parse_external_file-IsTotal bytes = every_parse-IsTotal external_file_step-Reads _ bytes

  fragment_step-Reads : (n : ℕ) (f : Fragment) (field : ℕ) → Reads n (fragment_step utf8 f field)
  unfolding fragment_step
  fragment_step-Reads n f field =
      search
        (
          reader_rules, parse_data_file-IsTotal, parse_deletion_file-IsTotal,
          parse_external_file-IsTotal,
        )
        depth 20

  parse_fragment-IsTotal : (bytes : Bytes) → IsTotal (parse_fragment utf8 bytes)
  unfolding parse_fragment
  parse_fragment-IsTotal bytes = every_parse-IsTotal fragment_step-Reads _ bytes

  two_texts_step-Reads :
      (n : ℕ) (m : Text × Text) (field : ℕ) → Reads n (two_texts_step utf8 m field)
  unfolding two_texts_step
  two_texts_step-Reads n (a, b) field = search reader_rules depth 20

  parse_writer_version-IsTotal : (bytes : Bytes) → IsTotal (parse_writer_version utf8 bytes)
  unfolding parse_writer_version
  parse_writer_version-IsTotal bytes = every_parse-IsTotal two_texts_step-Reads _ bytes

  manifest_step-Reads : (n : ℕ) (m : Manifest) (field : ℕ) → Reads n (manifest_step utf8 m field)
  unfolding manifest_step
  manifest_step-Reads n m field =
      search
        (reader_rules, parse_field-IsTotal, parse_fragment-IsTotal, parse_writer_version-IsTotal)
        depth 20

  -- Parsing a manifest ends on every source, in a manifest or in an error of the program: the rounds that
  -- the number of bytes allows are enough for the manifest and for each message in it.
  pub parse_manifest-IsTotal : (bytes : Bytes) → IsTotal (parse_manifest utf8 bytes)
  unfolding parse_manifest
  parse_manifest-IsTotal bytes = every_parse-IsTotal manifest_step-Reads _ bytes

  index_file_step-Reads :
      (n : ℕ) (f : IndexFile) (field : ℕ) → Reads n (index_file_step utf8 f field)
  unfolding index_file_step
  index_file_step-Reads n f field = search reader_rules depth 20

  parse_index_file-IsTotal : (bytes : Bytes) → IsTotal (parse_index_file utf8 bytes)
  unfolding parse_index_file
  parse_index_file-IsTotal bytes = every_parse-IsTotal index_file_step-Reads _ bytes

  index_step-Reads : (n : ℕ) (m : IndexMetadata) (field : ℕ) → Reads n (index_step utf8 m field)
  unfolding index_step
  index_step-Reads n m field =
      search (reader_rules, parse_uuid-IsTotal, parse_any-IsTotal, parse_index_file-IsTotal) depth
        20

  parse_index_metadata-IsTotal : (bytes : Bytes) → IsTotal (parse_index_metadata utf8 bytes)
  unfolding parse_index_metadata
  parse_index_metadata-IsTotal bytes = every_parse-IsTotal index_step-Reads _ bytes

  index_section_step-Reads :
      (n : ℕ) (m : List IndexMetadata) (field : ℕ) → Reads n (index_section_step utf8 m field)
  unfolding index_section_step
  index_section_step-Reads n m field = search (reader_rules, parse_index_metadata-IsTotal) depth 20

  -- Parsing an index section ends on every source, in its indexes or in an error of the program.
  parse_index_section-IsTotal : (bytes : Bytes) → IsTotal (parse_index_section utf8 bytes)
  unfolding parse_index_section
  parse_index_section-IsTotal bytes = every_parse-IsTotal index_section_step-Reads [] bytes

  map_entry_step-Reads :
      (n : ℕ) (m : Text × Bytes) (field : ℕ) → Reads n (map_entry_step utf8 m field)
  unfolding map_entry_step
  map_entry_step-Reads n (key, value) field = search reader_rules depth 20

  parse_bytes_map_entry-IsTotal : (bytes : Bytes) → IsTotal (parse_bytes_map_entry utf8 bytes)
  unfolding parse_bytes_map_entry
  parse_bytes_map_entry-IsTotal bytes = every_parse-IsTotal map_entry_step-Reads _ bytes

  schema_step-Reads :
      (n : ℕ) (m : List Field × List (Text × Bytes)) (field : ℕ)
      → Reads n (schema_step utf8 m field)
  unfolding schema_step
  schema_step-Reads n (fields, metadata) field =
      search (reader_rules, parse_field-IsTotal, parse_bytes_map_entry-IsTotal) depth 20

  parse_schema-IsTotal : (bytes : Bytes) → IsTotal (parse_schema utf8 bytes)
  unfolding parse_schema
  parse_schema-IsTotal bytes = every_parse-IsTotal schema_step-Reads _ bytes

  descriptor_step-Reads :
      (n : ℕ) (d : FileDescriptor) (field : ℕ) → Reads n (descriptor_step utf8 d field)
  unfolding descriptor_step
  descriptor_step-Reads n d field = search (reader_rules, parse_schema-IsTotal) depth 20

  -- Parsing a file descriptor ends on every source, in a descriptor or in an error of the program.
  parse_file_descriptor-IsTotal : (bytes : Bytes) → IsTotal (parse_file_descriptor utf8 bytes)
  unfolding parse_file_descriptor
  parse_file_descriptor-IsTotal bytes = every_parse-IsTotal descriptor_step-Reads _ bytes
