-- ===== src/Proto/Manifest.antt =====
-- packages/lance/src/proto.ts: the manifest of a dataset, its fragments and files, and its indexes.
use lakeql.Base.{
  ℕ, ◌+◌, ◌-◌, ◌/◌, ◌%◌, Bool, false, List, [], ◌∷◌, ◌++◌, Option, none, some, ltb, ◌==◌,
  if◌then◌else◌,
}
use lakeql.Base.Int.{ℤ, pos}
use lakeql.Base.Result.{Result, ok, err, lance_read_error, ◌>>=◌}
use lakeql.Expr.{Text}
use lakeql.Evaluator.{text_eq}
use lakeql.Proto.Reader.{
  Bytes, FieldReader, Utf8, varint, safe_integer, int32, string, bytes_value, packed_int32,
  set_field, message_field, skip_field, parse_fields, required,
}
use lakeql.Proto.Encodings.{is_set}
use lakeql.Proto.Columns.{parse_any}

pub record Field : Type 0 where
  pub id : ℕ
  pub name : Text
  pub parent_id : ℤ
  pub logical_type : Text
  pub nullable : Bool

pub record DataFile : Type 0 where
  pub path : Text
  pub fields : List ℤ
  pub column_indices : List ℤ
  pub file_major_version : ℕ
  pub file_minor_version : ℕ
  pub file_size_bytes : ℕ

pub record DeletionFile : Type 0 where
  pub file_type : ℕ
  pub read_version : ℕ
  pub id : ℕ
  pub num_deleted_rows : ℕ

pub record ExternalFile : Type 0 where
  pub path : Text
  pub offset : ℕ
  pub size : ℕ

pub record Fragment : Type 0 where
  pub id : ℕ
  pub files : List DataFile
  pub deletion_file : Option DeletionFile
  pub physical_rows : ℕ
  pub inline_row_ids : Option Bytes
  pub external_row_ids : Option ExternalFile

pub record Manifest : Type 0 where
  pub fields : List Field
  pub fragments : List Fragment
  pub version : ℕ
  pub reader_feature_flags : ℕ
  pub writer_library : Text
  pub writer_version : Text
  pub data_file_format : Text
  pub data_storage_version : Text
  pub index_section_offset : Option ℕ

pub record IndexFile : Type 0 where
  pub path : Text
  pub size_bytes : ℕ

pub record IndexMetadata : Type 0 where
  pub uuid : Text
  pub fields : List ℤ
  pub name : Text
  pub dataset_version : ℕ
  pub details_type_url : Text
  pub details : Option Bytes
  pub index_version : Option ℤ
  pub files : List IndexFile

pub record FileDescriptor : Type 0 where
  pub fields : List Field
  pub metadata : List (Text × Bytes)
  pub length : ℕ

unfoldable pub deletion_file_step : DeletionFile → ℕ → FieldReader DeletionFile
unfolding set_field skip_field safe_integer varint
deletion_file_step d field =
    if field == 1
    then set_field safe_integer (λ v. record d { file_type = v })
    else if field == 2
    then set_field varint (λ v. record d { read_version = v })
    else if field == 3
    then set_field varint (λ v. record d { id = v })
    else if field == 4
    then set_field varint (λ v. record d { num_deleted_rows = v })
    else skip_field d

unfoldable pub parse_deletion_file : Bytes → Result DeletionFile
unfolding deletion_file_step parse_fields
parse_deletion_file bytes =
    parse_fields deletion_file_step
      (record { file_type = 0; read_version = 0; id = 0; num_deleted_rows = 0 }) bytes

-- `value.toString(16)` of four bits.
abbrev pub hex_digit : ℕ → ℕ
hex_digit n = if ltb n 10 then b'0' + n else b'a' + (n - 10)

unfoldable pub hex : Bytes → Text
hex [] = []
hex (byte ∷ bytes) = hex_digit (byte / 16) ∷ hex_digit (byte % 16) ∷ hex bytes

unfoldable pub uuid_step : Option Bytes → ℕ → FieldReader (Option Bytes)
unfolding set_field skip_field bytes_value
uuid_step raw field = if field == 1 then set_field bytes_value (λ v. some v) else skip_field raw

-- The hyphens stand behind 4, 6, 8 and 10 bytes.
unfoldable pub uuid_text : Bytes → Result Text
unfolding hex
uuid_text (a ∷ b ∷ c ∷ d ∷ e ∷ f ∷ g ∷ h ∷ i ∷ j ∷ k ∷ l ∷ m ∷ n ∷ o ∷ p ∷ []) = ok (
    hex (a ∷ b ∷ c ∷ d ∷ [])
    ++ (b'-'
        ∷ (hex (e ∷ f ∷ [])
            ++ (b'-'
                ∷ (hex (g ∷ h ∷ [])
                    ++ (b'-' ∷ (hex (i ∷ j ∷ []) ++ (b'-' ∷ hex (k ∷ l ∷ m ∷ n ∷ o ∷ p ∷ [])))))))))
uuid_text bytes = err lance_read_error

unfoldable pub parse_uuid : Bytes → Result Text
unfolding uuid_step parse_fields uuid_text
parse_uuid bytes = parse_fields uuid_step none bytes >>= required >>= uuid_text

-- `metadata[entry.key] = entry.value`
unfoldable pub set_metadata : Text → Bytes → List (Text × Bytes) → List (Text × Bytes)
set_metadata key value [] = (key, value) ∷ []
set_metadata key value ((k, v) ∷ m) =
    if text_eq k key then (k, value) ∷ m else (k, v) ∷ set_metadata key value m

module _ (utf8 : Utf8) where
  unfoldable pub field_step : Field → ℕ → FieldReader Field
  unfolding set_field skip_field string safe_integer int32 varint
  field_step f field =
      if field == 2
      then set_field (string utf8) (λ v. record f { name = v })
      else if field == 3
      then set_field safe_integer (λ v. record f { id = v })
      else if field == 4
      then set_field int32 (λ v. record f { parent_id = v })
      else if field == 5
      then set_field (string utf8) (λ v. record f { logical_type = v })
      else if field == 6
      then set_field varint (λ v. record f { nullable = is_set v })
      else skip_field f

  unfoldable pub parse_field : Bytes → Result Field
  unfolding field_step parse_fields
  parse_field bytes =
      parse_fields field_step
        (record { id = 0; name = []; parent_id = pos 0; logical_type = []; nullable = false }) bytes

  unfoldable pub data_file_step : DataFile → ℕ → FieldReader DataFile
  unfolding set_field skip_field string packed_int32 safe_integer
  data_file_step f field =
      if field == 1
      then set_field (string utf8) (λ v. record f { path = v })
      else if field == 2
      then set_field packed_int32 (λ v. record f { fields = f.fields ++ v })
      else if field == 3
      then set_field packed_int32 (λ v. record f { column_indices = f.column_indices ++ v })
      else if field == 4
      then set_field safe_integer (λ v. record f { file_major_version = v })
      else if field == 5
      then set_field safe_integer (λ v. record f { file_minor_version = v })
      else if field == 6
      then set_field safe_integer (λ v. record f { file_size_bytes = v })
      else skip_field f

  unfoldable pub parse_data_file : Bytes → Result DataFile
  unfolding data_file_step parse_fields
  parse_data_file bytes =
      parse_fields data_file_step
        (record {
          path = [];
          fields = [];
          column_indices = [];
          file_major_version = 0;
          file_minor_version = 0;
          file_size_bytes = 0;
        })
        bytes

  unfoldable pub external_file_step : ExternalFile → ℕ → FieldReader ExternalFile
  unfolding set_field skip_field string safe_integer
  external_file_step f field =
      if field == 1
      then set_field (string utf8) (λ v. record f { path = v })
      else if field == 2
      then set_field safe_integer (λ v. record f { offset = v })
      else if field == 3
      then set_field safe_integer (λ v. record f { size = v })
      else skip_field f

  unfoldable pub parse_external_file : Bytes → Result ExternalFile
  unfolding external_file_step parse_fields
  parse_external_file bytes =
      parse_fields external_file_step (record { path = []; offset = 0; size = 0 }) bytes

  unfoldable pub fragment_step : Fragment → ℕ → FieldReader Fragment
  unfolding set_field message_field skip_field varint safe_integer bytes_value parse_data_file
      parse_deletion_file parse_external_file
  fragment_step f field =
      if field == 1
      then set_field varint (λ v. record f { id = v })
      else if field == 2
      then message_field parse_data_file (λ v. record f { files = f.files ++ (v ∷ []) })
      else if field == 3
      then message_field parse_deletion_file (λ v. record f { deletion_file = some v })
      else if field == 4
      then set_field safe_integer (λ v. record f { physical_rows = v })
      else if field == 5
      then set_field bytes_value (λ v. record f { inline_row_ids = some v })
      else if field == 6
      then message_field parse_external_file (λ v. record f { external_row_ids = some v })
      else skip_field f

  unfoldable pub parse_fragment : Bytes → Result Fragment
  unfolding fragment_step parse_fields
  parse_fragment bytes =
      parse_fields fragment_step
        (record {
          id = 0;
          files = [];
          deletion_file = none;
          physical_rows = 0;
          inline_row_ids = none;
          external_row_ids = none;
        })
        bytes

  -- Two texts under the fields 1 and 2: a writer's library and version, a format's name and version.
  unfoldable pub two_texts_step : Text × Text → ℕ → FieldReader (Text × Text)
  unfolding set_field skip_field string
  two_texts_step (a, b) field =
      if field == 1
      then set_field (string utf8) (λ v. (v, b))
      else if field == 2
      then set_field (string utf8) (λ v. (a, v))
      else skip_field (a, b)

  unfoldable pub parse_writer_version : Bytes → Result (Text × Text)
  unfolding two_texts_step parse_fields
  parse_writer_version bytes = parse_fields two_texts_step ([], []) bytes

  unfoldable pub parse_data_format : Bytes → Result (Text × Text)
  unfolding two_texts_step parse_fields
  parse_data_format bytes = parse_fields two_texts_step ([], []) bytes

  unfoldable pub manifest_step : Manifest → ℕ → FieldReader Manifest
  unfolding set_field message_field skip_field varint safe_integer parse_field parse_fragment
      parse_writer_version parse_data_format
  manifest_step m field =
      if field == 1
      then message_field parse_field (λ v. record m { fields = m.fields ++ (v ∷ []) })
      else if field == 2
      then message_field parse_fragment (λ v. record m { fragments = m.fragments ++ (v ∷ []) })
      else if field == 3
      then set_field varint (λ v. record m { version = v })
      else if field == 6
      then set_field safe_integer (λ v. record m { index_section_offset = some v })
      else if field == 9
      then set_field varint (λ v. record m { reader_feature_flags = v })
      else if field == 13
      then message_field parse_writer_version
          (λ (l, v). record m { writer_library = l; writer_version = v })
      else if field == 15
      then message_field parse_data_format
          (λ (f, v). record m { data_file_format = f; data_storage_version = v })
      else skip_field m

  abbrev empty_manifest : Manifest
  empty_manifest = record {
    fields = [];
    fragments = [];
    version = 0;
    reader_feature_flags = 0;
    writer_library = [];
    writer_version = [];
    data_file_format = [];
    data_storage_version = [];
    index_section_offset = none;
  }

  unfoldable pub parse_manifest : Bytes → Result Manifest
  unfolding manifest_step parse_fields
  parse_manifest bytes = parse_fields manifest_step empty_manifest bytes

  unfoldable pub index_file_step : IndexFile → ℕ → FieldReader IndexFile
  unfolding set_field skip_field string safe_integer
  index_file_step f field =
      if field == 1
      then set_field (string utf8) (λ v. record f { path = v })
      else if field == 2
      then set_field safe_integer (λ v. record f { size_bytes = v })
      else skip_field f

  unfoldable pub parse_index_file : Bytes → Result IndexFile
  unfolding index_file_step parse_fields
  parse_index_file bytes = parse_fields index_file_step (record { path = []; size_bytes = 0 }) bytes

  unfoldable pub index_step : IndexMetadata → ℕ → FieldReader IndexMetadata
  unfolding set_field message_field skip_field packed_int32 string varint int32 parse_uuid parse_any
      parse_index_file
  index_step m field =
      if field == 1
      then message_field parse_uuid (λ v. record m { uuid = v })
      else if field == 2
      then set_field packed_int32 (λ v. record m { fields = m.fields ++ v })
      else if field == 3
      then set_field (string utf8) (λ v. record m { name = v })
      else if field == 4
      then set_field varint (λ v. record m { dataset_version = v })
      else if field == 6
      then message_field (parse_any utf8) (λ (u, v). record m { details_type_url = u; details = v })
      else if field == 7
      then set_field int32 (λ v. record m { index_version = some v })
      else if field == 10
      then message_field parse_index_file (λ v. record m { files = m.files ++ (v ∷ []) })
      else skip_field m

  abbrev empty_index : IndexMetadata
  empty_index = record {
    uuid = [];
    fields = [];
    name = [];
    dataset_version = 0;
    details_type_url = [];
    details = none;
    index_version = none;
    files = [];
  }

  unfoldable pub parse_index_metadata : Bytes → Result IndexMetadata
  unfolding index_step parse_fields
  parse_index_metadata bytes = parse_fields index_step empty_index bytes

  unfoldable pub index_section_step : List IndexMetadata → ℕ → FieldReader (List IndexMetadata)
  unfolding message_field skip_field parse_index_metadata
  index_section_step indices field =
      if field == 1
      then message_field parse_index_metadata (λ v. indices ++ (v ∷ []))
      else skip_field indices

  unfoldable pub parse_index_section : Bytes → Result (List IndexMetadata)
  unfolding index_section_step parse_fields
  parse_index_section bytes = parse_fields index_section_step [] bytes

  unfoldable pub map_entry_step : Text × Bytes → ℕ → FieldReader (Text × Bytes)
  unfolding set_field skip_field string bytes_value
  map_entry_step (key, value) field =
      if field == 1
      then set_field (string utf8) (λ v. (v, value))
      else if field == 2
      then set_field bytes_value (λ v. (key, v))
      else skip_field (key, value)

  unfoldable pub parse_bytes_map_entry : Bytes → Result (Text × Bytes)
  unfolding map_entry_step parse_fields
  parse_bytes_map_entry bytes = parse_fields map_entry_step ([], []) bytes

  unfoldable pub schema_step :
      List Field × List (Text × Bytes) → ℕ → FieldReader (List Field × List (Text × Bytes))
  unfolding message_field skip_field parse_field parse_bytes_map_entry set_metadata
  schema_step (fields, metadata) field =
      if field == 1
      then message_field parse_field (λ v. (fields ++ (v ∷ []), metadata))
      else if field == 5
      then message_field parse_bytes_map_entry (λ (k, v). (fields, set_metadata k v metadata))
      else skip_field (fields, metadata)

  unfoldable pub parse_schema : Bytes → Result (List Field × List (Text × Bytes))
  unfolding schema_step parse_fields
  parse_schema bytes = parse_fields schema_step ([], []) bytes

  unfoldable pub descriptor_step : FileDescriptor → ℕ → FieldReader FileDescriptor
  unfolding set_field message_field skip_field safe_integer parse_schema
  descriptor_step d field =
      if field == 1
      then message_field parse_schema (λ (fs, m). record d { fields = fs; metadata = m })
      else if field == 2
      then set_field safe_integer (λ v. record d { length = v })
      else skip_field d

  unfoldable pub parse_file_descriptor : Bytes → Result FileDescriptor
  unfolding descriptor_step parse_fields
  parse_file_descriptor bytes =
      parse_fields descriptor_step (record { fields = []; metadata = []; length = 0 }) bytes
