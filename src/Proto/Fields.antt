-- ===== src/Proto/Fields.antt =====
-- The fields of a message, read one behind the other.
use lakeql.Base.{
  ℕ, zero, suc, ◌+◌, ◌*◌, ◌/◌, ◌%◌, ◌^◌, ◌<◌, ◌≤◌, ◌≡◌, refl, sym, ap, ◌∙◌, [], ◌∷◌, ◌++◌, length,
  arith, length-append, le→leb,
}
use lakeql.Base.Result.{Result, ok}
use lakeql.Proto.Reader.{
  Bytes, FieldReader, varint_loop, raw_varint, split_bytes, key, varint, bytes_value, set_field,
  message_field, fields_loop, parse_fields, max_safe_integer,
}
use lakeql.Proto.Encode.{
  varint_bytes, encode_varint, encode_key, number_field, delimited_field, IsU64,
}
use mathlib.Core.List.{append_assoc, append-nil}
use native.Mathlib.Nat.{div-add-mod}
use native.Mathlib.Numerals.{towards_suc}

next_shift : (s : ℕ) → 128 * 2 ^ s ≡ 2 ^ (s + 7)
next_shift s = simp towards_suc (omega arith)

scaled : (v n : ℕ) → v / 128 * 128 * n + v % 128 * n ≡ v * n
scaled v n = omega (arith, ap (λ (whole : ℕ). whole * n) (div-add-mod v 128))

-- A number at a shift is its lowest seven bits there, and the others one group further.
groups : (v s : ℕ) → v % 128 * 2 ^ s + v / 128 * 2 ^ (s + 7) ≡ v * 2 ^ s
groups v s = rw (← next_shift s) (omega (arith, scaled v (2 ^ s)))

last_group :
    (rounds shift value v : ℕ) (rest : Bytes)
    → v < 128
    → varint_loop (suc rounds) shift value (v ∷ rest) ≡ ok (value + v * 2 ^ shift, rest)
unfolding varint_loop
last_group rounds shift value v rest h = ground arith

varint_loop-varint_bytes :
    (more shift value v : ℕ) (rest : Bytes)
    → v < 128 ^ suc more
    → varint_loop (suc more) shift value (varint_bytes more v ++ rest)
      ≡ ok (value + v * 2 ^ shift, rest)
unfolding varint_loop varint_bytes
varint_loop-varint_bytes zero shift value v rest h = last_group zero shift value v rest h
varint_loop-varint_bytes (suc more) shift value v rest h = ground (
  arith,
  last_group (suc more) shift value v rest,
  groups v shift,
  varint_loop-varint_bytes more (shift + 7) (value + v % 128 * 2 ^ shift) (v / 128) rest
      (omega arith),
)

pub raw_varint-encode :
    (v : ℕ) (rest : Bytes) → v < 128 ^ 10 → raw_varint (encode_varint v ++ rest) ≡ ok (v, rest)
unfolding raw_varint
raw_varint-encode v rest h = ground (arith, varint_loop-varint_bytes 9 0 0 v rest h)

pub split_bytes-append :
    (payload rest : Bytes) → split_bytes (length payload) (payload ++ rest) ≡ ok (payload, rest)
unfolding split_bytes
split_bytes-append [] rest = refl
split_bytes-append (byte ∷ payload) rest = rw (split_bytes-append payload rest) refl

key-encode :
    (field wire : ℕ) (rest : Bytes)
    → 0 < field
    → field < 2 ^ 29
    → wire < 8
    → key (encode_key field wire ++ rest) ≡ ok ((field, wire), rest)
unfolding key
key-encode field wire rest p l w =
    rw (raw_varint-encode (8 * field + wire) rest (omega (arith, l, w))) (ground (arith, p, w))

-- The chunk holds one field, by which the message changes.
pub record Decodes {B : Type 0} (step : B → ℕ → FieldReader B) (before : B) (chunk : Bytes)
    (after : B) : Type 0 where
  pub field : ℕ
  pub wire : ℕ
  pub value : Bytes
  pub reads_key : (rest : Bytes) → key (chunk ++ rest) ≡ ok ((field, wire), value ++ rest)
  pub changes : (rest : Bytes) → step before field wire (value ++ rest) ≡ ok (after, rest)

-- The chunks of a message, from one state of it to another.
pub data Chunks {B : Type 0} (step : B → ℕ → FieldReader B) : B → Bytes → B → Type 0 where
  done : {m : B} → Chunks step m [] m
  last : {m m' : B} {bytes : Bytes} → Decodes step m bytes m' → Chunks step m bytes m'
  chunk :
      {m m' m'' : B} {bytes rest : Bytes}
      → Decodes step m bytes m'
      → Chunks step m' rest m''
      → Chunks step m (bytes ++ rest) m''

no_key : {p : (ℕ × ℕ) × Bytes} → key ([] ++ []) ≡ ok p → ⊥
unfolding key raw_varint varint_loop
no_key e = cc

module _ {B : Type 0} (step : B → ℕ → FieldReader B) where
  one_chunk :
      (fuel : ℕ) (m m' m'' : B) (bytes rest : Bytes)
      → Decodes step m bytes m'
      → length (bytes ++ rest) ≤ fuel
      → ((less : ℕ) → length rest ≤ less → fields_loop step less m' rest ≡ ok m'')
      → fields_loop step fuel m (bytes ++ rest) ≡ ok m''
  unfolding fields_loop
  one_chunk fuel m m' m'' [] rest d l k = absurd (no_key (d.reads_key []))
  one_chunk zero m m' m'' (byte ∷ bytes) rest d l k = absurd (omega (arith, l))
  one_chunk (suc fuel) m m' m'' (byte ∷ bytes) rest d l k =
      rw (d.reads_key rest)
        (rw (d.changes rest) (k fuel (omega (arith, l, length-append bytes rest))))

  fields_loop-Chunks :
      (fuel : ℕ) {m m' : B} {bytes : Bytes}
      → Chunks step m bytes m'
      → length bytes ≤ fuel
      → fields_loop step fuel m bytes ≡ ok m'
  unfolding fields_loop
  fields_loop-Chunks fuel done l = refl
  fields_loop-Chunks fuel {m} {m'} {bytes} (last d) l =
      ap (fields_loop step fuel m) (sym (append-nil bytes))
      ∙ one_chunk fuel m m' m' bytes [] d (rw (append-nil bytes) l) (λ less h. refl)
  fields_loop-Chunks fuel (chunk d c) l =
      one_chunk fuel _ _ _ _ _ d l (λ less h. fields_loop-Chunks less c h)

  -- A message that is written as chunks is read as they say.
  pub parse_fields-Chunks :
      {m m' : B} {bytes : Bytes} → Chunks step m bytes m' → parse_fields step m bytes ≡ ok m'
  unfolding parse_fields
  parse_fields-Chunks {bytes} c = fields_loop-Chunks (length bytes) c (omega arith)

module _ {B : Type 0} (step : B → ℕ → FieldReader B) (m : B) (field : ℕ) (p : 0 < field)
    (l : field < 2 ^ 29) where
  pub number_field-Decodes :
      (v : ℕ) (change : ℕ → B)
      → IsU64 v
      → step m field ≡ set_field varint change
      → Decodes step m (number_field field v) (change v)
  unfolding number_field set_field varint
  number_field-Decodes v change u e = record {
    field = field;
    wire = 0;
    value = encode_varint v;
    reads_key = λ rest.
        rw (append_assoc (encode_key field 0) (encode_varint v) rest)
          (key-encode field 0 (encode_varint v ++ rest) p l (omega arith));
    changes = λ rest. rw e (rw (raw_varint-encode v rest (omega (arith, u))) refl);
  }

  key-delimited_field :
      (payload rest : Bytes)
      → key (delimited_field field payload ++ rest)
        ≡ ok ((field, 2), (encode_varint (length payload) ++ payload) ++ rest)
  unfolding delimited_field
  key-delimited_field payload rest =
      rw (append_assoc (encode_key field 2) (encode_varint (length payload) ++ payload) rest)
        (key-encode field 2 ((encode_varint (length payload) ++ payload) ++ rest) p l (omega arith))

  bytes_value-payload :
      (payload rest : Bytes)
      → length payload ≤ max_safe_integer
      → bytes_value 2 ((encode_varint (length payload) ++ payload) ++ rest) ≡ ok (payload, rest)
  unfolding bytes_value
  bytes_value-payload payload rest h =
      rw (append_assoc (encode_varint (length payload)) payload rest) (
        rw (raw_varint-encode (length payload) (payload ++ rest) (omega (arith, h)))
          (rw (le→leb (length payload) max_safe_integer h) (split_bytes-append payload rest)))

  pub bytes_field-Decodes :
      (payload : Bytes) (change : Bytes → B)
      → length payload ≤ max_safe_integer
      → step m field ≡ set_field bytes_value change
      → Decodes step m (delimited_field field payload) (change payload)
  unfolding set_field
  bytes_field-Decodes payload change h e = record {
    field = field;
    wire = 2;
    value = encode_varint (length payload) ++ payload;
    reads_key = key-delimited_field payload;
    changes = λ rest. rw e (rw (bytes_value-payload payload rest h) refl);
  }

  pub message_field-Decodes :
      {A : Type 0} (parse : Bytes → Result A) (payload : Bytes) (message : A) (change : A → B)
      → length payload ≤ max_safe_integer
      → parse payload ≡ ok message
      → step m field ≡ message_field parse change
      → Decodes step m (delimited_field field payload) (change message)
  unfolding message_field
  message_field-Decodes parse payload message change h r e = record {
    field = field;
    wire = 2;
    value = encode_varint (length payload) ++ payload;
    reads_key = key-delimited_field payload;
    changes = λ rest. rw e (rw (bytes_value-payload payload rest h) (rw r refl));
  }

pub length-delimited_field :
    (field : ℕ) (payload : Bytes) → length payload ≤ length (delimited_field field payload)
unfolding delimited_field
length-delimited_field field payload = omega (
  arith,
  length-append (encode_key field 2) (encode_varint (length payload) ++ payload),
  length-append (encode_varint (length payload)) payload,
)
