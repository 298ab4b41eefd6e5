-- ===== src/Proto/Reader.antt =====
-- packages/lance/src/proto.ts, `ProtoReader`: what is left of the source is the reader's state, so that
-- `done` is the empty list. An operation returns what it reads and what is left.
use lakeql.Base.{
  ℕ, zero, suc, ◌+◌, ◌-◌, ◌*◌, ◌/◌, ◌%◌, ◌^◌, List, [], ◌∷◌, Option, none, some, leb, ltb, ◌==◌,
  if◌then◌else◌, length,
}
use lakeql.Base.Int.{ℤ, pos, negsuc}
use lakeql.Base.Result.{Result, ok, err, lance_read_error, fuel_exhausted, ◌>>=◌, ◌>>◌, guard}
use lakeql.Expr.{Text}

abbrev pub Bytes : Type 0
Bytes = List ℕ

abbrev pub Read : Type 0 → Type 0
Read A = Result (A × Bytes)

-- A reader of a field's value, by the field's wire type.
abbrev pub FieldReader : Type 0 → Type 0
FieldReader A = ℕ → Bytes → Read A

abbrev pub max_safe_integer : ℕ
max_safe_integer = 2 ^ 53 - 1

-- `for (shift = 0n; shift < 70n; shift += 7n)`: the rounds left bound the shift. The bits of `value`
-- are below the shift, so that `|` adds; `byte & 0x7f` and `byte & 0x80` are the parts of a byte.
unfoldable pub varint_loop : ℕ → ℕ → ℕ → Bytes → Read ℕ
varint_loop zero shift value bytes = err lance_read_error
varint_loop (suc rounds) shift value [] = err lance_read_error
varint_loop (suc rounds) shift value (byte ∷ bytes) =
    let value' = value + byte % 128 * 2 ^ shift in
    let more = varint_loop rounds (shift + 7) value' bytes in
    if byte / 128 == 0 then ok (value', bytes) else more

unfoldable pub raw_varint : Bytes → Read ℕ
unfolding varint_loop
raw_varint bytes = varint_loop 10 0 0 bytes

-- The first bytes of the source, and what is behind them.
unfoldable pub split_bytes : ℕ → Bytes → Read Bytes
split_bytes zero bytes = ok ([], bytes)
split_bytes (suc n) [] = err lance_read_error
split_bytes (suc n) (byte ∷ bytes) = do (value, rest) ← split_bytes n bytes; ok (byte ∷ value, rest)

unfoldable pub key : Bytes → Read (ℕ × ℕ)
unfolding raw_varint
key bytes = do
  (k, rest) ← raw_varint bytes
  guard (ltb 0 (k / 8)) lance_read_error
  ok ((k / 8, k % 8), rest)

abbrev pub expect_wire : ℕ → ℕ → Result (Unit {0})
expect_wire actual expected = guard (actual == expected) lance_read_error

unfoldable pub varint : FieldReader ℕ
unfolding raw_varint
varint wire bytes = do expect_wire wire 0; raw_varint bytes

unfoldable pub safe_integer : FieldReader ℕ
unfolding varint
safe_integer wire bytes = do
  (value, rest) ← varint wire bytes
  guard (leb value max_safe_integer) lance_read_error
  ok (value, rest)

-- `BigInt.asIntN(32, value)`
abbrev pub as_int32 : ℕ → ℤ
as_int32 value =
    let low = value % 2 ^ 32 in if ltb low (2 ^ 31) then pos low else negsuc (2 ^ 32 - 1 - low)

unfoldable pub int32 : FieldReader ℤ
unfolding varint
int32 wire bytes = do (value, rest) ← varint wire bytes; ok (as_int32 value, rest)

unfoldable pub bytes_value : FieldReader Bytes
unfolding raw_varint split_bytes
bytes_value wire bytes = do
  expect_wire wire 2
  (size, rest) ← raw_varint bytes
  guard (leb size max_safe_integer) lance_read_error
  split_bytes size rest

-- `TextDecoder.decode` of the language, with `none` for what it refuses.
abbrev pub Utf8 : Type 0
Utf8 = Bytes → Option Text

abbrev pub decoded : Option Text → Result Text
decoded none = err lance_read_error
decoded (some t) = ok t

unfoldable pub string : Utf8 → FieldReader Text
unfolding bytes_value
string utf8 wire bytes = do
  (value, rest) ← bytes_value wire bytes
  text ← decoded (utf8 value)
  ok (text, rest)

-- `while (!packed.done) values.push(…)`: each value takes a byte at least, so the number of bytes
-- bounds the rounds.
unfoldable pub packed_loop : {A : Type 0} → FieldReader A → ℕ → Bytes → Result (List A)
packed_loop one fuel [] = ok []
packed_loop one zero (byte ∷ bytes) = err fuel_exhausted
packed_loop one (suc fuel) (byte ∷ bytes) = do
  (value, rest) ← one 0 (byte ∷ bytes)
  values ← packed_loop one fuel rest
  ok (value ∷ values)

-- One value, or a field that packs several.
unfoldable pub packed : {A : Type 0} → FieldReader A → FieldReader (List A)
unfolding packed_loop bytes_value
packed one wire bytes =
    let single = one wire bytes >>= λ p. ok (p.0 ∷ [], p.1) in
    let several = bytes_value wire bytes >>= λ p.
    packed_loop one (length p.0) p.0 >>= λ values. ok (values, p.1) in
    if wire == 0 then single else several

unfoldable pub packed_safe_integers : FieldReader (List ℕ)
unfolding packed safe_integer
packed_safe_integers = packed safe_integer

unfoldable pub packed_int32 : FieldReader (List ℤ)
unfolding packed int32
packed_int32 = packed int32

abbrev advance : ℕ → Bytes → Result Bytes
advance n bytes = split_bytes n bytes >>= λ p. ok p.1

-- `skip`, by the wire type: a varint, eight bytes, a field with its length, four bytes.
unfoldable pub skip : ℕ → Bytes → Result Bytes
unfolding raw_varint split_bytes
skip wire bytes =
    let number = raw_varint bytes >>= λ p. ok p.1 in
    let delimited = raw_varint bytes >>= λ p.
    guard (leb p.0 max_safe_integer) lance_read_error >> advance p.0 p.1 in
    if wire == 0
    then number
    else if wire == 1
    then advance 8 bytes
    else if wire == 2
    then delimited
    else if wire == 5
    then advance 4 bytes
    else err lance_read_error

-- The ways in which a field changes what is read of a message so far.
module _ {A B : Type 0} where
  unfoldable pub set_field : FieldReader A → (A → B) → FieldReader B
  set_field read change wire bytes = do (value, rest) ← read wire bytes; ok (change value, rest)

  -- `parse(reader.message(wire))`
  unfoldable pub message_field : (Bytes → Result A) → (A → B) → FieldReader B
  unfolding bytes_value
  message_field parse change wire bytes = do
    (payload, rest) ← bytes_value wire bytes
    value ← parse payload
    ok (change value, rest)

unfoldable pub skip_field : {B : Type 0} → B → FieldReader B
unfolding skip
skip_field message wire bytes = do rest ← skip wire bytes; ok (message, rest)

-- `while (!reader.done)`: a field takes a byte at least, so the number of bytes bounds the rounds.
unfoldable pub fields_loop : {B : Type 0} → (B → ℕ → FieldReader B) → ℕ → B → Bytes → Result B
unfolding key
fields_loop step fuel message [] = ok message
fields_loop step zero message (byte ∷ bytes) = err fuel_exhausted
fields_loop step (suc fuel) message (byte ∷ bytes) = do
  ((field, wire), value) ← key (byte ∷ bytes)
  (message', rest) ← step message field wire value
  fields_loop step fuel message' rest

unfoldable pub parse_fields : {B : Type 0} → (B → ℕ → FieldReader B) → B → Bytes → Result B
unfolding fields_loop
parse_fields step message bytes = fields_loop step (length bytes) message bytes

abbrev pub required : {A : Type 0} → Option A → Result A
required none = err lance_read_error
required (some value) = ok value
