-- ===== src/Proto/Total.antt =====
-- Parsing ends: no reader meets the bound on its rounds. A reader is total on the payloads of less than
-- `n` bytes if it leaves no more bytes than it was given.
use lakeql.Base.{
  ℕ, zero, suc, ◌+◌, ◌*◌, ◌/◌, ◌%◌, ◌^◌, ◌≤◌, ◌<◌, ◌≡◌, Bool, true, false, [], ◌∷◌, Option, none,
  some, arith, leb, ltb, ◌==◌, if◌then◌else◌, length, Bool-cases, inl, inr,
}
use lakeql.Base.Result.{Result, ok, ◌>>=◌}
use lakeql.Base.Returns.{
  Returns, returns, fails, IsTotal, Returns-bind, Returns-mono, Returns-if, Returns-guard,
}
use lakeql.Expr.{Text}
use lakeql.Proto.Reader.{
  Bytes, Read, FieldReader, Utf8, varint_loop, raw_varint, split_bytes, key, varint, safe_integer,
  int32, bytes_value, string, decoded, packed_loop, packed, packed_safe_integers, packed_int32,
  skip, set_field, message_field, skip_field, fields_loop, parse_fields, required, max_safe_integer,
}

-- At most `n` bytes are left.
abbrev pub Leaves : {A : Type 0} → ℕ → Read A → Type 0
Leaves n r = Returns (λ p. length p.1 ≤ n) r

pub record Reads {A : Type 0} (n : ℕ) (r : FieldReader A) : Type 0 where
  pub leaves : (wire : ℕ) (bytes : Bytes) → length bytes < n → Leaves (length bytes) (r wire bytes)

pub required-IsTotal : {A : Type 0} (o : Option A) → IsTotal (required o)
required-IsTotal none = fails tt
required-IsTotal (some v) = returns tt

pub decoded-IsTotal : (o : Option Text) → IsTotal (decoded o)
decoded-IsTotal none = fails tt
decoded-IsTotal (some v) = returns tt

-- A varint takes a byte at least.
varint_loop-lt :
    (rounds shift value : ℕ) (bytes : Bytes)
    → Returns (λ p. length p.1 < length bytes) (varint_loop rounds shift value bytes)
unfolding varint_loop
varint_loop-lt zero shift value bytes = fails tt
varint_loop-lt (suc rounds) shift value [] = fails tt
varint_loop-lt (suc rounds) shift value (byte ∷ bytes) = elim (Bool-cases (byte / 128 == 0)) [
  | inl e ↦ rw e (returns (omega arith))
  | inr e ↦ rw e (
      Returns-mono (varint_loop-lt rounds (shift + 7) (value + byte % 128 * 2 ^ shift) bytes)
        (λ p h. omega (arith, h)))
]

pub raw_varint-lt : (bytes : Bytes) → Returns (λ p. length p.1 < length bytes) (raw_varint bytes)
unfolding raw_varint
raw_varint-lt bytes = varint_loop-lt 10 0 0 bytes

pub split_bytes-length :
    (n : ℕ) (bytes : Bytes)
    → Returns (λ p. length p.0 + length p.1 ≡ length bytes) (split_bytes n bytes)
unfolding split_bytes
split_bytes-length zero bytes = returns (omega arith)
split_bytes-length (suc n) [] = fails tt
split_bytes-length (suc n) (byte ∷ bytes) =
    Returns-bind (split_bytes-length n bytes) (λ p h. returns (omega (arith, h)))

pub key-lt : (bytes : Bytes) → Returns (λ p. length p.1 < length bytes) (key bytes)
unfolding key
key-lt bytes =
    Returns-bind (raw_varint-lt bytes) (λ p h. Returns-guard (ltb 0 (p.0 / 8)) (returns h))

-- A delimited field holds fewer bytes than it takes.
pub bytes_value-length :
    (wire : ℕ) (bytes : Bytes)
    → Returns (λ p. length p.0 + length p.1 < length bytes) (bytes_value wire bytes)
unfolding bytes_value
bytes_value-length wire bytes = Returns-guard (wire == 2) (
    Returns-bind (raw_varint-lt bytes) (λ p h.
      Returns-guard (leb p.0 max_safe_integer)
        (Returns-mono (split_bytes-length p.0 p.1) (λ q k. omega (arith, h, k)))))

module _ (n : ℕ) where
  pub varint-Reads : Reads n varint
  unfolding varint
  varint-Reads = record {
    leaves = λ wire bytes h.
        Returns-guard (wire == 0) (Returns-mono (raw_varint-lt bytes) (λ p k. omega (arith, k)));
  }

  pub safe_integer-Reads : Reads n safe_integer
  unfolding safe_integer
  safe_integer-Reads = record {
    leaves = λ wire bytes h.
        Returns-bind (varint-Reads.leaves wire bytes h)
          (λ p k. Returns-guard (leb p.0 max_safe_integer) (returns k));
  }

  pub int32-Reads : Reads n int32
  unfolding int32
  int32-Reads = record {
    leaves = λ wire bytes h. Returns-bind (varint-Reads.leaves wire bytes h) (λ p k. returns k);
  }

  pub bytes_value-Reads : Reads n bytes_value
  bytes_value-Reads = record {
    leaves = λ wire bytes h. Returns-mono (bytes_value-length wire bytes) (λ p k. omega (arith, k));
  }

  pub string-Reads : (utf8 : Utf8) → Reads n (string utf8)
  unfolding string
  string-Reads utf8 = record {
    leaves = λ wire bytes h.
        Returns-bind (bytes_value-Reads.leaves wire bytes h)
          (λ p k. Returns-bind (decoded-IsTotal (utf8 p.0)) (λ t u. returns k));
  }

  advance-le :
      (k : ℕ) (bytes : Bytes)
      → Returns (λ rest. length rest ≤ length bytes) (split_bytes k bytes >>= λ p. ok p.1)
  advance-le k bytes = Returns-bind (split_bytes-length k bytes) (λ p h. returns (omega (arith, h)))

  skip-le :
      (wire : ℕ) (bytes : Bytes) → Returns (λ rest. length rest ≤ length bytes) (skip wire bytes)
  unfolding skip
  skip-le wire bytes =
      let number = Returns-bind (raw_varint-lt bytes) (λ p h. returns (omega (arith, h))) in
      Returns-if (wire == 0) number (
        Returns-if (wire == 1) (advance-le 8 bytes) (
          Returns-if (wire == 2)
            (Returns-bind (raw_varint-lt bytes) (λ p h.
              Returns-guard (leb p.0 max_safe_integer)
                (Returns-mono (advance-le p.0 p.1) (λ rest k. omega (arith, h, k)))))
            (Returns-if (wire == 5) (advance-le 4 bytes) (fails tt))))

  pub skip_field-Reads : {B : Type 0} (message : B) → Reads n (skip_field message)
  unfolding skip_field
  skip_field-Reads message = record {
    leaves = λ wire bytes h. Returns-bind (skip-le wire bytes) (λ rest k. returns k);
  }

  pub set_field-Reads :
      {A B : Type 0} {read : FieldReader A} (change : A → B)
      → Reads n read
      → Reads n (set_field read change)
  unfolding set_field
  set_field-Reads change r = record {
    leaves = λ wire bytes h. Returns-bind (r.leaves wire bytes h) (λ p k. returns k);
  }

  pub message_field-Reads :
      {A B : Type 0} {parse : Bytes → Result A} (change : A → B)
      → ((payload : Bytes) → length payload < n → IsTotal (parse payload))
      → Reads n (message_field parse change)
  unfolding message_field
  message_field-Reads change t = record {
    leaves = λ wire bytes h.
        Returns-bind (bytes_value-length wire bytes)
          (λ p k. Returns-bind (t p.0 (omega (arith, h, k))) (λ v u. returns (omega (arith, k))));
  }

  pub if-Reads :
      {B : Type 0} (b : Bool) {r q : FieldReader B}
      → Reads n r
      → Reads n q
      → Reads n (if b then r else q)
  if-Reads true r q = r
  if-Reads false r q = q

  fields_loop-IsTotal :
      {B : Type 0} (step : B → ℕ → FieldReader B)
      → ((message : B) (field : ℕ) → Reads n (step message field))
      → (fuel : ℕ) (message : B) (bytes : Bytes) → length bytes ≤ fuel
      → length bytes ≤ n
      → IsTotal (fields_loop step fuel message bytes)
  unfolding fields_loop
  fields_loop-IsTotal step s fuel message [] f l = returns tt
  fields_loop-IsTotal step s zero message (byte ∷ bytes) f l = absurd (omega arith)
  fields_loop-IsTotal step s (suc fuel) message (byte ∷ bytes) f l =
      Returns-bind (key-lt (byte ∷ bytes)) (λ p h.
        Returns-bind ((s message p.0.0).leaves p.0.1 p.1 (omega (arith, h, l))) (λ q k.
          fields_loop-IsTotal step s fuel q.0 q.1 (omega (arith, f, h, k))
            (omega (arith, l, h, k))))

  -- A message ends if its fields do.
  pub parse_fields-IsTotal :
      {B : Type 0} {step : B → ℕ → FieldReader B}
      → ((message : B) (field : ℕ) → Reads n (step message field))
      → (message : B) (bytes : Bytes) → length bytes ≤ n
      → IsTotal (parse_fields step message bytes)
  unfolding parse_fields
  parse_fields-IsTotal {step} s message bytes l =
      fields_loop-IsTotal step s (length bytes) message bytes (omega arith) l

-- A message whose fields are read whatever its length ends.
pub every_parse-IsTotal :
    {B : Type 0} {step : B → ℕ → FieldReader B}
    → ((n : ℕ) (message : B) (field : ℕ) → Reads n (step message field))
    → (message : B) (bytes : Bytes) → IsTotal (parse_fields step message bytes)
every_parse-IsTotal s message bytes =
    parse_fields-IsTotal (length bytes) (s (length bytes)) message bytes (omega arith)

packed_loop-IsTotal :
    {A : Type 0} (one : FieldReader A)
    → ((bytes : Bytes) → Returns (λ p. length p.1 < length bytes) (one 0 bytes))
    → (fuel : ℕ) (bytes : Bytes) → length bytes ≤ fuel
    → IsTotal (packed_loop one fuel bytes)
unfolding packed_loop
packed_loop-IsTotal one o fuel [] f = returns tt
packed_loop-IsTotal one o zero (byte ∷ bytes) f = absurd (omega arith)
packed_loop-IsTotal one o (suc fuel) (byte ∷ bytes) f = Returns-bind (o (byte ∷ bytes)) (λ p h.
    Returns-bind (packed_loop-IsTotal one o fuel p.1 (omega (arith, f, h))) (λ vs u. returns tt))

-- A packed field ends if each of its values takes a byte.
packed-Reads :
    {A : Type 0} (one : FieldReader A) (n : ℕ)
    → ((bytes : Bytes) → Returns (λ p. length p.1 < length bytes) (one 0 bytes))
    → Reads n one
    → Reads n (packed one)
unfolding packed
packed-Reads one n o r = record {
  leaves = λ wire bytes h.
      Returns-if (wire == 0) (Returns-bind (r.leaves wire bytes h) (λ p k. returns k)) (
        Returns-bind ((bytes_value-Reads n).leaves wire bytes h) (λ p k.
          Returns-bind (packed_loop-IsTotal one o (length p.0) p.0 (omega arith))
            (λ vs u. returns k)));
}

varint-lt : (bytes : Bytes) → Returns (λ p. length p.1 < length bytes) (varint 0 bytes)
unfolding varint
varint-lt bytes = raw_varint-lt bytes

pub packed_safe_integers-Reads : (n : ℕ) → Reads n packed_safe_integers
unfolding packed_safe_integers safe_integer
packed_safe_integers-Reads n =
    packed-Reads safe_integer n
      (λ bytes.
        Returns-bind (varint-lt bytes)
          (λ p k. Returns-guard (leb p.0 max_safe_integer) (returns k)))
      (safe_integer-Reads n)

pub packed_int32-Reads : (n : ℕ) → Reads n packed_int32
unfolding packed_int32 int32
packed_int32-Reads n =
    packed-Reads int32 n (λ bytes. Returns-bind (varint-lt bytes) (λ p k. returns k))
      (int32-Reads n)

-- The rules by which the fields of a message are read.
pub ruleset reader_rules = (
  varint-Reads, safe_integer-Reads, int32-Reads, string-Reads, bytes_value-Reads,
  packed_safe_integers-Reads, packed_int32-Reads, skip_field-Reads, set_field-Reads,
  message_field-Reads, if-Reads,
)
