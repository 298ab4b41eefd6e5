-- ===== src/Scalars.antt =====
-- How JavaScript and packages/core/src/timestamp.ts compare scalars, and what the program uses of
-- its host: the built-ins of the language and the functions of the expression language, which are
-- parameters.
use lakeql.Base.{
  ℕ, zero, suc, ◌+◌, ◌-◌, ◌*◌, ◌/◌, ◌%◌, ◌^◌, ◌<◌, Ordering, Bool, true, false, ◌&&◌, List, [], ◌∷◌,
  ◌++◌, Option, none, some, arith, leb, ltb, ◌==◌, if◌then◌else◌, length,
}
use lakeql.Base.Int.{ℤ, pos, pos_part, neg_part, compare_ℤ, scale_ℤ, ◌+ℤ◌}
use lakeql.Base.Order.{compare_text, compare_bool}
use lakeql.Base.Result.{Result}
use lakeql.Expr.{
  Text, Number, nan, neg_infinity, pos_infinity, finite, TimestampUnit, millis, micros, nanos,
  TimestampValue, Scalar, text, number, boolean, bigint, ArithmeticOp,
}

-- A whole number in units of 2^-1074.
pub units_per_one : ℕ
units_per_one = 2 ^ 1074

pub units_per_one_pos : 0 < units_per_one
unfolding units_per_one
units_per_one_pos = omega arith

-- `left < right ? -1 : left > right ? 1 : 0` on numbers: NaN is neither below nor above.
unfoldable pub compare_number : Number → Number → Ordering
compare_number nan b = Ordering.eq
compare_number neg_infinity nan = Ordering.eq
compare_number neg_infinity neg_infinity = Ordering.eq
compare_number neg_infinity pos_infinity = Ordering.lt
compare_number neg_infinity (finite b) = Ordering.lt
compare_number pos_infinity nan = Ordering.eq
compare_number pos_infinity neg_infinity = Ordering.gt
compare_number pos_infinity pos_infinity = Ordering.eq
compare_number pos_infinity (finite b) = Ordering.gt
compare_number (finite a) nan = Ordering.eq
compare_number (finite a) neg_infinity = Ordering.gt
compare_number (finite a) pos_infinity = Ordering.lt
compare_number (finite a) (finite b) = compare_ℤ a b

-- The exact value of a BigInt, as a number without rounding.
abbrev pub exact : ℤ → Number
exact n = finite (scale_ℤ units_per_one n)

abbrev pub is_finite : Number → Bool
is_finite (finite k) = true
is_finite nan = false
is_finite neg_infinity = false
is_finite pos_infinity = false

-- `Number.isSafeInteger`
pub is_safe_integer : Number → Bool
is_safe_integer (finite k) =
    let size = pos_part k + neg_part k in
    size % units_per_one == 0 && leb (size / units_per_one) (2 ^ 53 - 1)
is_safe_integer nan = false
is_safe_integer neg_infinity = false
is_safe_integer pos_infinity = false

abbrev pub compare_timestamp_values : TimestampValue → TimestampValue → Ordering
compare_timestamp_values a b = compare_ℤ a.epoch_nanoseconds b.epoch_nanoseconds

pub record Host : Type 0 where
  -- `Date.parse`; `none` is NaN.
  pub date_parse : Text → Option ℤ
  -- `left < right ? -1 : left > right ? 1 : 0` on operands of different types, which are coerced.
  pub mixed_order : Scalar → Scalar → Ordering
  -- Arithmetic on doubles.
  pub arithmetic_op : ArithmeticOp → Number → Number → Number
  -- `Number(n)` on a BigInt: rounding to a double.
  pub number_of_bigint : ℤ → Number
  -- `RegExp.test` for the pattern that LIKE builds: pattern, case-insensitive, value.
  pub like_test : Text → Bool → Text → Result Bool
  -- The functions of the expression language.
  pub call_function : Text → List Scalar → Result Scalar

abbrev pub is_digit : ℕ → Bool
is_digit c = leb b'0' c && leb c b'9'

-- One code unit of a pattern: `d` stands for a digit, any other for itself.
abbrev matches_unit : ℕ → ℕ → Bool
matches_unit p c = if p == b'd' then is_digit c else p == c

-- The rest of the text behind a prefix that matches the pattern.
unfoldable pub strip_pattern : List ℕ → Text → Option Text
strip_pattern [] s = some s
strip_pattern (p ∷ ps) [] = none
strip_pattern (p ∷ ps) (c ∷ s) = if matches_unit p c then strip_pattern ps s else none

-- dddd-dd-ddTdd:dd:dd
abbrev base_pattern : List ℕ
base_pattern =
    b'd' ∷ b'd' ∷ b'd' ∷ b'd' ∷ b'-' ∷ b'd' ∷ b'd' ∷ b'-' ∷ b'd' ∷ b'd' ∷ b'T' ∷ b'd' ∷ b'd' ∷ b':'
    ∷ b'd' ∷ b'd' ∷ b':' ∷ b'd' ∷ b'd' ∷ []

-- The digits before the closing `Z`, if nothing follows it.
unfoldable pub fraction_digits : Text → Option (List ℕ)
fraction_digits [] = none
fraction_digits (c ∷ []) = if c == b'Z' then some [] else none
fraction_digits (c ∷ d ∷ s) =
    let rest = fraction_digits (d ∷ s) in
    if is_digit c then elim rest [ none ↦ none | some ds ↦ some (c ∷ ds) ] else none

-- At least one digit and at most nine.
abbrev fraction_in_range : Option (List ℕ) → Option (List ℕ)
fraction_in_range none = none
fraction_in_range (some ds) = if ltb 0 (length ds) && leb (length ds) 9 then some ds else none

-- What follows the seconds: `Z`, or a point, one to nine digits and `Z`.
unfoldable pub iso_fraction : Text → Option (List ℕ)
iso_fraction [] = none
iso_fraction (c ∷ []) = if c == b'Z' then some [] else none
iso_fraction (c ∷ d ∷ s) = if c == b'.' then fraction_in_range (fraction_digits (d ∷ s)) else none

unfoldable pub decimal : ℕ → List ℕ → ℕ
decimal acc [] = acc
decimal acc (c ∷ ds) = decimal (acc * 10 + (c - b'0')) ds

-- `BigInt(fraction.padEnd(9, "0"))`
unfoldable pub fraction_nanos : List ℕ → ℕ
fraction_nanos ds = decimal 0 ds * 10 ^ (9 - length ds)

unfoldable pub unit_for_fraction : List ℕ → TimestampUnit
unit_for_fraction ds =
    if leb (length ds) 3 then millis else if leb (length ds) 6 then micros else nanos

abbrev zero_millis : Text
zero_millis = b'.' ∷ b'0' ∷ b'0' ∷ b'0' ∷ b'Z' ∷ []

unfoldable pub take : ℕ → Text → Text
take zero s = []
take (suc n) [] = []
take (suc n) (c ∷ s) = c ∷ take n s

module _ (host : Host) where
  unfoldable pub timestamp_of : List ℕ → Option ℤ → Option TimestampValue
  timestamp_of ds none = none
  timestamp_of ds (some ms) = some (record {
    epoch_nanoseconds = scale_ℤ 1_000_000 ms +ℤ pos (fraction_nanos ds);
    unit = unit_for_fraction ds;
    is_adjusted_to_utc = true;
  })

  unfoldable pub timestamp_value_from_iso : Text → Option TimestampValue
  unfolding strip_pattern iso_fraction fraction_digits decimal fraction_nanos unit_for_fraction take
      timestamp_of
  timestamp_value_from_iso s = elim (strip_pattern base_pattern s) [
    | none ↦ none
    | some rest ↦ elim (iso_fraction rest) [
      | none ↦ none
      | some ds ↦ timestamp_of ds (host.date_parse (take 19 s ++ zero_millis))
    ]
  ]

  -- `left < right ? -1 : left > right ? 1 : 0`
  unfoldable pub js_order : Scalar → Scalar → Ordering
  unfolding compare_number
  js_order (text s) (text t) = compare_text s t
  js_order (number a) (number b) = compare_number a b
  js_order (number a) (bigint b) = compare_number a (exact b)
  js_order (bigint a) (number b) = compare_number (exact a) b
  js_order (bigint a) (bigint b) = compare_ℤ a b
  js_order (boolean a) (boolean b) = compare_bool a b
  js_order a b = host.mixed_order a b
