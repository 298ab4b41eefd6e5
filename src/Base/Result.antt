-- ===== src/Base/Result.antt =====
-- packages/core/src/errors.ts: a thrown error is a value. The messages and the detail records are
-- left out; the codes are those that the modelled code throws, and `host_error` is what a built-in
-- of the language throws. `fuel_exhausted` is no error of the program: it marks a bound of the model
-- that is met, and theorems show that it is not.
use mathlib.Core.Bool.{Bool, true, false}
use mathlib.Core.Path.{◌≡◌, refl}

pub data ErrorCode : Type 0 where
  type_error unknown_column validation_error budget_exceeded sql_unsupported : ErrorCode
  object_not_found lance_read_error unsupported_lance_feature bookmark_invalid host_error :
      ErrorCode
  fuel_exhausted : ErrorCode

pub data Result {ℓ} (Value : Type ℓ) : Type ℓ where
  err : ErrorCode → Result Value
  ok : Value → Result Value

-- `if (!test) throw`
abbrev pub guard : Bool → ErrorCode → Result (Unit {0})
guard passed code = elim passed [ false ↦ err code | true ↦ ok tt ]

-- What follows a statement runs unless the statement threw.
infixl 5 ◌>>=◌
abbrev pub ◌>>=◌ {ℓ₁ ℓ₂} :
    {In : Type ℓ₁} {Out : Type ℓ₂} → Result In → (In → Result Out) → Result Out
err code >>= next = err code
ok value >>= next = next value

infixl 5 ◌>>◌
abbrev pub ◌>>◌ {ℓ₂} : {Out : Type ℓ₂} → Result (Unit {0}) → Result Out → Result Out
first >> second = first >>= λ done. second

pub >>=-eq-ok {ℓ₁ ℓ₂} :
    {In : Type ℓ₁} {Out : Type ℓ₂} (first : Result In) (next : In → Result Out) {out : Out}
    → first >>= next ≡ ok out
    → (value : In) × (first ≡ ok value) × (next value ≡ ok out)
>>=-eq-ok (err code) next thrown = cc
>>=-eq-ok (ok value) next returned = (value, refl, returned)
