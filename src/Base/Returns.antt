-- ===== src/Base/Returns.antt =====
-- Computations that end, as none meets a bound of the model, and what holds of the values of others.
use mathlib.Core.Bool.{Bool, true, false}
use mathlib.Core.Path.{◌≡◌, refl}
use lakeql.Base.Tests.{if◌then◌else◌}
use lakeql.Base.Result.{
  Result, ok, err, ErrorCode, lance_read_error, fuel_exhausted, ◌>>=◌, ◌>>◌, guard,
}

abbrev pub IsProgramError : ErrorCode → Type 0
IsProgramError fuel_exhausted = ⊥
IsProgramError e = Unit

-- The result is a value that satisfies the predicate, or an error of the program.
pub data Returns {A : Type 0} (P : A → Type 0) : Result A → Type 0 where
  returns : {value : A} → P value → Returns P (ok value)
  fails : {e : ErrorCode} → IsProgramError e → Returns P (err e)

abbrev pub IsTotal : {A : Type 0} → Result A → Type 0
IsTotal r = Returns (λ v. Unit {0}) r

pub Returns-bind :
    {A B : Type 0} {P : A → Type 0} {Q : B → Type 0} {m : Result A} {f : A → Result B}
    → Returns P m
    → ((v : A) → P v → Returns Q (f v))
    → Returns Q (m >>= f)
Returns-bind (fails h) k = fails h
Returns-bind (returns p) k = k _ p

pub Returns-mono :
    {A : Type 0} {P Q : A → Type 0} {m : Result A}
    → Returns P m
    → ((v : A) → P v → Q v)
    → Returns Q m
Returns-mono (fails h) k = fails h
Returns-mono (returns p) k = returns (k _ p)

pub Returns-if :
    {A : Type 0} {P : A → Type 0} (b : Bool) {r q : Result A}
    → Returns P r
    → Returns P q
    → Returns P (if b then r else q)
Returns-if true h k = h
Returns-if false h k = k

pub Returns-guard :
    {B : Type 0} {Q : B → Type 0} (b : Bool) {r : Result B}
    → Returns Q r
    → Returns Q (guard b lance_read_error >> r)
Returns-guard true h = h
Returns-guard false h = fails tt

-- A value is the one that is computed.
pub Returns-eq : {A : Type 0} {r : Result A} → IsTotal r → Returns (λ v. r ≡ ok v) r
Returns-eq (fails h) = fails h
Returns-eq (returns u) = returns refl

pub IsTotal-bind :
    {A B : Type 0} (m : Result A) {f : A → Result B}
    → IsTotal m
    → ((v : A) → IsTotal (f v))
    → IsTotal (m >>= f)
IsTotal-bind m t k = Returns-bind t (λ v u. k v)

-- What a computation returns, unless it fails, has a property.
pub data Ensures {A : Type 0} (P : A → Type 0) : Result A → Type 0 where
  failed : {e : ErrorCode} → Ensures P (err e)
  returned : {v : A} → P v → Ensures P (ok v)

pub Ensures-bind :
    {A B : Type 0} {P : B → Type 0} (m : Result A) {f : A → Result B}
    → ((v : A) → Ensures P (f v))
    → Ensures P (m >>= f)
Ensures-bind (err e) k = failed
Ensures-bind (ok v) k = k v

pub Ensures-if :
    {A : Type 0} {P : A → Type 0} (b : Bool) {r q : Result A}
    → Ensures P r
    → Ensures P q
    → Ensures P (if b then r else q)
Ensures-if true h k = h
Ensures-if false h k = k

ok_injective : {A : Type 0} {x y : A} → ◌≡◌ {A = Result A} (ok x) (ok y) → x ≡ y
ok_injective e = cc

-- What holds of whatever is returned holds of the value that is.
pub Ensures-ok : {A : Type 0} {P : A → Type 0} {r : Result A} {v : A} → Ensures P r → r ≡ ok v → P v
Ensures-ok failed e = absurd cc
Ensures-ok (returned p) e = rw (ok_injective e) at p

-- What an equation for a value shows of what is made of it.
pub Ensures-eq :
    {A B : Type 0} {P : B → Type 0} (m : Result A) (f : A → B)
    → ((v : A) → m ≡ ok v → P (f v))
    → Ensures P (m >>= λ v. ok (f v))
Ensures-eq (err e) f k = failed
Ensures-eq (ok v) f k = returned (k v refl)

-- A step whose value is known by its equation.
pub Ensures-bind_eq :
    {A B : Type 0} {P : B → Type 0} (m : Result A) {f : A → Result B}
    → ((v : A) → m ≡ ok v → Ensures P (f v))
    → Ensures P (m >>= f)
Ensures-bind_eq (err e) k = failed
Ensures-bind_eq (ok v) k = k v refl

pub Returns-ok : {A : Type 0} {P : A → Type 0} {r : Result A} {v : A} → Returns P r → r ≡ ok v → P v
Returns-ok (fails h) e = absurd cc
Returns-ok (returns p) e = rw (ok_injective e) at p

-- The result is a value that satisfies the predicate.
pub data Succeeds {A : Type 0} (P : A → Type 0) : Result A → Type 0 where
  succeeds : {v : A} → P v → Succeeds P (ok v)

pub Succeeds-bind :
    {A B : Type 0} {P : A → Type 0} {Q : B → Type 0} {m : Result A} {f : A → Result B}
    → Succeeds P m
    → ((v : A) → P v → Succeeds Q (f v))
    → Succeeds Q (m >>= f)
Succeeds-bind (succeeds p) k = k _ p

pub Succeeds-if :
    {A : Type 0} {P : A → Type 0} (b : Bool) {r q : Result A}
    → Succeeds P r
    → Succeeds P q
    → Succeeds P (if b then r else q)
Succeeds-if true h k = h
Succeeds-if false h k = k

pub Succeeds-ok :
    {A : Type 0} {P : A → Type 0} {r : Result A} → Succeeds P r → (v : A) × (r ≡ ok v) × P v
Succeeds-ok (succeeds p) = (_, refl, p)
