-- ===== src/CachedStore/Keys.antt =====
-- Keys of the cache name what is read: distinct requests have distinct keys.
use lakeql.Base.{ℕ, ◌≡◌, refl, inl, inr, [], ◌∷◌, ◌++◌, Any, sym, ◌∙◌}
use mathlib.Core.List.{append_assoc}
use lakeql.Expr.{Text}
use lakeql.CachedStore.{colon, ObjectStore, range_key}

abbrev pub HasColon : Text → Type 0
HasColon s = Any (λ c. c ≡ colon) s

HasColon-append : (s t : Text) → HasColon (s ++ (colon ∷ t))
HasColon-append [] t = inl refl
HasColon-append (c ∷ s) t = inr (HasColon-append s t)

-- The last colon of a text splits it in one way.
last_colon :
    (s t a b : Text)
    → (HasColon a → ⊥)
    → (HasColon b → ⊥)
    → s ++ (colon ∷ a) ≡ t ++ (colon ∷ b)
    → (s ≡ t) × (a ≡ b)
last_colon [] [] a b na nb e = (refl, cc)
last_colon [] (d ∷ t) a b na nb e =
    let tail : a ≡ t ++ (colon ∷ b) = cc in absurd (na (rw tail (HasColon-append t b)))
last_colon (c ∷ s) [] a b na nb e =
    let tail : s ++ (colon ∷ a) ≡ b = cc in absurd (nb (rw (← tail) (HasColon-append s a)))
last_colon (c ∷ s) (d ∷ t) a b na nb e = let (x, y) = last_colon s t a b na nb (cc) in (cc, y)

-- `String` on a number: a numeral has no colon, and no two numbers share one.
pub record IsNumeral (decimal : ℕ → Text) : Type 0 where
  pub no_colon : (n : ℕ) → HasColon (decimal n) → ⊥
  pub injective : (m n : ℕ) → decimal m ≡ decimal n → m ≡ n

-- A text and two numbers, with colons between them, are told apart.
pub numbered-injective :
    (decimal : ℕ → Text) (p q : Text) (a b m n : ℕ)
    → IsNumeral decimal
    → p ++ (colon ∷ (decimal a ++ (colon ∷ decimal m)))
      ≡ q ++ (colon ∷ (decimal b ++ (colon ∷ decimal n)))
    → (p ≡ q) × (a ≡ b) × (m ≡ n)
numbered-injective decimal p q a b m n num e =
    let grouped : (p ++ (colon ∷ decimal a)) ++ (colon ∷ decimal m)
        ≡ (q ++ (colon ∷ decimal b)) ++ (colon ∷ decimal n) =
      append_assoc p (colon ∷ decimal a) (colon ∷ decimal m)
      ∙ e
      ∙ sym (append_assoc q (colon ∷ decimal b) (colon ∷ decimal n)) in
    let (front, sizes) =
      last_colon (p ++ (colon ∷ decimal a)) (q ++ (colon ∷ decimal b)) (decimal m) (decimal n)
        (num.no_colon m) (num.no_colon n) grouped in
    let (paths, offsets) =
      last_colon p q (decimal a) (decimal b) (num.no_colon a) (num.no_colon b) front in
    (paths, num.injective a b offsets, num.injective m n sizes)

pub range_key-injective :
    {S : Type 0} (inner : ObjectStore S) (p q : Text) (a b m n : ℕ)
    → IsNumeral inner.decimal
    → range_key inner p a m ≡ range_key inner q b n
    → (p ≡ q) × (a ≡ b) × (m ≡ n)
range_key-injective inner p q a b m n num e = numbered-injective inner.decimal p q a b m n num (cc)
