-- ===== src/Prelude/Fallible.antt =====
-- Go's `(T, error)` results: a value, or the error that the function returns.
use mathlib.Core.Path.{◌≡◌, refl}
use mathlib.Core.Logic.{◌⊎◌, inl, inr}
use mathlib.Core.Bool.{Bool, true, false}

pub data Result {ℓ κ} (E : Type ℓ) (A : Type κ) : Type (ℓ ⊔ κ) where
  ok : A → Result E A
  err : E → Result E A

-- A function that returns an `error` alone; `ok tt` is Go's nil.
abbrev pub Check : Type 0 → Type 0
Check E = Result E (Unit {0})

infixl 5 ◌>>=◌
abbrev pub ◌>>=◌ {ℓ κ μ} :
    {E : Type ℓ} {A : Type κ} {B : Type μ} → Result E A → (A → Result E B) → Result E B
err refused >>= next = err refused
ok got >>= next = next got

infixl 5 ◌>>◌
abbrev pub ◌>>◌ {ℓ μ} : {E : Type ℓ} {B : Type μ} → Result E (Unit {0}) → Result E B → Result E B
check >> rest = check >>= λ passed. rest

-- `if refused { return e }`.
abbrev pub refuse_if {ℓ} : {E : Type ℓ} → Bool → E → Result E (Unit {0})
refuse_if true e = err e
refuse_if false e = ok tt

-- `fmt.Errorf("…: %w", err)`: the error is wrapped, the value passed on.
abbrev pub wrap {ℓ κ μ} : {E : Type ℓ} {F : Type κ} {A : Type μ} → (E → F) → Result E A → Result F A
wrap f (ok a) = ok a
wrap f (err e) = err (f e)

-- What returned a value in two steps returned one in each.
pub >>=-eq-ok {ℓ κ μ} :
    {E : Type ℓ} {A : Type κ} {B : Type μ} (first : Result E A) (next : A → Result E B) {last : B}
    → (first >>= next) ≡ ok last
    → (got : A) × (first ≡ ok got) × (next got ≡ ok last)
>>=-eq-ok (err refused) next same = cc
>>=-eq-ok (ok got) next same = (got, refl, same)

pub Result-cases {ℓ κ} :
    {E : Type ℓ} {A : Type κ} (r : Result E A) → ((a : A) × (r ≡ ok a)) ⊎ ((e : E) × (r ≡ err e))
Result-cases (ok a) = inl (a, refl)
Result-cases (err e) = inr (e, refl)

-- What holds of a value, if there is one.
abbrev pub Ensures {ℓ κ} : {E : Type ℓ} {A : Type κ} → (A → Type 0) → Result E A → Type 0
Ensures P (ok a) = P a
Ensures P (err e) = Unit

pub Ensures->>= {ℓ κ μ} :
    {E : Type ℓ} {A : Type κ} {B : Type μ} (P : B → Type 0) (m : Result E A) (f : A → Result E B)
    → ((a : A) → Ensures P (f a))
    → Ensures P (m >>= f)
Ensures->>= P (ok a) f h = h a
Ensures->>= P (err e) f h = tt

pub Ensures-ok {ℓ κ} :
    {E : Type ℓ} {A : Type κ} (P : A → Type 0) (r : Result E A) {a : A}
    → Ensures P r
    → r ≡ ok a
    → P a
Ensures-ok P r h e = rw e at h

-- What was wrapped, and not refused, had passed.
pub wrap-eq-ok {ℓ κ μ} :
    {E : Type ℓ} {F : Type κ} {A : Type μ} (f : E → F) (r : Result E A) {a : A}
    → wrap f r ≡ ok a
    → r ≡ ok a
wrap-eq-ok f (ok a) h = cc
wrap-eq-ok f (err e) h = cc

pub refuse_if-eq-ok {ℓ} : {E : Type ℓ} (b : Bool) (e : E) → refuse_if b e ≡ ok tt → b ≡ false
refuse_if-eq-ok true e h = cc
refuse_if-eq-ok false e h = refl

-- Two values that a function returned are one.
pub eq_of_ok {ℓ κ} :
    {E : Type ℓ} {A : Type κ} {a b : A} → (let r : Result E A = ok a in r ≡ ok b) → a ≡ b
eq_of_ok h = cc
