-- ===== src/Base/Fallible.antt =====
-- Fallible code: Rust's `Result<A, E>` and the `?` operator as a bind.
use mathlib.Core.Path.{◌≡◌, refl, ap}
use mathlib.Core.Logic.{◌⊎◌, inl, inr}
use mathlib.Core.Bool.{Bool, true, false}

pub data Result {ℓ κ} (E : Type ℓ) (A : Type κ) : Type (ℓ ⊔ κ) where
  ok : A → Result E A
  err : E → Result E A

infixl 5 ◌>>=◌ ◌>>◌
abbrev pub ◌>>=◌ {ℓ} : {E A B : Type ℓ} → Result E A → (A → Result E B) → Result E B
ok a >>= f = f a
err e >>= f = err e

abbrev pub ◌>>◌ : {E B : Type 0} → Result E (Unit {0}) → Result E B → Result E B
m >> k = m >>= λ _. k

-- `if b { bail!(e) }`
abbrev pub bail_if : {E : Type 0} → Bool → E → Result E (Unit {0})
bail_if true e = err e
bail_if false e = ok tt

abbrev pub is_ok {ℓ κ} : {E : Type ℓ} {A : Type κ} → Result E A → Bool
is_ok (ok a) = true
is_ok (err e) = false

-- Inversion of a successful bind, for proofs where the parts stay shut.
pub >>=-eq-ok {ℓ} :
    {E A B : Type ℓ} (first : Result E A) (next : A → Result E B) {result : B}
    → (first >>= next) ≡ ok result
    → (x : A) × (first ≡ ok x) × (next x ≡ ok result)
>>=-eq-ok (ok x) next h = (x, refl, h)
>>=-eq-ok (err failure) next h = cc

pub bail_if-ok : {E : Type 0} {b : Bool} (e : E) {u : Unit {0}} → bail_if b e ≡ ok u → b ≡ false
bail_if-ok {b = true} e h = cc
bail_if-ok {b = false} e h = refl

pub ok-inj : {E A : Type 0} {x y : A} → Path (Result E A) (ok x) (ok y) → x ≡ y
ok-inj h = cc h

pub err-ne-ok : {E A : Type 0} {e : E} {a : A} → Path (Result E A) (err e) (ok a) → ⊥
err-ne-ok h = cc h

pub ok_pair-inj :
    {E A B : Type 0} {a b : A} {x y : B}
    → Path (Result E (A × B)) (ok (a, x)) (ok (b, y))
    → (a ≡ b) × (x ≡ y)
ok_pair-inj h = (ap (λ p. p.0) (ok-inj h), ap (λ p. p.1) (ok-inj h))

pub Result-cases {ℓ κ} :
    {E : Type ℓ} {A : Type κ} (r : Result E A) → ((a : A) × (r ≡ ok a)) ⊎ ((e : E) × (r ≡ err e))
Result-cases (ok a) = inl (a, refl)
Result-cases (err e) = inr (e, refl)
