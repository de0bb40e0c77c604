-- ===== src/Base/Outcome.antt =====
-- A Go result `(value, error)`.
use mathlib.Core.Path.{◌≡◌, refl, subst}
use native.Mathlib.Omega.{arith}
use mathlib.Core.Bool.{Bool, true, false}

pub data Result {ℓ κ} (E : Type κ) (A : Type ℓ) : Type (ℓ ⊔ κ) where
  ok : A → Result E A
  err : E → Result E A

infixl 5 ◌>>=◌ ◌>>◌
-- Shut, so that the rule for chains below finds its parts.
unfoldable pub ◌>>=◌ : {E A B : Type 0} → Result E A → (A → Result E B) → Result E B
ok a >>= f = f a
err e >>= f = err e

abbrev pub ◌>>◌ : {E B : Type 0} → Result E (Unit {0}) → Result E B → Result E B
m >> k = m >>= λ _. k

-- `if bad { return error }`
abbrev pub fail_if : {E : Type 0} → Bool → E → Result E (Unit {0})
fail_if true e = err e
fail_if false e = ok tt

pub >>=-eq-ok :
    {E A B : Type 0} (m : Result E A) (f : A → Result E B) {b : B}
    → (m >>= f) ≡ ok b
    → (a : A) × (m ≡ ok a) × (f a ≡ ok b)
unfolding ◌>>=◌
>>=-eq-ok (ok a) f h = (a, refl, h)
>>=-eq-ok (err e) f h = cc

-- A condition on the value of a successful result.
pub data Ensures {E A : Type 0} (P : A → Type 0) : Result E A → Type 0 where
  of_ok : {a : A} → P a → Ensures P (ok a)
  of_err : {e : E} → Ensures P (err e)

-- The rule for a chain: each step hands on the equation of its success.
pub Ensures->>= :
    {E A B : Type 0} {P : B → Type 0} {m : Result E A} {f : A → Result E B}
    → ((a : A) → m ≡ ok a → Ensures P (f a))
    → Ensures P (m >>= f)
unfolding ◌>>=◌
Ensures->>= {m = ok a} h = h a refl
Ensures->>= {m = err e} h = of_err

pub Ensures-map :
    {E A : Type 0} {P Q : A → Type 0} {r : Result E A}
    → Ensures P r
    → ((a : A) → P a → Q a)
    → Ensures Q r
Ensures-map (of_ok h) f = of_ok (f _ h)
Ensures-map of_err f = of_err

Ensures_value :
    {E A : Type 0} {P : A → Type 0} {r : Result E A} → Ensures P r → (a : A) → r ≡ ok a → P a
Ensures_value {P} (of_ok h) a e = subst P (ground arith) h
Ensures_value of_err a e = cc

pub Ensures-ok :
    {E A : Type 0} {P : A → Type 0} {r : Result E A} {a : A} → Ensures P r → r ≡ ok a → P a
Ensures-ok {a} h e = Ensures_value h a e

pub fail_if-ok : {E : Type 0} (b : Bool) (e : E) {t : Unit {0}} → fail_if b e ≡ ok t → b ≡ false
fail_if-ok true e h = cc
fail_if-ok false e h = refl
