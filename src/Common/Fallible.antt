-- ===== src/Common/Fallible.antt =====
-- Go's (value, error) pairs as sums.
use mathlib.Core.Path.{◌≡◌, refl, ap}
use mathlib.Core.Logic.{◌⊎◌, inl, inr}
use mathlib.Core.Bool.{Bool, true, false}

pub data Result {ℓ} (E A : Type ℓ) : Type ℓ where
  ok : A → Result E A
  err : E → Result E A

module _ {ℓ} {E A : Type ℓ} where
  pub Result-cases : (r : Result E A) → ((a : A) × (r ≡ ok a)) ⊎ ((e : E) × (r ≡ err e))
  Result-cases (ok a) = inl (a, refl)
  Result-cases (err e) = inr (e, refl)

-- A test that stops with an error when it fails.
unfoldable pub require : {E : Type 0} → Bool → E → Result E (Unit {0})
require true e = ok tt
require false e = err e

infixl 5 ◌>>=◌ ◌>>◌
unfoldable pub ◌>>=◌ : {E A B : Type 0} → Result E A → (A → Result E B) → Result E B
ok a >>= f = f a
err e >>= f = err e

abbrev pub ◌>>◌ : {E B : Type 0} → Result E (Unit {0}) → Result E B → Result E B
m >> k = m >>= λ _. k

-- An error of one part, read as an error of the whole.
abbrev pub map_err : {E F A : Type 0} → (E → F) → Result E A → Result F A
map_err f (ok a) = ok a
map_err f (err e) = err (f e)

-- Inversion of a successful bind.
pub >>=-eq-ok :
    {E A B : Type 0} (m : Result E A) (f : A → Result E B) {b : B}
    → (m >>= f) ≡ ok b
    → (a : A) × (m ≡ ok a) × (f a ≡ ok b)
unfolding ◌>>=◌
>>=-eq-ok (ok a) f h = (a, refl, h)
>>=-eq-ok (err e) f h = cc

pub >>-eq-ok :
    {E B : Type 0} (c : Bool) (e : E) (k : Result E B) {b : B}
    → (require c e >> k) ≡ ok b
    → (c ≡ true) × (k ≡ ok b)
unfolding ◌>>=◌ require
>>-eq-ok true e k h = (refl, h)
>>-eq-ok false e k h = cc

pub require_holds :
    {E B : Type 0} (c : Bool) (e : E) (k : Result E B) → c ≡ true → (require c e >> k) ≡ k
unfolding ◌>>=◌ require
require_holds true e k h = refl
require_holds false e k h = cc

pub require_fails :
    {E B : Type 0} (c : Bool) (e : E) (k : Result E B) → c ≡ false → (require c e >> k) ≡ err e
unfolding ◌>>=◌ require
require_fails true e k h = cc
require_fails false e k h = refl

pub >>=_of_ok :
    {E A B : Type 0} {m : Result E A} (f : A → Result E B) {a : A} → m ≡ ok a → (m >>= f) ≡ f a
unfolding ◌>>=◌
>>=_of_ok f {a} h = rw h

pub >>=_of_err :
    {E A B : Type 0} {m : Result E A} (f : A → Result E B) {e : E} → m ≡ err e → (m >>= f) ≡ err e
unfolding ◌>>=◌
>>=_of_err f h = rw h

pub map_err-eq-ok :
    {E F A : Type 0} (f : E → F) (r : Result E A) (a : A) → map_err f r ≡ ok a → r ≡ ok a
map_err-eq-ok f (ok a') a h = cc
map_err-eq-ok f (err e) a h = cc

-- A call that fails does not return, whatever state it leaves.
pub failed_call :
    {E A S C : Type 0} {e : E} {a : A} {s t : S} → ◌≡◌ {A = Result E A × S} (err e, s) (ok a, t) → C
failed_call {E} {A} {S} h =
    let first : ◌≡◌ {A = Result E A} (err _) (ok _) = ap (λ (p : Result E A × S). p.0) h in cc

-- What holds of both results holds of the choice.
pub result_elim {ℓ κ} :
    {E A B : Type ℓ} (P : B → Type κ) (r : Result E A) {f : E → B} {g : A → B}
    → ((e : E) → r ≡ err e → P (f e))
    → ((a : A) → r ≡ ok a → P (g a))
    → P (elim r [ err e ↦ f e | ok a ↦ g a ])
result_elim P (ok a) bad good = good a refl
result_elim P (err e) bad good = bad e refl
