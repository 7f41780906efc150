-- ===== src/Protocol/Buffer.antt =====
-- The state of a `writer` is what it has written, and that of a `reader` what it has not read:
-- data[off:]. Both may fail with a protocol error.
use utaki_tick_data_platform.Common.{◌≡◌, refl, Bool, true, false, Result, ok, err, Bytes}
use utaki_tick_data_platform.Protocol.{ErrorCode}

abbrev pub Buffer : Type 0 → Type 0
Buffer A = Bytes → Result ErrorCode (A × Bytes)

abbrev continue :
    {A B : Type 0} → Result ErrorCode (A × Bytes) → (A → Buffer B) → Result ErrorCode (B × Bytes)
continue (ok (a, s)) f = f a s
continue (err e) f = err e

infixr 5 ◌>>=◌ ◌>>◌
unfoldable pub ◌>>=◌ : {A B : Type 0} → Buffer A → (A → Buffer B) → Buffer B
◌>>=◌ m f s = continue (m s) f

abbrev pub ◌>>◌ : {B : Type 0} → Buffer (Unit {0}) → Buffer B → Buffer B
m >> k = m >>= λ _. k

unfoldable pub pure : {A : Type 0} → A → Buffer A
pure a s = ok (a, s)

unfoldable pub guard : Bool → ErrorCode → Buffer (Unit {0})
guard true e s = ok (tt, s)
guard false e s = err e

module _ {A B : Type 0} where
  pub >>=_ok :
      (m : Buffer A) (f : A → Buffer B) (s t : Bytes) (a : A)
      → m s ≡ ok (a, t)
      → (m >>= f) s ≡ f a t
  unfolding ◌>>=◌
  >>=_ok m f s t a h = λ i. continue (h i) f

  invert :
      (r : Result ErrorCode (A × Bytes)) (f : A → Buffer B) (t : Bytes) (b : B)
      → continue r f ≡ ok (b, t)
      → (a : A) × (u : Bytes) × (r ≡ ok (a, u)) × (f a u ≡ ok (b, t))
  invert (ok (a, u)) f t b h = (a, u, refl, h)
  invert (err e) f t b h = cc

  pub >>=-eq-ok :
      (m : Buffer A) (f : A → Buffer B) (s t : Bytes) (b : B)
      → (m >>= f) s ≡ ok (b, t)
      → (a : A) × (u : Bytes) × (m s ≡ ok (a, u)) × (f a u ≡ ok (b, t))
  unfolding ◌>>=◌
  >>=-eq-ok m f s t b h = invert (m s) f t b h

module _ {B : Type 0} where
  pub guard-true : (k : Buffer B) (e : ErrorCode) (s : Bytes) → (guard true e >> k) s ≡ k s
  unfolding ◌>>=◌ guard
  guard-true k e s = refl

  pub guard_holds :
      (c : Bool) (e : ErrorCode) (k : Buffer B) (s : Bytes) → c ≡ true → (guard c e >> k) s ≡ k s
  unfolding ◌>>=◌ guard
  guard_holds true e k s h = refl
  guard_holds false e k s h = cc

  pub pure_lem : (b : B) (s : Bytes) → pure b s ≡ ok (b, s)
  unfolding pure
  pure_lem b s = refl

  pub guard-eq-ok :
      (c : Bool) (e : ErrorCode) (k : Buffer B) (s t : Bytes) (b : B)
      → (guard c e >> k) s ≡ ok (b, t)
      → (c ≡ true) × (k s ≡ ok (b, t))
  unfolding ◌>>=◌ guard
  guard-eq-ok true e k s t b h = (refl, h)
  guard-eq-ok false e k s t b h = cc
