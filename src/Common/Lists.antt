-- ===== src/Common/Lists.antt =====
-- Lists measured, cut and sliced by native numbers, under the library's names. A Go slice
-- expression `s[a:b]` is `slice a b s`, and `s[a:]` is `drop a s`.
use Prim.Native.Nat.{ℕ, zero, suc, ◌+◌, ◌-◌, ◌≤◌, min}
use mathlib.Core.Path.{◌≡◌, refl, sym, ap, ◌∙◌}
use mathlib.Core.List.{List, [], ◌∷◌, ◌++◌}
use mathlib.Core.Option.{Option, none, some}
use native.Mathlib.Omega.{arith}

module _ {ℓ} {A : Type ℓ} where
  abbrev pub length : List A → ℕ
  length [] = 0
  length (x ∷ xs) = suc (length xs)

  abbrev pub get_elem? : List A → ℕ → Option A
  get_elem? [] i = none
  get_elem? (x ∷ xs) zero = some x
  get_elem? (x ∷ xs) (suc i) = get_elem? xs i

  abbrev pub take : ℕ → List A → List A
  take zero xs = []
  take (suc n) [] = []
  take (suc n) (x ∷ xs) = x ∷ take n xs

  abbrev pub drop : ℕ → List A → List A
  drop zero xs = xs
  drop (suc n) [] = []
  drop (suc n) (x ∷ xs) = drop n xs

  abbrev pub last_or : A → List A → A
  last_or d [] = d
  last_or d (x ∷ xs) = last_or x xs

  -- A predicate by recursion computes to tuples, which the tactics read and build.
  abbrev pub All {κ} : (A → Type κ) → List A → Type κ
  All P [] = Unit {κ}
  All P (x ∷ xs) = P x × All P xs

module _ {ℓ} {A : Type ℓ} where
  abbrev pub slice : ℕ → ℕ → List A → List A
  slice a b xs = take (b - a) (drop a xs)

  pub length-append : (xs ys : List A) → length (xs ++ ys) ≡ length xs + length ys
  length-append [] ys = omega arith
  length-append (x ∷ xs) ys = omega (arith, length-append xs ys)

  pub take-append-drop : (n : ℕ) (xs : List A) → take n xs ++ drop n xs ≡ xs
  take-append-drop zero xs = refl
  take-append-drop (suc n) [] = refl
  take-append-drop (suc n) (x ∷ xs) = ap (λ r. x ∷ r) (take-append-drop n xs)

  pub length-take : (n : ℕ) (xs : List A) → length (take n xs) ≡ min n (length xs)
  length-take zero xs = omega arith
  length-take (suc n) [] = omega arith
  length-take (suc n) (x ∷ xs) = omega (arith, length-take n xs)

  pub length-drop : (n : ℕ) (xs : List A) → length (drop n xs) ≡ length xs - n
  length-drop zero xs = omega arith
  length-drop (suc n) [] = omega arith
  length-drop (suc n) (x ∷ xs) = omega (arith, length-drop n xs)

  pub take-append_length : (n : ℕ) (xs ys : List A) → length xs ≡ n → take n (xs ++ ys) ≡ xs
  take-append_length zero [] ys h = refl
  take-append_length (suc n) [] ys h = absurd (omega arith)
  take-append_length zero (x ∷ xs) ys h = absurd (omega arith)
  take-append_length (suc n) (x ∷ xs) ys h =
      ap (λ r. x ∷ r) (take-append_length n xs ys (omega arith))

  pub drop-append_length :
      (n m : ℕ) (xs ys : List A) → length xs ≡ n → drop (n + m) (xs ++ ys) ≡ drop m ys
  drop-append_length zero m [] ys h = ap (λ (k : ℕ). drop k ys) (omega arith)
  drop-append_length (suc n) m [] ys h = absurd (omega arith)
  drop-append_length zero m (x ∷ xs) ys h = absurd (omega arith)
  drop-append_length (suc n) m (x ∷ xs) ys h =
      ap (λ (k : ℕ). drop k (x ∷ xs ++ ys)) (step n m) ∙ drop-append_length n m xs ys (omega arith)
    where
      step : (n m : ℕ) → suc n + m ≡ suc (n + m)
      step n m = omega arith

  pub take-nil : (n : ℕ) → take {A = A} n [] ≡ []
  take-nil zero = refl
  take-nil (suc n) = refl

  pub drop-nil : (n : ℕ) → drop {A = A} n [] ≡ []
  drop-nil zero = refl
  drop-nil (suc n) = refl

  pub All-append {κ} : (P : A → Type κ) (xs ys : List A) → All P xs → All P ys → All P (xs ++ ys)
  All-append P [] ys hx hy = hy
  All-append P (x ∷ xs) ys hx hy = (hx.0, All-append P xs ys hx.1 hy)

  pub All-append_left {κ} : (P : A → Type κ) (xs ys : List A) → All P (xs ++ ys) → All P xs
  All-append_left P [] ys h = tt
  All-append_left P (x ∷ xs) ys h = (h.0, All-append_left P xs ys h.1)

  pub All-append_right {κ} : (P : A → Type κ) (xs ys : List A) → All P (xs ++ ys) → All P ys
  All-append_right P [] ys h = h
  All-append_right P (x ∷ xs) ys h = All-append_right P xs ys h.1

  pub All-take {κ} : (P : A → Type κ) (n : ℕ) (xs : List A) → All P xs → All P (take n xs)
  All-take P zero xs h = tt
  All-take P (suc n) [] h = tt
  All-take P (suc n) (x ∷ xs) h = (h.0, All-take P n xs h.1)

  pub All-drop {κ} : (P : A → Type κ) (n : ℕ) (xs : List A) → All P xs → All P (drop n xs)
  All-drop P zero xs h = h
  All-drop P (suc n) [] h = tt
  All-drop P (suc n) (x ∷ xs) h = All-drop P n xs h.1

module _ {ℓ} {A : Type ℓ} where
  pub drop-drop : (a b : ℕ) (xs : List A) → a ≤ b → drop (b - a) (drop a xs) ≡ drop b xs
  drop-drop zero b xs h = ap (λ (k : ℕ). drop k xs) (omega arith)
  drop-drop (suc a) zero xs h = absurd (omega arith)
  drop-drop (suc a) (suc b) [] h = drop-nil (suc b - suc a)
  drop-drop (suc a) (suc b) (x ∷ xs) h =
      ap (λ (k : ℕ). drop k (drop a xs)) (omega arith) ∙ drop-drop a b xs (omega arith)

  -- The part of `xs ++ ys` behind `xs`.
  pub drop-append : (n : ℕ) (xs ys : List A) → length xs ≡ n → drop n (xs ++ ys) ≡ ys
  drop-append zero [] ys h = refl
  drop-append (suc n) [] ys h = absurd (omega arith)
  drop-append zero (x ∷ xs) ys h = absurd (omega arith)
  drop-append (suc n) (x ∷ xs) ys h = drop-append n xs ys (omega arith)

  pub slice_skip :
      (n a b : ℕ) (xs ys : List A) → length xs ≡ n → slice (n + a) (n + b) (xs ++ ys) ≡ slice a b ys
  slice_skip n a b xs ys h =
      ap (λ (k : ℕ). take k (drop (n + a) (xs ++ ys))) (omega arith)
      ∙ ap (take (b - a)) (drop-append_length n a xs ys h)

  -- A slice and what lies behind it.
  pub slice-append-drop : (a b : ℕ) (xs : List A) → a ≤ b → slice a b xs ++ drop b xs ≡ drop a xs
  slice-append-drop a b xs h =
      ap (λ r. take (b - a) (drop a xs) ++ r) (sym (drop-drop a b xs h))
      ∙ take-append-drop (b - a) (drop a xs)

  pub length-slice : (a b : ℕ) (xs : List A) → b ≤ length xs → length (slice a b xs) ≡ b - a
  length-slice a b xs h = omega (arith, length-take (b - a) (drop a xs), length-drop a xs)

  take-append-take : (n m : ℕ) (xs : List A) → take n xs ++ take m (drop n xs) ≡ take (n + m) xs
  take-append-take zero m xs = ap (λ (k : ℕ). take k xs) (omega arith)
  take-append-take (suc n) m [] = take-nil m ∙ sym (take-nil (suc n + m))
  take-append-take (suc n) m (x ∷ xs) =
      ap (λ r. x ∷ r) (take-append-take n m xs) ∙ ap (λ (k : ℕ). take k (x ∷ xs)) (one n m)
    where
      one : (n m : ℕ) → suc (n + m) ≡ suc n + m
      one n m = omega arith

  -- Two slices side by side.
  pub slice-append-slice :
      (a b c : ℕ) (xs : List A) → a ≤ b → b ≤ c → slice a b xs ++ slice b c xs ≡ slice a c xs
  slice-append-slice a b c xs h k =
      ap (λ r. slice a b xs ++ take (c - b) r) (sym (drop-drop a b xs h))
      ∙ take-append-take (b - a) (c - b) (drop a xs)
      ∙ ap (λ (n : ℕ). take n (drop a xs)) (omega arith)

  pub append_cong : {as' bs cs ds : List A} → as' ≡ bs → cs ≡ ds → as' ++ cs ≡ bs ++ ds
  append_cong p q = λ i. p i ++ q i

  pub take-take : (m n : ℕ) (xs : List A) → m ≤ n → take m (take n xs) ≡ take m xs
  take-take zero n xs h = refl
  take-take (suc m) zero xs h = absurd (omega arith)
  take-take (suc m) (suc n) [] h = refl
  take-take (suc m) (suc n) (x ∷ xs) h = ap (λ r. x ∷ r) (take-take m n xs (omega arith))

  drop-take : (m n : ℕ) (xs : List A) → drop m (take n xs) ≡ take (n - m) (drop m xs)
  drop-take zero n xs = ap (λ (k : ℕ). take k xs) (omega arith)
  drop-take (suc m) zero xs =
      let none_left : 0 - suc m ≡ 0 = omega arith in
      sym (ap (λ (k : ℕ). take k (drop (suc m) xs)) none_left)
  drop-take (suc m) (suc n) [] = sym (take-nil (suc n - suc m))
  drop-take (suc m) (suc n) (x ∷ xs) =
      drop-take m n xs ∙ ap (λ (k : ℕ). take k (drop m xs)) (omega arith)

  -- A slice in front of a cut.
  pub slice-take : (a b n : ℕ) (xs : List A) → b ≤ n → slice a b (take n xs) ≡ slice a b xs
  slice-take a b n xs h =
      ap (take (b - a)) (drop-take a n xs) ∙ take-take (b - a) (n - a) (drop a xs) (omega arith)

  pub take-append_le : (n : ℕ) (xs ys : List A) → n ≤ length xs → take n (xs ++ ys) ≡ take n xs
  take-append_le zero xs ys h = refl
  take-append_le (suc n) [] ys h = absurd (omega arith)
  take-append_le (suc n) (x ∷ xs) ys h = ap (λ r. x ∷ r) (take-append_le n xs ys (omega arith))

module _ {ℓ} {A : Type ℓ} where
  pub All-mono {κ} :
      (P Q : A → Type κ) → ((x : A) → P x → Q x) → (xs : List A) → All P xs → All Q xs
  All-mono P Q f [] h = tt
  All-mono P Q f (x ∷ xs) h = (f x h.0, All-mono P Q f xs h.1)
