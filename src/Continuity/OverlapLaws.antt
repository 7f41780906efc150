-- ===== src/Continuity/OverlapLaws.antt =====
-- overlapLength of internal/continuity/reducer.go: what an overlap that is found is.
use utaki_tick_data_platform.Common.{
  ℕ, zero, suc, ◌+◌, ◌-◌, ◌≤◌, ◌≡◌, inl, inr, refl, sym, ap, ◌∙◌, subst, List, [], ◌∷◌, ◌++◌,
  append_assoc, Bool, true, false, not, ◌||◌, Bytes, bytes_eq, bytes_eq→eq, eq→bytes_eq, length,
  length-append, take, drop, last_or, ltb, ◌==◌, if_elim, if_true, if_false, length-drop,
  Bool-cases, ==→eq, arith, &&_true,
}
use utaki_tick_data_platform.Continuity.{FingerprintOccurrence}
use utaki_tick_data_platform.Continuity.Overlap.{
  same_prefix, equal_suffix_prefix, candidates, occurrence_count, at_most, choose_longest,
  overlap_length,
}

abbrev pub fingerprints : List FingerprintOccurrence → List Bytes
fingerprints [] = []
fingerprints (o ∷ os) = o.fingerprint ∷ fingerprints os

same_prefix-eq :
    (n : ℕ) (p i : List FingerprintOccurrence)
    → same_prefix n p i ≡ true
    → length p ≡ n
    → fingerprints i ≡ fingerprints p ++ drop n (fingerprints i)
unfolding same_prefix
same_prefix-eq zero [] i h long = refl
same_prefix-eq zero (x ∷ p) i h long = absurd (omega arith)
same_prefix-eq (suc n) [] i h long = cc
same_prefix-eq (suc n) (x ∷ p) [] h long = cc
same_prefix-eq (suc n) (x ∷ p) (y ∷ i) h long =
    let (same, rest) = &&_true _ _ h in
    λ k.
      sym (bytes_eq→eq x.fingerprint y.fingerprint same) k
      ∷ same_prefix-eq n p i rest (omega arith) k

fingerprints-append-drop :
    (n : ℕ) (p : List FingerprintOccurrence)
    → take n (fingerprints p) ++ fingerprints (drop n p) ≡ fingerprints p
fingerprints-append-drop zero p = refl
fingerprints-append-drop (suc n) [] = refl
fingerprints-append-drop (suc n) (x ∷ p) =
    ap (λ (r : List Bytes). x.fingerprint ∷ r) (fingerprints-append-drop n p)

-- A suffix that matches continues into the incoming occurrences.
equal_suffix_prefix-joins :
    (p i : List FingerprintOccurrence) (n : ℕ)
    → equal_suffix_prefix p i n ≡ true
    → take (length p - n) (fingerprints p) ++ fingerprints i
      ≡ fingerprints p ++ drop n (fingerprints i)
unfolding equal_suffix_prefix
equal_suffix_prefix-joins p i n h = elim (Bool-cases (ltb (length p) n || ltb (length i) n)) [
  | inl out ↦ let k = sym (if_true _ false (same_prefix n (drop (length p - n) p) i) out) ∙ h in cc
  | inr fits ↦
      let matched = sym (if_false _ false (same_prefix n (drop (length p - n) p) i) fits) ∙ h in
      let in_range : n ≤ length p = ground (arith, fits) in
      let long : length (drop (length p - n) p) ≡ n =
        omega (arith, length-drop (length p - n) p, in_range) in
      ap (λ (r : List Bytes). take (length p - n) (fingerprints p) ++ r)
        (same_prefix-eq n (drop (length p - n) p) i matched long)
      ∙ sym (
          append_assoc (take (length p - n) (fingerprints p)) (fingerprints (drop (length p - n) p))
            (drop n (fingerprints i)))
      ∙ ap (λ (r : List Bytes). r ++ drop n (fingerprints i))
          (fingerprints-append-drop (length p - n) p)
]

last_or-snoc : (d : ℕ) (xs : List ℕ) (x : ℕ) → last_or d (xs ++ (x ∷ [])) ≡ x
last_or-snoc d [] x = refl
last_or-snoc d (y ∷ xs) x = last_or-snoc y xs x

equal_suffix_prefix-le :
    (p i : List FingerprintOccurrence) (n : ℕ)
    → equal_suffix_prefix p i n ≡ true
    → n ≤ at_most (length p) (length i)
unfolding equal_suffix_prefix
equal_suffix_prefix-le p i n h = elim (Bool-cases (ltb (length p) n || ltb (length i) n)) [
  | inl out ↦ let k = sym (if_true _ false (same_prefix n (drop (length p - n) p) i) out) ∙ h in cc
  | inr fits ↦ ground (arith, fits)
]

-- No length that matches is longer than the last candidate.
longest_bound :
    (p i : List FingerprintOccurrence) (m k : ℕ)
    → 1 ≤ k
    → k ≤ m
    → equal_suffix_prefix p i k ≡ true
    → k ≤ last_or 0 (candidates p i m)
unfolding candidates
longest_bound p i zero k least most h = absurd (omega arith)
longest_bound p i (suc m) k least most h =
    if_elim (λ (c : List ℕ). k ≤ last_or 0 c) (equal_suffix_prefix p i (suc m))
      (λ matching. omega (arith, last_or-snoc 0 (candidates p i m) (suc m), most))
      (λ other. longest_bound p i m k least (shorter other) h)
  where
    shorter : equal_suffix_prefix p i (suc m) ≡ false → k ≤ m
    shorter other = elim (Bool-cases (k == suc m)) [
      | inl same ↦
          let e = ap (equal_suffix_prefix p i) (==→eq k (suc m) same) in
          let contradiction = sym other ∙ sym e ∙ h in cc
      | inr differs ↦ ground (arith, differs, most)
    ]

-- The last candidate, or 0, matches.
longest_match :
    (p i : List FingerprintOccurrence) (m : ℕ)
    → equal_suffix_prefix p i (last_or 0 (candidates p i m)) ≡ true
unfolding candidates equal_suffix_prefix same_prefix
longest_match p i zero = if_false (ltb (length p) 0 || ltb (length i) 0) false true (ground arith)
longest_match p i (suc m) =
    if_elim (λ (c : List ℕ). equal_suffix_prefix p i (last_or 0 c) ≡ true)
      (equal_suffix_prefix p i (suc m))
      (λ matching.
        ap (equal_suffix_prefix p i) (last_or-snoc 0 (candidates p i m) (suc m)) ∙ matching)
      (λ other. longest_match p i m)

choose_longest-last :
    (p i : List FingerprintOccurrence) (cs : List ℕ) (n : ℕ)
    → choose_longest p i cs ≡ (n, false)
    → last_or 0 cs ≡ n
unfolding choose_longest
choose_longest-last p i [] n h = ap (λ (r : ℕ × Bool). r.0) h
choose_longest-last p i (first ∷ rest) n h =
    if_elim (λ (r : ℕ × Bool). r ≡ (n, false) → last_or first rest ≡ n)
      (not (occurrence_count (last_or first rest) p i == 1))
      (λ several k. let bad = ap (λ (r : ℕ × Bool). r.1) k in cc)
      (λ once k. ap (λ (r : ℕ × Bool). r.0) k) h

-- An overlap of n that is found without ambiguity, or no overlap with n = 0: the fingerprints of the earlier
-- occurrences and then of the incoming ones behind the first n are those of the earlier ones in front of
-- their last n and then of all incoming ones. Nothing is dropped and nothing is repeated.
pub overlap_length-joins :
    (previous incoming : List FingerprintOccurrence) (n : ℕ)
    → overlap_length previous incoming ≡ (n, false)
    → take (length previous - n) (fingerprints previous) ++ fingerprints incoming
      ≡ fingerprints previous ++ drop n (fingerprints incoming)
unfolding overlap_length
overlap_length-joins previous incoming n h =
    let m = at_most (length previous) (length incoming) in
    equal_suffix_prefix-joins previous incoming n (
      ap (equal_suffix_prefix previous incoming)
        (sym (choose_longest-last previous incoming (candidates previous incoming m) n h))
      ∙ longest_match previous incoming m)

same_prefix_of_eq :
    (p i : List FingerprintOccurrence) (rest : List Bytes) (n : ℕ)
    → fingerprints i ≡ fingerprints p ++ rest
    → length p ≡ n
    → same_prefix n p i ≡ true
unfolding same_prefix
same_prefix_of_eq p i rest zero h long = refl
same_prefix_of_eq [] i rest (suc n) h long = absurd (omega arith)
same_prefix_of_eq (x ∷ p) [] rest (suc n) h long = cc
same_prefix_of_eq (x ∷ p) (y ∷ i) rest (suc n) h long =
    let same : x.fingerprint ≡ y.fingerprint = cc in
    let behind : fingerprints i ≡ fingerprints p ++ rest = cc in
    let equal : bytes_eq x.fingerprint y.fingerprint ≡ true =
      eq→bytes_eq x.fingerprint y.fingerprint same in
    ground (arith, equal, same_prefix_of_eq p i rest n behind (omega (arith, long)))

length-fingerprints : (p : List FingerprintOccurrence) → length (fingerprints p) ≡ length p
length-fingerprints [] = refl
length-fingerprints (x ∷ p) = ap suc (length-fingerprints p)

fingerprints-drop :
    (front shared : List Bytes) (p : List FingerprintOccurrence)
    → fingerprints p ≡ front ++ shared
    → fingerprints (drop (length front) p) ≡ shared
fingerprints-drop [] shared p h = h
fingerprints-drop (f ∷ front) shared [] h = cc
fingerprints-drop (f ∷ front) shared (x ∷ p) h = fingerprints-drop front shared p (cc)

-- What ends the earlier fingerprints and begins the incoming ones matches.
shared-equal_suffix_prefix :
    (p i : List FingerprintOccurrence) (front shared rest : List Bytes)
    → fingerprints p ≡ front ++ shared
    → fingerprints i ≡ shared ++ rest
    → equal_suffix_prefix p i (length shared) ≡ true
unfolding equal_suffix_prefix
shared-equal_suffix_prefix p i front shared rest ends begins =
    let long : length p ≡ length front + length shared =
      sym (length-fingerprints p) ∙ ap length ends ∙ length-append front shared in
    let long_i : length i ≡ length shared + length rest =
      sym (length-fingerprints i) ∙ ap length begins ∙ length-append shared rest in
    let at : length p - length shared ≡ length front = omega (arith, long) in
    let last = drop (length p - length shared) p in
    let same : fingerprints last ≡ shared =
      ap (λ (n : ℕ). fingerprints (drop n p)) at ∙ fingerprints-drop front shared p ends in
    let fits : (ltb (length p) (length shared) || ltb (length i) (length shared)) ≡ false =
      ground (arith, long, long_i) in
    if_false _ false (same_prefix (length shared) last i) fits
    ∙ same_prefix_of_eq last i rest (length shared)
        (begins ∙ ap (λ (r : List Bytes). r ++ rest) (sym same))
        (sym (length-fingerprints last) ∙ ap length same)

-- Whatever fingerprints both end the earlier ones and begin the incoming ones are no more than an overlap
-- that is found without ambiguity: no longer overlap is missed.
pub overlap_length_longest :
    (previous incoming : List FingerprintOccurrence) (n : ℕ) (front shared rest : List Bytes)
    → overlap_length previous incoming ≡ (n, false)
    → fingerprints previous ≡ front ++ shared
    → fingerprints incoming ≡ shared ++ rest
    → length shared ≤ n
unfolding overlap_length
overlap_length_longest previous incoming n front shared rest h ends begins =
    let m = at_most (length previous) (length incoming) in
    let matching = shared-equal_suffix_prefix previous incoming front shared rest ends begins in
    let most = equal_suffix_prefix-le previous incoming (length shared) matching in
    elim (Bool-cases (length shared == 0)) [
      | inl nothing ↦ ground (arith, nothing)
      | inr some_shared ↦
          subst (λ (l : ℕ). length shared ≤ l)
            (choose_longest-last previous incoming (candidates previous incoming m) n h)
            (longest_bound previous incoming m (length shared) (ground (arith, some_shared)) most
              matching)
    ]
