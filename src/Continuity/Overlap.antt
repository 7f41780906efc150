-- ===== src/Continuity/Overlap.antt =====
-- overlapLength and equalSuffixPrefix of internal/continuity/reducer.go.
use utaki_tick_data_platform.Common.{
  ℕ, zero, suc, ◌+◌, ◌-◌, List, [], ◌∷◌, ◌++◌, Bool, true, false, not, ◌&&◌, ◌||◌, bytes_eq, length,
  drop, last_or, ltb, leb, ◌==◌, if◌then◌else◌,
}
use utaki_tick_data_platform.Continuity.{FingerprintOccurrence}

-- The loops that compare n fingerprints. The callers keep n within both lists.
unfoldable pub same_prefix : ℕ → List FingerprintOccurrence → List FingerprintOccurrence → Bool
same_prefix zero previous incoming = true
same_prefix (suc n) (p ∷ previous) (i ∷ incoming) =
    bytes_eq p.fingerprint i.fingerprint && same_prefix n previous incoming
same_prefix (suc n) [] incoming = false
same_prefix (suc n) (p ∷ previous) [] = false

unfoldable pub equal_suffix_prefix :
    List FingerprintOccurrence → List FingerprintOccurrence → ℕ → Bool
equal_suffix_prefix previous incoming n =
    if ltb (length previous) n || ltb (length incoming) n
    then false
    else same_prefix n (drop (length previous - n) previous) incoming

-- The lengths from 1 to the given one that match, in their order.
unfoldable pub candidates : List FingerprintOccurrence → List FingerprintOccurrence → ℕ → List ℕ
candidates previous incoming zero = []
candidates previous incoming (suc n) =
    let shorter = candidates previous incoming n in
    if equal_suffix_prefix previous incoming (suc n) then shorter ++ (suc n ∷ []) else shorter

-- The positions at which n fingerprints fit and are those of the incoming ones.
unfoldable pub occurrence_count : ℕ → List FingerprintOccurrence → List FingerprintOccurrence → ℕ
occurrence_count n [] incoming = if n == 0 then 1 else 0
occurrence_count n (p ∷ previous) incoming =
    let rest = occurrence_count n previous incoming in
    if leb n (length (p ∷ previous)) && same_prefix n (p ∷ previous) incoming
    then rest + 1
    else rest

abbrev pub at_most : ℕ → ℕ → ℕ
at_most a b = if ltb b a then b else a

unfoldable pub choose_longest :
    List FingerprintOccurrence → List FingerprintOccurrence → List ℕ → ℕ × Bool
choose_longest previous incoming [] = (0, false)
choose_longest previous incoming (first ∷ rest) =
    let longest = last_or first rest in
    if not (occurrence_count longest previous incoming == 1) then (0, true) else (longest, false)

-- The length of the overlap, and whether it is ambiguous.
unfoldable pub overlap_length : List FingerprintOccurrence → List FingerprintOccurrence → ℕ × Bool
overlap_length previous incoming =
    choose_longest previous incoming
      (candidates previous incoming (at_most (length previous) (length incoming)))
