-- ===== src/Continuity/Tests.antt =====
-- The theorems on overlaps at concrete occurrences.
use utaki_tick_data_platform.Common.{
  ℕ, ◌≤◌, ◌≡◌, refl, List, [], ◌∷◌, ◌++◌, true, false, pos, bytes_eq, take, drop,
}
use utaki_tick_data_platform.Protocol.Tests.{sample_tick, sample_batch}
use utaki_tick_data_platform.Continuity.{FingerprintOccurrence}
use utaki_tick_data_platform.Continuity.Overlap.{
  same_prefix, equal_suffix_prefix, candidates, occurrence_count, choose_longest, overlap_length,
}
use utaki_tick_data_platform.Continuity.OverlapLaws.{
  fingerprints, overlap_length-joins, overlap_length_longest,
}

abbrev occurrence : ℕ → FingerprintOccurrence
occurrence n = record {
  fingerprint = n ∷ [];
  time_msc = pos 1_700_000_000_123;
  gateway_sequence = 4;
  record_ordinal = 0;
  tick = sample_tick;
  batch = sample_batch;
  raw_key = [];
  raw_hash = [];
  producer_instance_id = b'i' ∷ [];
}

abbrev previous : List FingerprintOccurrence
previous = occurrence 1 ∷ occurrence 2 ∷ occurrence 3 ∷ []

abbrev incoming : List FingerprintOccurrence
incoming = occurrence 2 ∷ occurrence 3 ∷ occurrence 4 ∷ []

overlap : overlap_length previous incoming ≡ (2, false)
unfolding overlap_length choose_longest candidates equal_suffix_prefix same_prefix occurrence_count
    bytes_eq
overlap = refl

-- The last of the earlier fingerprints occurs twice.
ambiguous :
    overlap_length (occurrence 2 ∷ occurrence 1 ∷ occurrence 2 ∷ []) (occurrence 2 ∷ []) ≡ (0, true)
unfolding overlap_length choose_longest candidates equal_suffix_prefix same_prefix occurrence_count
    bytes_eq
ambiguous = refl

overlap_length-joins_example :
    take 1 (fingerprints previous) ++ fingerprints incoming
    ≡ fingerprints previous ++ drop 2 (fingerprints incoming)
overlap_length-joins_example = overlap_length-joins previous incoming 2 overlap

overlap_length_longest_example : 2 ≤ 2
overlap_length_longest_example =
    overlap_length_longest previous incoming 2 ((1 ∷ []) ∷ []) ((2 ∷ []) ∷ (3 ∷ []) ∷ [])
      ((4 ∷ []) ∷ []) overlap refl refl
