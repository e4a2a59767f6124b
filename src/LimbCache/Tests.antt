-- ===== src/LimbCache/Tests.antt =====
-- The loop over a window's candidates in new_src/worker_gpu.c at base 90.
use gap_miner_v.Prelude.{
  ℕ, ◌+◌, ◌<◌, ◌≡◌, refl, arith, true, false, none, some, List, [], ◌∷◌, get_or, length, inl,
}
use gap_miner_v.Gmp.Model.{model}
use gap_miner_v.Primes.Trial.{no_divisor-IsPrime}
use gap_miner_v.Primality.Builtins.{
  leading_zeros, leading_zeros-LeadingZeros, trailing_zeros, trailing_zeros-CountsTrailing,
  export_words, export_words-ExportsWords,
}
use gap_miner_v.LimbCache.{LimbCache, CandidateScan, cache_reset, scan_step, scan_candidates}
use gap_miner_v.LimbCache.Tracks.{Tracks, number_passes}
use gap_miner_v.LimbCache.Scan.{
  scan_with, AllOffsets, scan_candidates-scan_with, scan_candidates_of_prime,
}

abbrev before : LimbCache
before = record { limbs = 1 ∷ 2 ∷ []; nlimbs = 2; last_offset = 5; valid = true }

reset-Tracks : Tracks 90 (cache_reset before)
unfolding cache_reset
reset-Tracks = inl refl

abbrev offsets : List ℕ
offsets = 7 ∷ 11 ∷ 19 ∷ 13 ∷ []

offsets-AllOffsets : AllOffsets offsets
offsets-AllOffsets = (omega arith, (omega arith, (omega arith, (omega arith, tt))))

-- Verdicts of the GPU: the second candidate closes the window.
gpu_scan :
    (scan_candidates model export_words leading_zeros trailing_zeros true 4
      (some (false ∷ true ∷ false ∷ []))
      before
      90
      10
      0
      offsets).is_prime
    ≡ false ∷ true ∷ []
unfolding scan_candidates scan_step
gpu_scan = refl

scan_candidates-scan_with_example :
    scan_candidates model export_words leading_zeros trailing_zeros true 4 none
      (cache_reset before)
      90
      15
      0
      offsets
    ≡ scan_with
        (λ offset.
          number_passes model export_words leading_zeros trailing_zeros true 4 (90 + offset))
        15
        offsets
scan_candidates-scan_with_example =
    scan_candidates-scan_with model export_words leading_zeros trailing_zeros true 4
      export_words-ExportsWords (cache_reset before) 90 15 0 offsets (omega arith) reset-Tracks
      offsets-AllOffsets

abbrev scanned : CandidateScan
scanned =
    scan_candidates model export_words leading_zeros trailing_zeros true 4 none (cache_reset before)
      90 15 0 offsets

second_reached : 1 < length scanned.is_prime
unfolding scan_candidates scan_step
second_reached = omega arith

scan_candidates_of_prime_example : get_or scanned.is_prime 1 false ≡ true
scan_candidates_of_prime_example =
    scan_candidates_of_prime model export_words leading_zeros trailing_zeros true 4
      export_words-ExportsWords leading_zeros-LeadingZeros trailing_zeros-CountsTrailing
      (cache_reset before) 90 15 offsets (omega arith) reset-Tracks offsets-AllOffsets 1
      second_reached (no_divisor-IsPrime 101 (omega arith) refl) (omega arith)
