-- ===== src/CrtSet/Tests.antt =====
-- new_src/crt_set.c on the primes 2 and 3 and a window of 12.
use gap_miner_v.Prelude.{false, ◌≡◌, refl, arith, some, [], ◌∷◌, replicate}
use gap_miner_v.CrtSet.{CrtSet, resieve, primes_for_shift, primes_below, search_offset}
use gap_miner_v.CrtSet.Best.{AtMostAll, resieve_lem, search_offset_lem}

abbrev small : CrtSet
small = record {
  shift = 14;
  size = 12;
  primes = 2 ∷ 3 ∷ [];
  primorial = 6;
  offset = 1;
  bitmap = replicate 12 false;
  n_candidates = 0;
}

-- 2 * 3 * 5 is below 2 ^ 5, and 2 * 3 * 5 * 7 is not.
three_primes : primes_for_shift (2 ∷ 3 ∷ 5 ∷ 7 ∷ []) 5 ≡ 3
unfolding primes_for_shift primes_below
three_primes = refl

-- Of 1 to 12, the numbers 1, 5, 7 and 11 are left.
resieve_lem_example : (resieve small).n_candidates ≡ 4
resieve_lem_example = resieve_lem small (omega arith)

search_offset_lem_example :
    (best : CrtSet) × (search_offset small (5 ∷ 2 ∷ []) ≡ some best)
    × AtMostAll best.n_candidates small (5 ∷ 2 ∷ [])
search_offset_lem_example = search_offset_lem small 5 (2 ∷ []) (omega arith)
