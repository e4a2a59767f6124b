-- ===== src/Primality/Big/Tests.antt =====
-- The tests of new_src/primality_euler.c, new_src/primality_fermat.c and new_src/primality_bpsw.c on small
-- numbers.
use gap_miner_v.Prelude.{◌≡◌, refl, arith, true, false}
use gap_miner_v.Primes.Trial.{no_divisor-IsPrime}
use gap_miner_v.Primality.Word.{split_even}
use gap_miner_v.Primality.Big.{
  euler_criterion_base2, euler_criterion, euler_quick_probable_prime, fermat_rounds,
  fermat_test_base, fermat_test_probable_prime, square_rounds, miller_rabin_base2,
}
use gap_miner_v.Primality.Big.Primes.{big_of_prime}

-- The prime 3 leaves 0 for the base 3, and is rejected.
quick_3 : euler_quick_probable_prime 3 ≡ false
unfolding euler_quick_probable_prime
quick_3 = refl

-- 341 passes Euler's test for 2, and not for 3.
euler_341 : (euler_criterion_base2 341 ≡ true) × (euler_quick_probable_prime 341 ≡ false)
unfolding euler_criterion_base2 euler_quick_probable_prime
euler_341 = (refl, refl)

-- 1105 passes Fermat's test for 2 and 3.
fermat_1105 : fermat_test_probable_prime 1105 2 ≡ true
unfolding fermat_test_probable_prime fermat_rounds fermat_test_base
fermat_1105 = refl

rabin_2047 : miller_rabin_base2 2047 ≡ true
unfolding miller_rabin_base2 split_even square_rounds
rabin_2047 = refl

rabin_341 : miller_rabin_base2 341 ≡ false
unfolding miller_rabin_base2 split_even square_rounds
rabin_341 = refl

big_of_prime_example :
    (euler_criterion_base2 97 ≡ true)
    × (euler_criterion 97 5 ≡ true)
    × (euler_quick_probable_prime 97 ≡ true)
    × (fermat_test_probable_prime 97 20 ≡ true)
    × (miller_rabin_base2 97 ≡ true)
big_of_prime_example =
    big_of_prime 97 5 20 (no_divisor-IsPrime 97 (omega arith) refl) (omega arith) (omega arith)
      (omega arith)
