-- ===== src/Primality/Tests.antt =====
-- The tests of 64-bit numbers in new_src/primality_limbs.c at 97 and 41, and the product near 2 ^ 64.
use gap_miner_v.Prelude.{◌-◌, ◌*◌, ◌%◌, ◌^◌, ◌<◌, ◌≡◌, refl, arith, true, false}
use gap_miner_v.Primes.{IsPrime}
use gap_miner_v.Primes.Trial.{no_divisor-IsPrime}
use gap_miner_v.Primality.Word.{
  mont_ninv, mont_mul, mont_r2, strong_mrt, miller_rabin_u64, newton, sub64, power_loop,
  square_loop, split_even, trial, rabin_tail, all_bases,
}
use gap_miner_v.Primality.Word.Montgomery.{mont_ninv_lem, mont_mul_lem}
use gap_miner_v.Primality.Word.Strong.{strong_passes, strong_mrt_lem}
use gap_miner_v.Primality.Word.Rabin.{
  miller_rabin_u64_of_prime, fast_fermat_u64_of_prime, fast_fermat_u64-fermat,
}

-- 41 is the least prime that every small prime of `primality_miller_rabin_u64` lets through.
IsPrime-41 : IsPrime 41
IsPrime-41 = no_divisor-IsPrime 41 (omega arith) refl

rabin_41 : miller_rabin_u64 41 ≡ true
unfolding miller_rabin_u64 trial rabin_tail split_even all_bases strong_mrt power_loop square_loop
    mont_mul mont_ninv mont_r2 newton sub64
rabin_41 = refl

-- 2047 is a strong probable prime for 2.
rabin_2047 : miller_rabin_u64 2047 ≡ false
unfolding miller_rabin_u64 trial rabin_tail split_even all_bases strong_mrt power_loop square_loop
    mont_mul mont_ninv mont_r2 newton sub64
rabin_2047 = refl

-- Above 2 ^ 63 the sum of the high words wraps: the product of -1 with itself is not 1.
product_near_the_top :
    (mont_mul (2 ^ 64 - 60) (2 ^ 64 - 60) (2 ^ 64 - 59) (mont_ninv (2 ^ 64 - 59)) * 2 ^ 64)
        % (2 ^ 64 - 59)
      ≡ 1
    → ⊥
unfolding mont_mul mont_ninv newton sub64
product_near_the_top h = omega arith

-- 2 ^ 64 - 59 is a prime, and is rejected.
rabin_near_the_top : miller_rabin_u64 (2 ^ 64 - 59) ≡ false
unfolding miller_rabin_u64 trial rabin_tail split_even all_bases strong_mrt power_loop square_loop
    mont_mul mont_ninv mont_r2 newton sub64
rabin_near_the_top = refl

mont_mul_lem_example :
    (mont_mul 5 7 97 (mont_ninv 97) < 97)
    × ((mont_mul 5 7 97 (mont_ninv 97) * 2 ^ 64) % 97 ≡ (5 * 7) % 97)
mont_mul_lem_example =
    mont_mul_lem 97 (mont_ninv 97) (mont_ninv_lem 97 refl) 5 7 (omega arith) (omega arith)
      (omega arith)

strong_mrt_lem_example : strong_mrt 97 10 (mont_ninv 97) (mont_r2 97) 3 5 ≡ strong_passes 97 10 3 5
strong_mrt_lem_example = strong_mrt_lem 97 refl (omega arith) (omega arith) 10 3 5 (omega arith)

miller_rabin_u64_of_prime_example : miller_rabin_u64 41 ≡ true
miller_rabin_u64_of_prime_example = miller_rabin_u64_of_prime 41 IsPrime-41 (omega arith)

fast_fermat_u64-fermat_example : (2 ^ 40 % 41 ≡ 1) × (3 ^ 40 % 41 ≡ 1)
fast_fermat_u64-fermat_example =
    fast_fermat_u64-fermat 41 (omega arith) (omega arith)
      (fast_fermat_u64_of_prime 41 IsPrime-41 (omega arith))
