-- ===== src/Primality/Window/Tests.antt =====
-- The tests on several limbs of new_src/primality_limbs.c on concrete numbers.
use gap_miner_v.Prelude.{
  ℕ, ◌+◌, ◌-◌, ◌*◌, ◌/◌, ◌%◌, ◌^◌, ◌≡◌, refl, arith, true, ◌||◌, some, List, [], ◌∷◌, ◌==◌,
}
use gap_miner_v.Primes.{IsPrime}
use gap_miner_v.Primes.Trial.{no_divisor-IsPrime}
use gap_miner_v.Primality.Limbs.Value.{AllWords}
use gap_miner_v.Primality.Builtins.{
  leading_zeros, leading_zeros-LeadingZeros, trailing_zeros, trailing_zeros-CountsTrailing,
}
use gap_miner_v.Primality.Window.{
  get_bits4, get_bits_w, bits_from, fermat_test_nlimbs, euler_test_nlimbs,
}
use gap_miner_v.Primality.Window.Accept.{nlimbs_tests_lem}
use gap_miner_v.Primality.Window.Prime.{nlimbs_of_prime}
use gap_miner_v.Primality.Window.Precomp.{
  ExactPrecomp, precomp_init, fermat_test_precomp, euler_test_precomp,
}
use gap_miner_v.Primality.Window.Precomp.Agree.{precomp_init-tests}

-- A window that straddles two limbs: the last bit of the first and three bits of the second.
straddling : get_bits4 (2 ^ 63 ∷ 5 ∷ []) 63 ≡ 11
unfolding get_bits4
straddling = refl

straddling_w : get_bits_w (2 ^ 63 ∷ 5 ∷ []) 62 5 2 ≡ 22
unfolding get_bits_w bits_from
straddling_w = refl

abbrev number : List ℕ
number = 7 ∷ 4 ∷ []

number-AllWords : AllWords number
number-AllWords = (omega arith, (omega arith, tt))

nlimbs_tests_lem_example :
    let n = 7 + 4 * 2 ^ 64 in
    (fermat_test_nlimbs leading_zeros trailing_zeros 5 number 2 ≡ (2 ^ (n - 1) % n == 1))
    × (euler_test_nlimbs leading_zeros trailing_zeros 5 number 2
        ≡ ((2 ^ ((n - 1) / 2) % n == 1) || (2 ^ ((n - 1) / 2) % n == n - 1)))
nlimbs_tests_lem_example =
    nlimbs_tests_lem leading_zeros trailing_zeros number 2 leading_zeros-LeadingZeros
      trailing_zeros-CountsTrailing number-AllWords refl (omega arith) (omega arith) (omega arith)
      (omega arith) (omega arith) 5

IsPrime-97 : IsPrime 97
IsPrime-97 = no_divisor-IsPrime 97 (omega arith) refl

nlimbs_of_prime_example :
    (fermat_test_nlimbs leading_zeros trailing_zeros 4 (97 ∷ []) 1 ≡ true)
    × (euler_test_nlimbs leading_zeros trailing_zeros 4 (97 ∷ []) 1 ≡ true)
nlimbs_of_prime_example =
    nlimbs_of_prime leading_zeros trailing_zeros 4 (97 ∷ []) 1 leading_zeros-LeadingZeros
      trailing_zeros-CountsTrailing (omega arith, tt) refl (omega arith) (omega arith) (omega arith)
      IsPrime-97

precomp_init-tests_example :
    let n = 7 + 4 * 2 ^ 64 in
    (precomp : ExactPrecomp) × (precomp_init leading_zeros 4 number 2 ≡ some precomp)
    × (fermat_test_precomp trailing_zeros precomp ≡ (2 ^ (n - 1) % n == 1))
    × (euler_test_precomp trailing_zeros precomp
        ≡ ((2 ^ ((n - 1) / 2) % n == 1) || (2 ^ ((n - 1) / 2) % n == n - 1)))
precomp_init-tests_example =
    precomp_init-tests leading_zeros trailing_zeros number 2 leading_zeros-LeadingZeros
      trailing_zeros-CountsTrailing number-AllWords refl (omega arith) (omega arith) (omega arith)
      (omega arith) (omega arith)
