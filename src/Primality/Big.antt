-- ===== src/Primality/Big.antt =====
-- The tests of new_src/primality_euler.c and new_src/primality_fermat.c and the strong test of
-- new_src/primality_bpsw.c, on GMP numbers. `mpz_powm(r, b, e, n)` is the power's remainder.
pub mod Primes
mod Tests
use gap_miner_v.Prelude.{
  ℕ, zero, suc, ◌+◌, ◌-◌, ◌*◌, ◌/◌, ◌%◌, ◌^◌, Bool, true, false, ◌||◌, List, [], ◌∷◌, ltb, leb,
  ◌==◌, take, length, if◌then◌else◌,
}
use gap_miner_v.Primality.Word.{split_even}

abbrev pub mpz_powm : ℕ → ℕ → ℕ → ℕ
mpz_powm b e n = b ^ e % n

unfoldable pub euler_criterion_base2 : ℕ → Bool
euler_criterion_base2 n =
    let result = mpz_powm 2 ((n - 1) / 2) n in
    if leb n 2
    then false
    else if n % 2 == 0
    then false
    else if result == 1
    then true
    else result == n - 1

unfoldable pub euler_criterion : ℕ → ℕ → Bool
euler_criterion n base =
    let result = mpz_powm base ((n - 1) / 2) n in
    if base == 0
    then false
    else if leb n 2
    then false
    else if n % 2 == 0
    then false
    else if result == 1
    then true
    else result == n - 1

unfoldable pub euler_quick_probable_prime : ℕ → Bool
euler_quick_probable_prime n =
    let exponent = (n - 1) / 2 in
    let two = mpz_powm 2 exponent n in
    let three = mpz_powm 3 exponent n in
    if leb n 2 || (n % 2 == 0)
    then false
    else if (two == 1) || (two == n - 1)
    then (three == 1) || (three == n - 1)
    else false

unfoldable pub fermat_test_base : ℕ → ℕ → Bool
fermat_test_base n base = mpz_powm base (n - 1) n == 1

abbrev pub fermat_bases : List ℕ
fermat_bases = 2 ∷ 3 ∷ 5 ∷ 7 ∷ 11 ∷ 13 ∷ 17 ∷ 19 ∷ 23 ∷ 29 ∷ 31 ∷ 37 ∷ 41 ∷ 43 ∷ 47 ∷ []

-- `for (i = 0; i < rounds; i++)`, for the bases to go.
unfoldable pub fermat_rounds : ℕ → List ℕ → Bool
unfolding fermat_test_base
fermat_rounds n [] = true
fermat_rounds n (base ∷ rest) =
    let more = fermat_rounds n rest in
    if n == base then true else if fermat_test_base n base then more else false

-- `take` stops at the number of bases, as `rounds` does.
unfoldable pub fermat_test_probable_prime : ℕ → ℕ → Bool
unfolding fermat_rounds
fermat_test_probable_prime n rounds =
    if rounds == 0
    then false
    else if ltb n 2
    then false
    else if n == 2
    then true
    else if n % 2 == 0
    then false
    else fermat_rounds n (take rounds fermat_bases)

-- `for (i = 0; i < r - 1; i++)`, with `rounds` to go.
unfoldable pub square_rounds : ℕ → ℕ → ℕ → Bool
square_rounds n zero x = false
square_rounds n (suc rounds) x =
    let squared = (x * x) % n in
    let rest = square_rounds n rounds squared in if squared == n - 1 then true else rest

-- The loop that takes out the factors 2 is that of the tests on words; `n` rounds are enough.
unfoldable pub miller_rabin_base2 : ℕ → Bool
unfolding split_even square_rounds
miller_rabin_base2 n =
    let (d, r) = split_even n (n - 1) 0 in
    let x = mpz_powm 2 d n in
    if ltb n 2
    then false
    else if n == 2
    then true
    else if n % 2 == 0
    then false
    else if (x == 1) || (x == n - 1)
    then true
    else square_rounds n (r - 1) x
