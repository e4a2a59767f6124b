-- ===== src/Primality/Window/Prime.antt =====
-- The tests on several limbs of new_src/primality_limbs.c accept the primes.
use native.Mathlib.Nat.{mod-eq_of_lt, mul-le-mul, le_refl}
use native.Mathlib.Decide.{dec_lt}
use gap_miner_v.Prelude.{
  ℕ, zero, suc, ◌-◌, ◌*◌, ◌%◌, ◌^◌, ◌≤◌, ◌<◌, ◌≡◌, ◌∙◌, sym, arith, true, List, get_or, length,
}
use gap_miner_v.Primes.{IsPrime}
use gap_miner_v.Primes.Fermat.{fermat}
use gap_miner_v.Primality.Word.Rabin.{odd_of_prime}
use gap_miner_v.Primality.Exact.Powers.{euler_of_prime, exact_of_prime}
use gap_miner_v.Primality.Limbs.Value.{value, AllWords, weight, weight-pos}
use gap_miner_v.Primality.Limbs.Radix.{limb_le}
use gap_miner_v.Primality.Limbs.{max_limbs}
use gap_miner_v.Primality.Window.{fermat_test_nlimbs, euler_test_nlimbs}
use gap_miner_v.Primality.Window.Loop.{CountsTrailing}
use gap_miner_v.Primality.Window.Exponent.{LeadingZeros}
use gap_miner_v.Primality.Window.Accept.{nlimbs_tests_lem, one_tests}

-- With two limbs the number is not small.
top_value : (n : List ℕ) (nl : ℕ) → 2 ≤ nl → 0 < get_or n (nl - 1) 0 → 2 ^ 64 ≤ value n
top_value n zero h top = absurd (omega arith)
top_value n (suc zero) h top = absurd (omega arith)
top_value n (suc (suc k)) h top =
    let e : suc (suc k) - 1 ≡ suc k = omega arith in
    let some : 1 ≤ get_or n (suc k) 0 = rw (sym e) top in
    let more : weight (suc k) * 1 ≤ weight (suc k) * get_or n (suc k) 0 =
      mul-le-mul (le_refl (weight (suc k))) some in
    omega (arith, limb_le n (suc k), more, weight-pos k)

-- For a prime of `nl` limbs, 1 up to 20 and the top one not 0, and builtins that count the zeros,
-- `fermat_test_cpu_nlimbs` and `euler_test_cpu_nlimbs` accept it for every size of the window.
pub nlimbs_of_prime :
    (clzll ctz : ℕ → ℕ) (win_bits : ℕ) (n : List ℕ) (nl : ℕ)
    → LeadingZeros clzll
    → CountsTrailing ctz
    → AllWords n
    → length n ≡ nl
    → 0 < nl
    → nl ≤ max_limbs
    → 0 < get_or n (nl - 1) 0
    → IsPrime (value n)
    → (fermat_test_nlimbs clzll ctz win_bits n nl ≡ true)
      × (euler_test_nlimbs clzll ctz win_bits n nl ≡ true)
nlimbs_of_prime clzll ctz win_bits n nl leading trailing words size some few top prime =
    elim (dec_lt 3 (value n)) [
      | yes large ↦
          let odd = odd_of_prime (value n) prime large in
          let two : 0 < 2 % value n =
            rw (mod-eq_of_lt {n = 2} {m = value n} (omega arith)) (omega arith) in
          let tests =
            nlimbs_tests_lem clzll ctz n nl leading trailing words size some few top odd large
              win_bits in
          let f = fermat (value n) prime 2 two in
          (tests.0 ∙ ground (arith, f), tests.1 ∙ euler_of_prime (value n) 2 prime odd two)
      | no small ↦
          let one : nl ≡ 1 = elim (dec_lt nl 2) [
            | yes k ↦ omega arith
            | no k ↦ absurd (omega (arith, small, top_value n nl (omega arith) top))
          ] in
          let tests = one_tests clzll ctz win_bits n nl words size one in
          let word : value n < 2 ^ 64 = omega arith in
          let exact = exact_of_prime (value n) prime word in (tests.0 ∙ exact.1, tests.1 ∙ exact.0)
    ]
