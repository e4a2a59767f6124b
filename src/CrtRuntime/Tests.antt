-- ===== src/CrtRuntime/Tests.antt =====
-- new_src/crt_runtime.c on the primes 2 and 3, where every number is its own inverse.
use gap_miner_v.Prelude.{ℕ, suc, ◌-◌, ◌*◌, ◌%◌, ◌^◌, ◌≡◌, ◌∙◌, refl, ap, arith, [], ◌∷◌}
use gap_miner_v.CrtRuntime.{CrtRuntime, align_from, align_base}
use native.Mathlib.Nat.{mod-lt, pow-suc}
use gap_miner_v.Prelude.Mod.{mul-mod_right}
use gap_miner_v.Primes.Trial.{no_divisor-IsPrime}
use gap_miner_v.Primes.Fermat.{fermat}
use gap_miner_v.CrtRuntime.Align.{Inverts, AllSolved, AllDistinctPrimes, align_base-AllSolved}

abbrev own_inverse : ℕ → ℕ → ℕ
own_inverse a p = a % p

abbrev small : CrtRuntime
small = record {
  primes = (2, 1) ∷ (3, 1) ∷ [];
  window = 12;
  adj = 0;
  template = [];
  n_survivors = 0;
}

-- 10 + 1 + 1 is even and a multiple of 3.
aligned : align_base own_inverse small 10 ≡ 1
unfolding align_base align_from
aligned = refl

-- The inverse by Fermat's theorem.
abbrev power_inverse : ℕ → ℕ → ℕ
power_inverse a p = a ^ (p - 2) % p

power_inverse-Inverts : Inverts power_inverse
power_inverse-Inverts a p prime h = (
  mul-mod_right a (a ^ (p - 2)) p ∙ (ap (λ (t : ℕ). t % p) whole ∙ fermat p prime a h),
  mod-lt (a ^ (p - 2)) (omega (arith, prime.0)),
)
  where
    whole : a * a ^ (p - 2) ≡ a ^ (p - 1)
    whole =
        let e : p - 1 ≡ suc (p - 2) = omega (arith, prime.0) in
        rw (e, pow-suc a (p - 2)) (omega arith)

small-AllDistinctPrimes : AllDistinctPrimes small.primes
small-AllDistinctPrimes = (
  (no_divisor-IsPrime 2 (omega arith) refl, omega arith, omega arith),
  (omega arith, tt),
  ((no_divisor-IsPrime 3 (omega arith) refl, omega arith, omega arith), tt, tt),
)

align_base-AllSolved_example : AllSolved 10 (align_base power_inverse small 10) small.primes
align_base-AllSolved_example =
    align_base-AllSolved power_inverse small 10 power_inverse-Inverts small-AllDistinctPrimes
