-- ===== src/Primes.antt =====
-- Prime numbers, for the tests of new_src/primality_limbs.c and the sieves: Euclid's lemma and
-- Fermat's little theorem.
pub mod Trial
pub mod Euclid
pub mod Binomial
pub mod Fermat
use gap_miner_v.Prelude.{ℕ, ◌%◌, ◌<◌}

-- No number from 2 below `p` divides it.
abbrev pub IsPrime : ℕ → Type 0
IsPrime p = (1 < p) × ((d : ℕ) → 1 < d → d < p → 0 < p % d)
