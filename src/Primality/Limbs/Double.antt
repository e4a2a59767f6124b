-- ===== src/Primality/Limbs/Double.antt =====
-- `cpu_moddbl_n` of new_src/primality_limbs.c doubles modulo n.
use mathlib.Core.Path.{subst}
use gap_miner_v.Prelude.{ℕ, ◌+◌, ◌*◌, ◌%◌, ◌<◌, ◌≡◌, ◌∙◌, arith, List, length}
use gap_miner_v.Primality.Limbs.{double_from, cpu_moddbl_n}
use gap_miner_v.Primality.Limbs.Value.{value, AllWords, weight, double_from_lem}
use gap_miner_v.Primality.Limbs.Reduce.{subtract_once}

-- For two numbers of `nl` limbs, the first below the second, `cpu_moddbl_n` gives `nl` limbs of twice the
-- first modulo the second.
pub cpu_moddbl_n_lem :
    (a n : List ℕ) (nl : ℕ)
    → AllWords a
    → AllWords n
    → length a ≡ nl
    → length n ≡ nl
    → value a < value n
    → AllWords (cpu_moddbl_n a n nl)
      × (length (cpu_moddbl_n a n nl) ≡ nl)
      × (value (cpu_moddbl_n a n nl) ≡ (2 * value a) % value n)
unfolding cpu_moddbl_n
cpu_moddbl_n_lem a n nl ha hn la ln below =
    let d = double_from_lem a 0 ha (omega arith) in
    let doubled = (double_from a 0).0 in
    let carry = (double_from a 0).1 in
    let twice : value doubled + weight nl * carry ≡ 2 * value a =
      subst (λ (k : ℕ). value doubled + weight k * carry ≡ 2 * value a) la (d.3 ∙ omega arith) in
    subtract_once doubled n nl carry (2 * value a) d.1 hn (d.2 ∙ la) ln d.0 twice
      (omega (arith, below))
