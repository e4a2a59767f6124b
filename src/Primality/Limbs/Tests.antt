-- ===== src/Primality/Limbs/Tests.antt =====
-- Numbers of two limbs in new_src/primality_limbs.c.
use gap_miner_v.Prelude.{ℕ, ◌+◌, ◌*◌, ◌%◌, ◌^◌, ◌<◌, ◌≡◌, refl, arith, List, [], ◌∷◌, length}
use gap_miner_v.Primality.Builtins.{leading_zeros, leading_zeros-LeadingZeros}
use gap_miner_v.Primality.Limbs.{cpu_rmodn_n}
use gap_miner_v.Primality.Limbs.Value.{value, AllWords}
use gap_miner_v.Primality.Word.{mont_ninv}
use gap_miner_v.Primality.Limbs.Montmul.{cpu_montmul_n}
use gap_miner_v.Primality.Limbs.Montmul.Product.{cpu_montmul_n_lem}
use gap_miner_v.Primality.Limbs.Radix.{cpu_rmodn_n_lem}

abbrev modulus : List ℕ
modulus = 7 ∷ 4 ∷ []

modulus-AllWords : AllWords modulus
modulus-AllWords = (omega arith, (omega arith, tt))

cpu_rmodn_n_lem_example :
    AllWords (cpu_rmodn_n leading_zeros modulus 2)
    × (length (cpu_rmodn_n leading_zeros modulus 2) ≡ 2)
    × (value (cpu_rmodn_n leading_zeros modulus 2) ≡ 2 ^ 128 % (7 + 4 * 2 ^ 64))
cpu_rmodn_n_lem_example =
    cpu_rmodn_n_lem leading_zeros modulus 2 leading_zeros-LeadingZeros.0 modulus-AllWords refl
      (omega arith) (omega arith) refl (omega arith)

cpu_montmul_n_lem_example :
    let r = cpu_montmul_n (5 ∷ 3 ∷ []) (2 ∷ 1 ∷ []) modulus (mont_ninv 7) 2 in
    AllWords r
    × (length r ≡ 2)
    × (value r < 7 + 4 * 2 ^ 64)
    × ((value r * 2 ^ 128) % (7 + 4 * 2 ^ 64)
        ≡ ((5 + 3 * 2 ^ 64) * (2 + 2 ^ 64)) % (7 + 4 * 2 ^ 64))
cpu_montmul_n_lem_example =
    cpu_montmul_n_lem (5 ∷ 3 ∷ []) (2 ∷ 1 ∷ []) modulus 2 (omega arith)
      (omega arith, (omega arith, tt)) (omega arith, (omega arith, tt)) modulus-AllWords refl refl
      refl (omega arith) (omega arith)
