-- ===== src/Primality/Adapters/Tests.antt =====
-- The adapters of new_src/primality_limbs.c on concrete numbers.
use gap_miner_v.Prelude.{
  ◌+◌, ◌-◌, ◌/◌, ◌%◌, ◌^◌, ◌≡◌, refl, arith, true, false, ◌||◌, ◌&&◌, [], ◌∷◌, length, ltb, ◌==◌,
}
use gap_miner_v.Gmp.Model.{model}
use gap_miner_v.Primality.Limbs.Value.{value, AllWords}
use gap_miner_v.Primality.Builtins.{
  leading_zeros, leading_zeros-LeadingZeros, trailing_zeros, trailing_zeros-CountsTrailing,
  export_words, export_words-ExportsWords,
}
use gap_miner_v.Primality.Adapters.{carry_loop, limbs_add_u64, fermat_limbs_mpz, euler_limbs_mpz}
use gap_miner_v.Primality.Adapters.Adds.{limbs_add_u64_lem}
use gap_miner_v.Primality.Adapters.Mpz.{limbs_mpz_lem}

-- A carry through a full limb, and one that is left.
carries : limbs_add_u64 ((2 ^ 64 - 1) ∷ (2 ^ 64 - 1) ∷ 4 ∷ []) 2 ≡ (1 ∷ 0 ∷ 5 ∷ [], true)
unfolding limbs_add_u64 carry_loop
carries = refl

carry_left : limbs_add_u64 ((2 ^ 64 - 1) ∷ (2 ^ 64 - 1) ∷ []) 2 ≡ (1 ∷ 0 ∷ [], false)
unfolding limbs_add_u64 carry_loop
carry_left = refl

limbs_add_u64_lem_example :
    let r = limbs_add_u64 ((2 ^ 64 - 1) ∷ 3 ∷ []) 2 in
    AllWords r.0
    × (length r.0 ≡ 2)
    × (r.1 ≡ ltb (value ((2 ^ 64 - 1) ∷ 3 ∷ []) + 2) (2 ^ 128))
    × (value r.0 ≡ (value ((2 ^ 64 - 1) ∷ 3 ∷ []) + 2) % 2 ^ 128)
limbs_add_u64_lem_example =
    limbs_add_u64_lem ((2 ^ 64 - 1) ∷ 3 ∷ []) 2 (omega arith, (omega arith, tt)) (omega arith)
      (omega arith)

limbs_mpz_lem_example :
    let n = 2 ^ 70 + 7 in
    (fermat_limbs_mpz model export_words leading_zeros trailing_zeros 4 n
      ≡ (ltb n (2 ^ 1280) && (2 ^ (n - 1) % n == 1)))
    × (euler_limbs_mpz model export_words leading_zeros trailing_zeros 4 n
        ≡ (ltb n (2 ^ 1280) && ((2 ^ ((n - 1) / 2) % n == 1) || (2 ^ ((n - 1) / 2) % n == n - 1))))
limbs_mpz_lem_example =
    limbs_mpz_lem model export_words leading_zeros trailing_zeros export_words-ExportsWords
      leading_zeros-LeadingZeros trailing_zeros-CountsTrailing 4 (2 ^ 70 + 7) (omega arith)
      (omega arith)
