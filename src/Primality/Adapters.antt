-- ===== src/Primality/Adapters.antt =====
-- The helpers on limbs and the adapters to GMP numbers in new_src/primality_limbs.c: export,
-- increments, and the tests of an `mpz_t`. A number is not negative here.
pub mod Export
pub mod Adds
pub mod Mpz
mod Tests
use gap_miner_v.Prelude.{
  ℕ, zero, suc, ◌+◌, ◌-◌, ◌*◌, ◌^◌, Bool, true, false, List, [], ◌∷◌, ltb, ◌==◌, u64, get_or,
  replicate, take, if◌then◌else◌,
}
use gap_miner_v.Gmp.{Gmp}
use gap_miner_v.Primality.Limbs.{max_limbs}
use gap_miner_v.Primality.Window.{fermat_test_nlimbs, euler_test_nlimbs}

-- `while (nl > 1 && limbs[nl - 1] == 0) nl--`
unfoldable pub limbs_effective_nl : List ℕ → ℕ → ℕ
limbs_effective_nl limbs zero = zero
limbs_effective_nl limbs (suc zero) = suc zero
limbs_effective_nl limbs (suc (suc nl)) =
    let rest = limbs_effective_nl limbs (suc nl) in
    if get_or limbs (suc nl) 0 == 0 then rest else suc (suc nl)

-- `while (carry && i < max_nl)`, for the limbs to go and a carry of 1.
unfoldable pub carry_loop : List ℕ → List ℕ × ℕ
carry_loop [] = ([], 1)
carry_loop (old ∷ limbs) =
    let sum = u64 (old + 1) in
    let rest = carry_loop limbs in if ltb sum old then (sum ∷ rest.0, rest.1) else (sum ∷ limbs, 0)

-- The limbs with the increment, and whether they hold it.
unfoldable pub limbs_add_u64 : List ℕ → ℕ → List ℕ × Bool
unfolding carry_loop
limbs_add_u64 [] delta = ([], delta == 0)
limbs_add_u64 (old ∷ limbs) delta =
    let sum = u64 (old + delta) in
    let rest = carry_loop limbs in
    if delta == 0
    then (old ∷ limbs, true)
    else if ltb sum old
    then (sum ∷ rest.0, rest.1 == 0)
    else (sum ∷ limbs, true)

-- What `mpz_export` writes over the first limbs.
unfoldable pub overwrite : List ℕ → List ℕ → List ℕ
overwrite [] limbs = limbs
overwrite (w ∷ ws) [] = []
overwrite (w ∷ ws) (x ∷ limbs) = w ∷ overwrite ws limbs

-- The number of limbs, 0 if the number does not fit, and the limbs. `mpz_export` with words of 64 bits,
-- the lowest first, is an argument.
unfoldable pub limbs_export : Gmp → (ℕ → List ℕ) → ℕ → ℕ → ℕ × List ℕ
unfolding limbs_effective_nl overwrite
limbs_export gmp mpz_export n max_nl =
    let limbs = overwrite (mpz_export n) (replicate max_nl 0) in
    let fitted : ℕ × List ℕ = (limbs_effective_nl limbs max_nl, limbs) in
    let failed : ℕ × List ℕ = (0, []) in
    if max_nl == 0 then failed else if ltb (max_nl * 64) (gmp.sizeinbase2 n) then failed else fitted

unfoldable pub euler_limbs_mpz : Gmp → (ℕ → List ℕ) → (ℕ → ℕ) → (ℕ → ℕ) → ℕ → ℕ → Bool
unfolding limbs_export euler_test_nlimbs
euler_limbs_mpz gmp mpz_export clzll ctz win_bits n =
    let (nl, limbs) = limbs_export gmp mpz_export n max_limbs in
    if nl == 0 then false else euler_test_nlimbs clzll ctz win_bits (take nl limbs) nl

unfoldable pub fermat_limbs_mpz : Gmp → (ℕ → List ℕ) → (ℕ → ℕ) → (ℕ → ℕ) → ℕ → ℕ → Bool
unfolding limbs_export fermat_test_nlimbs
fermat_limbs_mpz gmp mpz_export clzll ctz win_bits n =
    let (nl, limbs) = limbs_export gmp mpz_export n max_limbs in
    if nl == 0 then false else fermat_test_nlimbs clzll ctz win_bits (take nl limbs) nl
