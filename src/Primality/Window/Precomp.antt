-- ===== src/Primality/Window/Precomp.antt =====
-- `primality_exact_precomp_t` of new_src/primality_limbs.h and its use in new_src/primality_limbs.c: the
-- window's powers and the exponents of a number, computed once for both tests.
pub mod Agree
use gap_miner_v.Prelude.{
  ℕ, zero, suc, ◌+◌, ◌-◌, ◌*◌, ◌/◌, ◌%◌, ◌^◌, ◌≤◌, ◌<◌, ◌≡◌, ◌∙◌, refl, sym, ap, arith, Bool, true,
  false, ◌||◌, Option, none, some, List, [], ◌∷◌, ltb, leb, ◌==◌, get_or, length, if◌then◌else◌,
  if-true, if-false,
}
use gap_miner_v.Primality.Word.{mont_ninv}
use gap_miner_v.Primality.Limbs.{cpu_moddbl_n, cpu_rmodn_n}
use gap_miner_v.Primality.Limbs.Value.{value, AllWords}
use gap_miner_v.Primality.Limbs.Montmul.{cpu_montmul_n}
use gap_miner_v.Primality.Limbs.{max_limbs}
use gap_miner_v.Primality.Window.{
  get_bits4, find_msb_n, window_loop, odd_powers, minus_one, halve_limbs, is_one, euler_accepts,
  one_limbs, pow2_window,
}

-- The arrays hold `nlimbs` limbs; the window's size is always 4.
pub record ExactPrecomp : Type 0 where
  pub nlimbs : ℕ
  pub win_bits : ℕ
  pub ninv : ℕ
  pub n : List ℕ
  pub base_m : List ℕ
  pub win : List (List ℕ)
  pub nm1 : List ℕ
  pub fermat_exp : List ℕ
  pub euler_exp : List ℕ
  pub fermat_msb : ℕ
  pub euler_msb : ℕ

-- `MONTMUL_EXACT_DISPATCH` with the number's limbs.
abbrev product : ExactPrecomp → List ℕ → List ℕ → List ℕ
product precomp a b = cpu_montmul_n a b precomp.n precomp.ninv precomp.nlimbs

-- 0 is `none`. `win_bits` is what `cpu_window_bits_for_nlimbs` gives.
unfoldable pub precomp_init : (ℕ → ℕ) → ℕ → List ℕ → ℕ → Option ExactPrecomp
unfolding cpu_rmodn_n cpu_moddbl_n cpu_montmul_n odd_powers minus_one halve_limbs find_msb_n
precomp_init clzll win_bits n nlimbs =
    let ninv = mont_ninv (get_or n 0 0) in
    let mul : List ℕ → List ℕ → List ℕ = λ a b. cpu_montmul_n a b n ninv nlimbs in
    let one_m = cpu_rmodn_n clzll n nlimbs in
    let base_m = cpu_moddbl_n one_m n nlimbs in
    let base2_m = mul base_m base_m in
    let nm1 = minus_one n in
    let euler_exp = halve_limbs nm1 in
    let ready : Option ExactPrecomp = some record {
      nlimbs = nlimbs;
      win_bits = win_bits;
      ninv = ninv;
      n = n;
      base_m = base_m;
      win = odd_powers mul base2_m 8 base_m;
      nm1 = nm1;
      fermat_exp = nm1;
      euler_exp = euler_exp;
      fermat_msb = find_msb_n clzll nm1 nlimbs;
      euler_msb = find_msb_n clzll euler_exp nlimbs;
    } in
    if (nlimbs == 0) || ltb max_limbs nlimbs
    then none
    else if (nlimbs == 1) || (get_or n 0 0 % 2 == 0)
    then none
    else if win_bits == 4
    then ready
    else none

unfoldable pub window_from_precomp : (ℕ → ℕ) → ExactPrecomp → List ℕ → ℕ → List ℕ
unfolding window_loop get_bits4
window_from_precomp ctz precomp exp msb =
    window_loop (product precomp) ctz 4 (get_bits4 exp) exp precomp.base_m precomp.win msb msb
      precomp.base_m

unfoldable pub fermat_test_precomp : (ℕ → ℕ) → ExactPrecomp → Bool
unfolding window_from_precomp is_one one_limbs
fermat_test_precomp ctz precomp =
    let res = window_from_precomp ctz precomp precomp.fermat_exp precomp.fermat_msb in
    if leb precomp.nlimbs 1
    then false
    else if precomp.win_bits == 4
    then is_one (product precomp res (one_limbs precomp.nlimbs))
    else false

unfoldable pub euler_test_precomp : (ℕ → ℕ) → ExactPrecomp → Bool
unfolding window_from_precomp euler_accepts one_limbs
euler_test_precomp ctz precomp =
    let res = window_from_precomp ctz precomp precomp.euler_exp precomp.euler_msb in
    if leb precomp.nlimbs 1
    then false
    else if precomp.win_bits == 4
    then euler_accepts (product precomp res (one_limbs precomp.nlimbs)) precomp.nm1
    else false
