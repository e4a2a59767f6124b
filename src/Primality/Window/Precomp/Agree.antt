-- ===== src/Primality/Window/Precomp/Agree.antt =====
-- The precomputed tests of new_src/primality_limbs.c.
use gap_miner_v.Prelude.{
  ℕ, ◌-◌, ◌/◌, ◌%◌, ◌^◌, ◌≤◌, ◌<◌, ◌≡◌, ◌∙◌, arith, false, ◌||◌, some, List, ltb, leb, ◌==◌, get_or,
  length, if-false,
}
use gap_miner_v.Primality.Word.{mont_ninv}
use gap_miner_v.Primality.Limbs.{cpu_moddbl_n, cpu_rmodn_n}
use gap_miner_v.Primality.Limbs.Value.{value, AllWords}
use gap_miner_v.Primality.Limbs.Montmul.{cpu_montmul_n}
use gap_miner_v.Primality.Limbs.{max_limbs}
use gap_miner_v.Primality.Window.{
  get_bits4, find_msb_n, odd_powers, minus_one, halve_limbs, is_one, euler_accepts, pow2_window,
}
use gap_miner_v.Primality.Window.Loop.{CountsTrailing}
use gap_miner_v.Primality.Window.Exponent.{LeadingZeros, minus_one_lem, halve_limbs_lem}
use gap_miner_v.Primality.Window.Accept.{fermat_power, euler_power, get_bits4-Reads, low_odd}
use gap_miner_v.Primality.Window.Precomp.{
  ExactPrecomp, precomp_init, window_from_precomp, fermat_test_precomp, euler_test_precomp,
}

abbrev prepared : (ℕ → ℕ) → List ℕ → ℕ → ExactPrecomp
prepared clzll n nl =
    let mul : List ℕ → List ℕ → List ℕ = λ a b. cpu_montmul_n a b n (mont_ninv (get_or n 0 0)) nl in
    let base_m = cpu_moddbl_n (cpu_rmodn_n clzll n nl) n nl in
    record {
      nlimbs = nl;
      win_bits = 4;
      ninv = mont_ninv (get_or n 0 0);
      n = n;
      base_m = base_m;
      win = odd_powers mul (mul base_m base_m) 8 base_m;
      nm1 = minus_one n;
      fermat_exp = minus_one n;
      euler_exp = halve_limbs (minus_one n);
      fermat_msb = find_msb_n clzll (minus_one n) nl;
      euler_msb = find_msb_n clzll (halve_limbs (minus_one n)) nl;
    }

module _ (clzll ctz : ℕ → ℕ) (n : List ℕ) (nl : ℕ) (leading : LeadingZeros clzll)
    (trailing : CountsTrailing ctz) (words : AllWords n) (size : length n ≡ nl) (several : 2 ≤ nl)
    (few : nl ≤ max_limbs) (top : 0 < get_or n (nl - 1) 0) (odd : value n % 2 ≡ 1)
    (large : 4 ≤ value n) where
  positive : 0 < nl
  positive = omega arith

  init_ready : precomp_init clzll 4 n nl ≡ some (prepared clzll n nl)
  unfolding precomp_init
  init_ready =
      let inside : ((nl == 0) || ltb max_limbs nl) ≡ false = ground arith in
      let low = low_odd clzll ctz n nl leading trailing words size positive few top odd large in
      let fine : ((nl == 1) || (get_or n 0 0 % 2 == 0)) ≡ false = ground (arith, low) in
      if-false _ _ _ inside ∙ if-false _ _ _ fine

  fermat_ready :
      fermat_test_precomp ctz (prepared clzll n nl)
      ≡ is_one (pow2_window clzll ctz 4 (get_bits4 (minus_one n)) (minus_one n) n nl)
  unfolding fermat_test_precomp window_from_precomp pow2_window
  fermat_ready = if-false (leb nl 1) _ _ (ground arith)

  euler_ready :
      euler_test_precomp ctz (prepared clzll n nl)
      ≡ euler_accepts
          (pow2_window clzll ctz 4
            (get_bits4 (halve_limbs (minus_one n)))
            (halve_limbs (minus_one n))
            n
            nl)
          (minus_one n)
  unfolding euler_test_precomp window_from_precomp pow2_window
  euler_ready = if-false (leb nl 1) _ _ (ground arith)

  -- For an odd number from 4 on of 2 up to 20 limbs whose top limb is not 0, and builtins that count the
  -- zeros, with a window of 4 bits `primality_exact_precomp_init` succeeds, and from what it computes the two
  -- precomputed tests ask whether 2 ^ (n - 1) leaves 1 modulo `n` and whether 2 ^ ((n - 1) / 2) leaves 1 or
  -- -1.
  pub precomp_init-tests :
      (precomp : ExactPrecomp) × (precomp_init clzll 4 n nl ≡ some precomp)
      × (fermat_test_precomp ctz precomp ≡ (2 ^ (value n - 1) % value n == 1))
      × (euler_test_precomp ctz precomp ≡ (
          (2 ^ ((value n - 1) / 2) % value n == 1)
          || (2 ^ ((value n - 1) / 2) % value n == value n - 1)))
  precomp_init-tests =
      let m = minus_one_lem n words odd in
      let h = halve_limbs_lem (minus_one n) m.0 in
      let reads =
        get_bits4-Reads clzll ctz n nl leading trailing words size positive few top odd large in
      (
        prepared clzll n nl,
        init_ready,
        fermat_ready
            ∙ fermat_power clzll ctz n nl leading trailing words size positive few top odd large 4
                (get_bits4 (minus_one n)) (omega arith) (omega arith) (reads (minus_one n) m.0),
        euler_ready
            ∙ euler_power clzll ctz n nl leading trailing words size positive few top odd large
                (minus_one n) m.0 (m.1 ∙ size) m.2 4 (get_bits4 (halve_limbs (minus_one n)))
                (omega arith) (omega arith) (reads (halve_limbs (minus_one n)) h.0),
      )
