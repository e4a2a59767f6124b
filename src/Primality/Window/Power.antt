-- ===== src/Primality/Window/Power.antt =====
-- The common part of the tests on several limbs in new_src/primality_limbs.c is a power of 2 modulo n.
use mathlib.Core.Path.{subst}
use native.Mathlib.Nat.{mod-lt, mod-mod, le_refl}
use gap_miner_v.Prelude.{
  ℕ, ◌+◌, ◌-◌, ◌*◌, ◌/◌, ◌%◌, ◌^◌, ◌≤◌, ◌<◌, ◌≡◌, ◌∙◌, refl, sym, ap, arith, List, get_or,
  replicate, length, length-set, length-replicate,
}
use gap_miner_v.Prelude.Mod.{mul-mod}
use gap_miner_v.Primality.Limbs.{max_limbs, cpu_moddbl_n, cpu_rmodn_n}
use gap_miner_v.Primality.Limbs.Value.{value, AllWords}
use gap_miner_v.Primality.Limbs.Double.{cpu_moddbl_n_lem}
use gap_miner_v.Primality.Limbs.Radix.{
  cpu_rmodn_n_lem, value-seed, set-AllWords, replicate-AllWords,
}
use gap_miner_v.Primality.Window.{find_msb_n, window_loop, odd_powers, one_limbs, pow2_window}
use gap_miner_v.Primality.Window.Domain.{Holds, mont, mont-Holds, leave_form}
use gap_miner_v.Primality.Window.Loop.{CountsTrailing, window_loop_lem, odd_powers_lem}
use gap_miner_v.Primality.Window.Exponent.{LeadingZeros, find_msb_n_lem}

pub one_limbs_lem :
    (nl : ℕ)
    → 0 < nl
    → AllWords (one_limbs nl) × (length (one_limbs nl) ≡ nl) × (value (one_limbs nl) ≡ 1)
unfolding one_limbs
one_limbs_lem nl pos = (
  set-AllWords (replicate nl 0) 0 1 (omega arith) (replicate-AllWords nl),
  length-set (replicate nl 0) 0 1 ∙ length-replicate {A = ℕ} nl 0,
  value-seed nl 0 1 pos,
)

module _ (clzll ctz : ℕ → ℕ) (n : List ℕ) (nl : ℕ) (leading : LeadingZeros clzll)
    (trailing : CountsTrailing ctz) (words : AllWords n) (size : length n ≡ nl) (some : 0 < nl)
    (top : 0 < get_or n (nl - 1) 0) (odd : value n % 2 ≡ 1) (large : 1 < value n)
    (few : nl ≤ max_limbs) where
  abbrev base_m : List ℕ
  base_m = cpu_moddbl_n (cpu_rmodn_n clzll n nl) n nl

  abbrev Form : List ℕ → ℕ → Type 0
  Form a k = Holds n nl words size odd large few a k

  base_m-Form : Form base_m 1
  base_m-Form =
      let r = cpu_rmodn_n_lem clzll n nl leading.0 words size some top odd large in
      let w = 2 ^ (64 * nl) in
      let below : value (cpu_rmodn_n clzll n nl) < value n =
        rw r.2 (mod-lt w (omega (arith, large))) in
      let d = cpu_moddbl_n_lem (cpu_rmodn_n clzll n nl) n nl r.0 words r.1 size below in
      (
        d.0,
        d.1,
        rw d.2 (mod-lt (2 * value (cpu_rmodn_n clzll n nl)) (omega (arith, large))),
        ap (λ (t : ℕ). t % value n) d.2
            ∙ (mod-mod (2 * value (cpu_rmodn_n clzll n nl)) (value n)
                ∙ mul-mod 2 (value (cpu_rmodn_n clzll n nl)) (2 ^ 1) w (value n) refl
                    (ap (λ (t : ℕ). t % value n) r.2 ∙ mod-mod w (value n))),
      )

  -- The power with the exponent's limbs, whatever the window.
  pub pow2_window_lem :
      (win_bits : ℕ) (bits_at : ℕ → ℕ) (e : List ℕ)
      → 1 ≤ win_bits
      → win_bits ≤ 31
      → AllWords e
      → length e ≡ nl
      → 0 < value e
      → ((bit : ℕ) → bit + win_bits ≤ 64 * nl → bits_at bit ≡ value e / 2 ^ bit % 2 ^ win_bits)
      → let r = pow2_window clzll ctz win_bits bits_at e n nl in
        AllWords r × (length r ≡ nl) × (value r ≡ 2 ^ value e % value n)
  unfolding pow2_window
  pow2_window_lem win_bits bits_at e l u he le pos reads =
      let one = one_limbs_lem nl some in
      let product = mont n nl words size odd large few in
      let both = mont-Holds n nl words size odd large few in
      let msb = find_msb_n clzll e nl in
      let high = find_msb_n_lem clzll e nl leading he le some pos in
      let base2 = both base_m base_m 1 1 base_m-Form base_m-Form in
      let win = odd_powers product (product base_m base_m) (2 ^ (win_bits - 1)) base_m in
      let power =
        window_loop_lem Form product both ctz win_bits bits_at e base_m win (64 * nl) trailing l u
          he base_m-Form
          (λ i small.
            odd_powers_lem Form product both (product base_m base_m) (2 ^ (win_bits - 1)) base_m 1 i
              base2 base_m-Form small)
          reads msb msb base_m (le_refl msb) (omega (arith, high.0))
          (subst (λ (t : ℕ). Form base_m t) (sym high.1) base_m-Form) in
      leave_form n nl words size odd large few
        (window_loop product ctz win_bits bits_at e base_m win msb msb base_m) (one_limbs nl)
        (value e) power one.0 one.1 one.2
