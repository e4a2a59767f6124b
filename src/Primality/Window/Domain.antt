-- ===== src/Primality/Window/Domain.antt =====
-- The Montgomery form of powers of 2 in new_src/primality_limbs.c.
use native.Mathlib.Nat.{mod-eq_of_lt, pow-suc, pow-zero}
use gap_miner_v.Prelude.{
  ℕ, zero, suc, ◌+◌, ◌*◌, ◌/◌, ◌%◌, ◌^◌, ◌≤◌, ◌<◌, ◌≡◌, ◌∙◌, sym, ap, arith, List, get_or, length,
}
use gap_miner_v.Prelude.Arith.{pow_add}
use gap_miner_v.Prelude.Mod.{mod-eq_of_multiples, mul-mod, mul-mod_cancel}
use gap_miner_v.Primality.Word.{mont_ninv}
use gap_miner_v.Primality.Limbs.{max_limbs}
use gap_miner_v.Primality.Limbs.Value.{value, AllWords}
use gap_miner_v.Primality.Limbs.Montmul.{cpu_montmul_n}
use gap_miner_v.Primality.Limbs.Montmul.Product.{cpu_montmul_n_lem}

module _ (n : List ℕ) (nl : ℕ) (hn : AllWords n) (ln : length n ≡ nl) (odd : value n % 2 ≡ 1)
    (large : 1 < value n) (few : nl ≤ max_limbs) where
  -- Limbs of 2 ^ k in Montgomery form.
  abbrev pub Holds : List ℕ → ℕ → Type 0
  Holds a k =
      AllWords a
      × (length a ≡ nl)
      × (value a < value n)
      × (value a % value n ≡ (2 ^ k * 2 ^ (64 * nl)) % value n)

  half : ℕ
  half = (value n + 1) / 2

  inverse : (k : ℕ) → (2 ^ k * half ^ k) % value n ≡ 1 % value n
  unfolding half
  inverse zero =
      ap (λ (t : ℕ). t % value n) {x = 2 ^ 0 * ((value n + 1) / 2) ^ 0} {y = 1}
        (omega (arith, pow-zero ((value n + 1) / 2)))
  inverse (suc k) =
      let h = (value n + 1) / 2 in
      let two : (2 * h) % value n ≡ 1 % value n =
        mod-eq_of_multiples (2 * h) 1 0 1 (value n) (omega arith) in
      let turn : 2 ^ suc k * h ^ suc k ≡ 2 ^ k * h ^ k * (2 * h) =
        rw (pow-suc 2 k, pow-suc h k) (grind arith) in
      ap (λ (t : ℕ). t % value n) turn
      ∙ mul-mod (2 ^ k * h ^ k) (2 * h) 1 1 (value n) (inverse k) two

  pub cancel_radix :
      (a b : ℕ)
      → (a * 2 ^ (64 * nl)) % value n ≡ (b * 2 ^ (64 * nl)) % value n
      → a % value n ≡ b % value n
  cancel_radix a b e =
      mul-mod_cancel a b (2 ^ (64 * nl)) (half ^ (64 * nl)) (value n) (inverse (64 * nl)) e

  abbrev pub mont : List ℕ → List ℕ → List ℕ
  mont a b = cpu_montmul_n a b n (mont_ninv (get_or n 0 0)) nl

  pub mont-Holds : (a b : List ℕ) (j k : ℕ) → Holds a j → Holds b k → Holds (mont a b) (j + k)
  mont-Holds a b j k ha hb =
      let r = cpu_montmul_n_lem a b n nl few ha.0 hb.0 hn ha.1 hb.1 ln hb.2 odd in
      let w = 2 ^ (64 * nl) in
      let turn : 2 ^ j * w * (2 ^ k * w) ≡ 2 ^ (j + k) * w * w = rw (pow_add 2 j k) (grind arith) in
      (
        r.0,
        r.1,
        r.2,
        cancel_radix (value (mont a b)) (2 ^ (j + k) * w) (
            r.3
            ∙ (mul-mod (value a) (value b) (2 ^ j * w) (2 ^ k * w) (value n) ha.3 hb.3
                ∙ ap (λ (t : ℕ). t % value n) turn)),
      )

  -- The product with 1 leaves the Montgomery form.
  pub leave_form :
      (a one : List ℕ) (k : ℕ)
      → Holds a k
      → AllWords one
      → length one ≡ nl
      → value one ≡ 1
      → AllWords (mont a one) × (length (mont a one) ≡ nl) × (value (mont a one) ≡ 2 ^ k % value n)
  leave_form a one k ha ho lo e =
      let r = cpu_montmul_n_lem a one n nl few ha.0 ho hn ha.1 lo ln (rw e large) odd in
      let same : value a * value one ≡ value a = ap (λ (t : ℕ). value a * t) e ∙ omega arith in
      (
        r.0,
        r.1,
        sym (mod-eq_of_lt r.2)
            ∙ cancel_radix (value (mont a one)) (2 ^ k)
                (r.3 ∙ (ap (λ (t : ℕ). t % value n) same ∙ ha.3)),
      )
