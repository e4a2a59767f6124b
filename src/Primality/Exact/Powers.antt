-- ===== src/Primality/Exact/Powers.antt =====
-- The tests of one limb in new_src/primality_limbs.c are those of the powers of 2.
use native.Mathlib.Nat.{mod-eq_of_lt, mod-mod, mod-lt, pow-suc, pow-zero}
use native.Mathlib.Decide.{dec_lt}
use mathlib.Core.Bool.{false≢true}
use gap_miner_v.Prelude.{
  ℕ, zero, suc, ◌-◌, ◌*◌, ◌/◌, ◌%◌, ◌^◌, ◌≤◌, ◌<◌, ◌≡◌, ◌∙◌, refl, sym, ap, arith, Bool, true,
  false, ◌||◌, ltb, leb, ◌==◌, u64, if◌then◌else◌, Bool-cases, inl, inr,
}
use gap_miner_v.Prelude.Arith.{halved, mod_of_lt}
use gap_miner_v.Prelude.Mod.{mul-mod, pow-mod}
use gap_miner_v.Primes.{IsPrime}
use gap_miner_v.Primes.Fermat.{fermat, square_roots}
use gap_miner_v.Primality.Exact.{exact_loop, fermat_u64_exact, euler_u64}
use gap_miner_v.Primality.Word.Powers.{
  square_of_one, square_of_minus_one, power_square, or-true_cases,
}

module _ (n : ℕ) (large : 1 < n) (word : n < 2 ^ 64) where
  positive : 0 < n
  positive = omega arith

  factor :
      (t : Bool) (acc base : ℕ)
      → acc < n
      → (if t then u64 ((acc * base) % n) else acc) ≡ (if t then acc * base else acc) % n
  factor true acc base h =
      mod_of_lt ((acc * base) % n) (2 ^ 64) (omega (arith, mod-lt (acc * base) positive))
  factor false acc base h = sym (mod-eq_of_lt h)

  -- The loop multiplies by the power.
  exact_loop_lem :
      (fuel e acc base : ℕ)
      → e < 2 ^ fuel
      → acc < n
      → exact_loop fuel n e acc base ≡ acc * base ^ e % n
  unfolding exact_loop
  exact_loop_lem zero e acc base h ha =
      let none_left : e ≡ 0 = omega arith in
      rw (none_left, pow-zero base)
        (sym (mod-eq_of_lt (omega arith)) ∙ ap (λ (t : ℕ). t % n) {x = acc} (omega arith))
  exact_loop_lem (suc fuel) e acc base h ha = elim (Bool-cases (e == 0)) [
    | inl done ↦
        let none_left : e ≡ 0 = ground arith in
        rw (done, none_left, pow-zero base)
          (sym (mod-eq_of_lt ha) ∙ ap (λ (t : ℕ). t % n) {x = acc} (omega arith))
    | inr more ↦
        let next = if e % 2 == 1 then acc * base else acc in
        let small : next % n < n = mod-lt next (omega arith) in
        let square : u64 ((base * base) % n) ≡ (base * base) % n =
          mod_of_lt ((base * base) % n) (2 ^ 64) (omega (arith, mod-lt (base * base) positive)) in
        rw (more, factor (e % 2 == 1) acc base ha, square)
          (exact_loop_lem fuel (e / 2) (next % n) ((base * base) % n)
              (omega (arith, pow-suc 2 fuel)) small
            ∙ (mul-mod (next % n) (((base * base) % n) ^ (e / 2)) next ((base * base) ^ (e / 2)) n
                  (mod-mod next n) (pow-mod (base * base) (e / 2) n)
                ∙ ap (λ (t : ℕ). t % n) (halved acc base e)))
  ]

  acc_of : (e : ℕ) → e < 2 ^ 64 → exact_loop 64 n e 1 (2 % n) ≡ 2 ^ e % n
  acc_of e h =
      exact_loop_lem 64 e 1 (2 % n) h large
      ∙ (ap (λ (t : ℕ). t % n) {x = 1 * (2 % n) ^ e} {y = (2 % n) ^ e} (omega arith)
          ∙ pow-mod 2 e n)

-- For an odd number of 64 bits from 4 on, `fermat_u64_exact` asks whether 2 ^ (n - 1) leaves 1, and
-- `euler_u64` whether 2 ^ ((n - 1) / 2) leaves 1 or -1.
pub exact_lem :
    (n : ℕ)
    → 4 ≤ n
    → n % 2 ≡ 1
    → n < 2 ^ 64
    → (fermat_u64_exact n ≡ (2 ^ (n - 1) % n == 1))
      × (euler_u64 n ≡ ((2 ^ ((n - 1) / 2) % n == 1) || (2 ^ ((n - 1) / 2) % n == n - 1)))
unfolding fermat_u64_exact euler_u64
exact_lem n large odd word =
    let a : ltb n 4 ≡ false = ground arith in
    let b : (n % 2 == 0) ≡ false = ground arith in
    let one : 1 % n ≡ 1 = mod-eq_of_lt (omega arith) in
    let f = acc_of n (omega arith) word (n - 1) (omega arith) in
    let g = acc_of n (omega arith) word ((n - 1) / 2) (omega arith) in
    (rw (a, b, one, f) refl, rw (a, b, g) refl)

exact-even : (n : ℕ) → 4 ≤ n → n % 2 ≡ 0 → (fermat_u64_exact n ≡ false) × (euler_u64 n ≡ false)
unfolding fermat_u64_exact euler_u64
exact-even n large even =
    let a : ltb n 4 ≡ false = ground arith in
    let b : (n % 2 == 0) ≡ true = ground arith in (rw (a, b) refl, rw (a, b) refl)

exact-little : (n : ℕ) → n < 4 → (fermat_u64_exact n ≡ leb 2 n) × (euler_u64 n ≡ leb 2 n)
unfolding fermat_u64_exact euler_u64
exact-little n little = let a : ltb n 4 ≡ true = ground arith in (rw a refl, rw a refl)

-- What `euler_u64` accepts, `fermat_u64_exact` accepts.
pub euler_u64-fermat_u64_exact :
    (n : ℕ) → n < 2 ^ 64 → euler_u64 n ≡ true → fermat_u64_exact n ≡ true
euler_u64-fermat_u64_exact n word e = elim (dec_lt n 4) [
  | yes little ↦ (exact-little n little).0 ∙ (sym (exact-little n little).1 ∙ e)
  | no large ↦ elim (Bool-cases (n % 2 == 0)) [
    | inl even ↦ absurd (false≢true (sym (exact-even n (omega arith) (ground arith)).1 ∙ e))
    | inr odd ↦ odd_case (omega arith) (ground arith)
  ]
]
  where
    odd_case : 4 ≤ n → n % 2 ≡ 1 → fermat_u64_exact n ≡ true
    odd_case large odd =
        let lem = exact_lem n large odd word in
        let half : 2 * ((n - 1) / 2) ≡ n - 1 = omega arith in
        let squared : 2 ^ (2 * ((n - 1) / 2)) % n ≡ 1 =
          elim (or-true_cases (2 ^ ((n - 1) / 2) % n == 1) (2 ^ ((n - 1) / 2) % n == n - 1)
            (sym lem.1 ∙ e)) [
              | inl one ↦ square_of_one n 2 (omega arith) ((n - 1) / 2) (ground arith)
              | inr last ↦ square_of_minus_one n 2 (omega arith) ((n - 1) / 2) (ground arith)
            ] in
        let whole : 2 ^ (n - 1) % n ≡ 1 = ap (λ (t : ℕ). 2 ^ t % n) (sym half) ∙ squared in
        lem.0 ∙ ground arith

-- Euler's criterion for 2: a half of `n - 1` gives 1 or -1 for a prime.
pub euler_of_prime :
    (n a : ℕ)
    → IsPrime n
    → n % 2 ≡ 1
    → 0 < a % n
    → ((a ^ ((n - 1) / 2) % n == 1) || (a ^ ((n - 1) / 2) % n == n - 1)) ≡ true
euler_of_prime n a prime odd some =
    let half : 2 * ((n - 1) / 2) ≡ n - 1 = omega arith in
    let square : (a ^ ((n - 1) / 2) * a ^ ((n - 1) / 2)) % n ≡ 1 =
      ap (λ (t : ℕ). t % n) (sym (power_square a ((n - 1) / 2)))
      ∙ (ap (λ (t : ℕ). a ^ t % n) half ∙ fermat n prime a some) in
    elim (square_roots n prime (a ^ ((n - 1) / 2)) square) [
      | inl one ↦ ground arith
      | inr last ↦ ground arith
    ]

-- Both tests accept every prime of 64 bits.
pub exact_of_prime :
    (n : ℕ) → IsPrime n → n < 2 ^ 64 → (euler_u64 n ≡ true) × (fermat_u64_exact n ≡ true)
exact_of_prime n prime word = (accepted, euler_u64-fermat_u64_exact n word accepted)
  where
    odd_case : 4 ≤ n → euler_u64 n ≡ true
    odd_case large =
        let odd : n % 2 ≡ 1 = omega (arith, prime.1 2 (omega arith) (omega arith)) in
        let lem = exact_lem n large odd word in
        let two : 0 < 2 % n = rw (mod-eq_of_lt {n = 2} {m = n} (omega arith)) (omega arith) in
        lem.1 ∙ euler_of_prime n 2 prime odd two

    accepted : euler_u64 n ≡ true
    accepted = elim (dec_lt n 4) [
      | yes little ↦ (exact-little n little).1 ∙ (let l : 1 < n = prime.0 in ground arith)
      | no large ↦ odd_case (omega arith)
    ]
