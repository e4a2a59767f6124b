-- ===== src/Primes/Binomial.antt =====
-- Binomial coefficients, and that a prime divides the inner ones of its row.
use native.Mathlib.Nat.{pow-suc, pow-zero, mod-eq_of_lt, zero-mod}
use gap_miner_v.Prelude.{
  ℕ, zero, suc, ◌+◌, ◌-◌, ◌*◌, ◌%◌, ◌^◌, ◌<◌, ◌≡◌, ◌∙◌, refl, sym, ap, arith, inl, inr,
}
use gap_miner_v.Prelude.Mod.{mod-eq_of_multiples, mul-mod, add-mod}
use gap_miner_v.Primes.{IsPrime}
use gap_miner_v.Primes.Euclid.{euclid}

-- Pascal's triangle.
pub choose : ℕ → ℕ → ℕ
choose n zero = 1
choose zero (suc k) = 0
choose (suc n) (suc k) = choose n k + choose n (suc k)

choose-zero : (n : ℕ) → choose n zero ≡ 1
unfolding choose
choose-zero zero = refl
choose-zero (suc n) = refl

choose_above : (n k : ℕ) → n < k → choose n k ≡ 0
unfolding choose
choose_above n zero h = elim h [ ]
choose_above zero (suc k) h = refl
choose_above (suc n) (suc k) h = omega (arith, choose_above n k, choose_above n (suc k))

choose_self : (n : ℕ) → choose n n ≡ 1
unfolding choose
choose_self zero = refl
choose_self (suc n) = omega (arith, choose_self n, choose_above n (suc n))

-- `(k + 1) * choose (n + 1) (k + 1)` is `(n + 1) * choose n k`.
absorb : (n k : ℕ) → suc k * choose (suc n) (suc k) ≡ suc n * choose n k
unfolding choose
absorb zero zero = refl
absorb zero (suc k) = omega arith
absorb (suc n) zero = omega (arith, absorb n zero)
absorb (suc n) (suc k) = omega (arith, absorb n k, absorb n (suc k))

-- `choose n 0 * x ^ 0 + ... + choose n k * x ^ k`
pub row_sum : ℕ → ℕ → ℕ → ℕ
row_sum n x zero = 1
row_sum n x (suc k) = row_sum n x k + choose n (suc k) * x ^ suc k

choose_next : (n k : ℕ) → choose (suc n) (suc k) ≡ choose n k + choose n (suc k)
unfolding choose
choose_next n k = refl

row_step : (n x k : ℕ) → row_sum (suc n) x (suc k) ≡ row_sum n x (suc k) + x * row_sum n x k
unfolding row_sum
row_step n x zero =
    let step : choose (suc n) 1 ≡ 1 + choose n 1 =
      choose_next n 0 ∙ ap (λ (t : ℕ). t + choose n 1) (choose-zero n) in
    omega (
      arith,
      ap (λ (t : ℕ). t * x ^ 1) step,
      pow-suc x 0,
      pow-zero x,
      ap (λ (t : ℕ). t * x) (pow-zero x),
    )
row_step n x (suc k) = omega (
  arith,
  row_step n x k,
  ap (λ (t : ℕ). t * x ^ suc (suc k)) (choose_next n (suc k)),
  ap (λ (t : ℕ). choose n (suc k) * t) (pow-suc x (suc k)),
)

row_end : (n x : ℕ) → row_sum n x (suc n) ≡ row_sum n x n
unfolding row_sum
row_end n x =
    let none_left : choose n (suc n) * x ^ suc n ≡ 0 =
      rw (choose_above n (suc n) (omega arith)) (omega arith) in
    omega (arith, none_left)

-- The binomial theorem.
pub binomial : (n x : ℕ) → (x + 1) ^ n ≡ row_sum n x n
unfolding row_sum
binomial zero x = pow-zero (x + 1)
binomial (suc n) x = omega (
  arith,
  pow-suc (x + 1) n,
  ap (λ (t : ℕ). (x + 1) * t) (binomial n x),
  row_step n x n,
  row_end n x,
)

module _ (p : ℕ) (prime : IsPrime p) where
  -- A prime divides what stands inside its row of Pascal's triangle.
  prime_row : (k : ℕ) → suc k < p → choose p (suc k) % p ≡ 0
  prime_row k h = elim (euclid p prime (suc k) (choose p (suc k)) divides) [
    | inl e ↦ absurd (omega (arith, mod-eq_of_lt h))
    | inr e ↦ e
  ]
    where
      above : p ≡ suc (p - 1)
      above = omega (arith, prime.0)

      divides : (suc k * choose p (suc k)) % p ≡ 0
      divides =
          ap (λ (t : ℕ). (suc k * choose t (suc k)) % p) above
          ∙ (ap (λ (t : ℕ). t % p) (absorb (p - 1) k)
              ∙ (ap (λ (t : ℕ). (t * choose (p - 1) k) % p) (sym above)
                  ∙ mod-eq_of_multiples (p * choose (p - 1) k) 0 0 (choose (p - 1) k) p
                      (omega arith)
                  ∙ zero-mod p))

  inner_row : (x k : ℕ) → k < p → row_sum p x k % p ≡ 1
  unfolding row_sum
  inner_row x zero h = mod-eq_of_lt prime.0
  inner_row x (suc k) h =
      let term : (choose p (suc k) * x ^ suc k) % p ≡ 0 =
        mul-mod (choose p (suc k)) (x ^ suc k) 0 (x ^ suc k) p (prime_row k h ∙ sym (zero-mod p))
          refl
        ∙ (ap (λ (t : ℕ). t % p) {x = 0 * x ^ suc k} {y = 0} (omega arith) ∙ zero-mod p) in
      let rest : row_sum p x k % p ≡ 1 = inner_row x k (omega arith) in
      add-mod (row_sum p x k) (choose p (suc k) * x ^ suc k) 1 0 p
        (rest ∙ sym (mod-eq_of_lt prime.0)) (term ∙ sym (zero-mod p))
      ∙ mod-eq_of_lt prime.0

  -- Modulo a prime the power of a sum with 1 is the sum of the powers.
  pub power_of_next : (x : ℕ) → ((x + 1) ^ p) % p ≡ (x ^ p + 1) % p
  unfolding row_sum
  power_of_next x =
      let above : p ≡ suc (p - 1) = omega (arith, prime.0) in
      let last : row_sum p x p ≡ row_sum p x (p - 1) + x ^ p =
        ap (row_sum p x) above
        ∙ let e : choose p (suc (p - 1)) * x ^ suc (p - 1) ≡ x ^ p =
            rw (sym above, choose_self p) (omega arith) in
          omega (arith, e) in
      let inner : row_sum p x (p - 1) % p ≡ 1 = inner_row x (p - 1) (omega (arith, prime.0)) in
      rw (binomial p x, last)
        (add-mod (row_sum p x (p - 1)) (x ^ p) 1 (x ^ p) p (inner ∙ sym (mod-eq_of_lt prime.0)) refl
          ∙ ap (λ (t : ℕ). t % p) (omega arith))
