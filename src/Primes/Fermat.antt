-- ===== src/Primes/Fermat.antt =====
-- Fermat's little theorem, and the square roots of 1 modulo a prime.
use native.Mathlib.Nat.{div-add-mod', pow-suc, pow-zero, mod-eq_of_lt, zero-mod}
use gap_miner_v.Prelude.{
  ℕ, zero, suc, ◌+◌, ◌-◌, ◌*◌, ◌/◌, ◌%◌, ◌^◌, ◌≤◌, ◌<◌, ◌≡◌, ◌∙◌, ◌⊎◌, refl, sym, ap, arith, inl,
  inr,
}
use gap_miner_v.Prelude.Mod.{mod-eq_of_multiples, add-mod, difference-mod, mod-difference}
use gap_miner_v.Primes.{IsPrime}
use gap_miner_v.Primes.Euclid.{euclid}
use gap_miner_v.Primes.Binomial.{power_of_next}

power-pos : (a k : ℕ) → 0 < a → 0 < a ^ k
power-pos a zero h = omega (arith, pow-zero a)
power-pos a (suc k) h = grind (arith, pow-suc a k, power-pos a k h)

module _ (p : ℕ) (prime : IsPrime p) where
  power_p : (x : ℕ) → (x ^ p) % p ≡ x % p
  power_p zero =
      let above : p ≡ suc (p - 1) = omega (arith, prime.0) in
      ap (λ (t : ℕ). 0 ^ t % p) above ∙ ap (λ (t : ℕ). t % p) (pow-suc 0 (p - 1) ∙ omega arith)
  power_p (suc x) =
      let e : suc x ≡ x + 1 = omega arith in
      rw e (power_of_next p prime x ∙ add-mod (x ^ p) 1 x 1 p (power_p x) refl)

  -- A prime that does not divide `a` leaves 1 from the power of `a` below it.
  pub fermat : (a : ℕ) → 0 < a % p → (a ^ (p - 1)) % p ≡ 1
  fermat a h = elim (euclid p prime a (a ^ (p - 1) - 1) divides) [
    | inl e ↦ absurd (omega arith)
    | inr e ↦ mod-difference (a ^ (p - 1)) 1 p positive e ∙ mod-eq_of_lt prime.0
  ]
    where
      a_pos : 0 < a
      a_pos = grind (arith, zero-mod p)

      positive : 0 < a ^ (p - 1)
      positive = power-pos a (p - 1) a_pos

      split : a ^ p ≡ a ^ (p - 1) * a
      split =
          let above : p ≡ suc (p - 1) = omega (arith, prime.0) in
          ap (λ (t : ℕ). a ^ t) above ∙ pow-suc a (p - 1)

      below : a ≤ a ^ p
      below = grind (arith, split, positive)

      divides : (a * (a ^ (p - 1) - 1)) % p ≡ 0
      divides =
          ap (λ (t : ℕ). t % p) {x = a * (a ^ (p - 1) - 1)} {y = a ^ p - a}
            (let above : a ^ (p - 1) ≡ suc (a ^ (p - 1) - 1) = omega (arith, positive) in
              omega (arith, split, ap (λ (t : ℕ). t * a) above))
          ∙ difference-mod (a ^ p) a p below (power_p a)

  -- Modulo a prime only 1 and -1 have the square 1.
  pub square_roots : (x : ℕ) → (x * x) % p ≡ 1 → (x % p ≡ 1) ⊎ (x % p ≡ p - 1)
  square_roots x e = elim (euclid p prime (x + 1) (x - 1) divides) [
    | inl minus ↦ inr (minus_one minus)
    | inr plus ↦ inl (mod-difference x 1 p positive plus ∙ mod-eq_of_lt prime.0)
  ]
    where
      positive : 0 < x
      positive = grind (arith, zero-mod p)

      divides : ((x + 1) * (x - 1)) % p ≡ 0
      divides =
          ap (λ (t : ℕ). t % p) {x = (x + 1) * (x - 1)} {y = x * x - 1}
            (let above : x ≡ suc (x - 1) = omega (arith, positive) in
              omega (arith, positive, ap (λ (t : ℕ). t * x) above))
          ∙ difference-mod (x * x) 1 p (grind arith) (e ∙ sym (mod-eq_of_lt prime.0))

      minus_one : (x + 1) % p ≡ 0 → x % p ≡ p - 1
      minus_one m =
          let parts : (x + 1) / p * p + (x + 1) % p ≡ x + 1 = div-add-mod' (x + 1) p in
          let some_part : 0 < (x + 1) / p = grind arith in
          let above : (x + 1) / p ≡ suc ((x + 1) / p - 1) = omega (arith, some_part) in
          mod-eq_of_multiples x (p - 1) 0 ((x + 1) / p - 1) p
            (omega (arith, prime.0, parts, m, ap (λ (t : ℕ). t * p) above))
          ∙ mod-eq_of_lt (omega (arith, prime.0))
