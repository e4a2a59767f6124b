-- ===== src/Primes/Euclid.antt =====
-- Euclid's lemma.
use native.Mathlib.Nat.{div-add-mod', mod-lt, zero-mod}
use native.Mathlib.Decide.{dec_lt}
use gap_miner_v.Prelude.{
  ℕ, zero, suc, ◌*◌, ◌/◌, ◌%◌, ◌≤◌, ◌<◌, ◌≡◌, ◌∙◌, ◌⊎◌, sym, ap, arith, inl, inr,
}
use gap_miner_v.Prelude.Mod.{mod-eq_of_multiples, mul-mod_left}
use gap_miner_v.Primes.{IsPrime}

module _ (p : ℕ) (prime : IsPrime p) where
  -- What `p` divides after a factor between 0 and `p`, it divides before: by descent on the factor.
  descent : (fuel a b : ℕ) → a ≤ fuel → 0 < a → a < p → (a * b) % p ≡ 0 → b % p ≡ 0
  descent zero a b h pos below e = absurd (omega arith)
  descent (suc fuel) a b h pos below e = elim (dec_lt 1 a) [
    | no one ↦
        let k : a * b ≡ b = (let f : a ≡ 1 = omega arith in rw f (omega arith)) in
        sym (ap (λ (t : ℕ). t % p) k) ∙ e
    | yes large ↦
        descent fuel (p % a) b (omega (arith, mod-lt p pos)) (prime.1 a large below)
          (omega (arith, mod-lt p pos)) remainder
  ]
    where
      remainder : (p % a * b) % p ≡ 0
      remainder =
          mod-eq_of_multiples (p % a * b) 0 (p / a * (a * b / p)) b p (
            omega (
              arith,
              ap (λ (t : ℕ). t * b) (div-add-mod' p a),
              ap (λ (t : ℕ). p / a * t) (div-add-mod' (a * b) p),
              ap (λ (t : ℕ). p / a * t) e,
            ))
          ∙ zero-mod p

  -- A prime that divides a product divides one of the factors.
  pub euclid : (a b : ℕ) → (a * b) % p ≡ 0 → (a % p ≡ 0) ⊎ (b % p ≡ 0)
  euclid a b e = elim (dec_lt 0 (a % p)) [
    | no divides ↦ inl (omega arith)
    | yes rest ↦ inr (
        descent (a % p) (a % p) b (omega arith) rest (mod-lt a (omega (arith, prime.0)))
          (mul-mod_left a b p ∙ e))
  ]
