-- ===== src/Primes/Trial.antt =====
-- Trial division: a Boolean test of divisors, and the least divisor is a prime.
use mathlib.Core.Bool.{true≢false}
use native.Mathlib.Decide.{dec_lt}
use native.Mathlib.Nat.{div-add-mod', zero-mod}
use gap_miner_v.Prelude.{
  ℕ, zero, suc, ◌+◌, ◌-◌, ◌*◌, ◌/◌, ◌%◌, ◌≤◌, ◌<◌, ◌≡◌, ◌∙◌, refl, ap, arith, Bool, true, false,
  ◌&&◌, ◌||◌, ltb, Bool-cases, inl, inr,
}
use gap_miner_v.Prelude.Mod.{mod-eq_of_multiples}
use gap_miner_v.Primes.{IsPrime}

-- No number from 2 to `k` divides `v`.
abbrev pub no_divisor : ℕ → ℕ → Bool
no_divisor v zero = true
no_divisor v (suc k) = (ltb k 1 || ltb 0 (v % suc k)) && no_divisor v k

pub no_divisor-rest : (v k d : ℕ) → 1 < d → d ≤ k → no_divisor v k ≡ true → 0 < v % d
no_divisor-rest v zero d h l e = absurd (omega arith)
no_divisor-rest v (suc k) d h l e = elim (dec_lt d (suc k)) [
  | yes below ↦ no_divisor-rest v k d h (omega arith) (ground arith)
  | no here ↦ let same : d ≡ suc k = omega arith in rw same (ground arith)
]

pub no_divisor_of_rest : (v k : ℕ) → ((d : ℕ) → 1 < d → d ≤ k → 0 < v % d) → no_divisor v k ≡ true
no_divisor_of_rest v zero h = refl
no_divisor_of_rest v (suc k) h =
    let rest : no_divisor v k ≡ true = no_divisor_of_rest v k (λ d a b. h d a (omega arith)) in
    elim (dec_lt 0 k) [
      | yes pos ↦ let here : 0 < v % suc k = h (suc k) (omega arith) (omega arith) in ground arith
      | no none ↦ ground arith
    ]

-- A divisor of a divisor is a divisor.
pub mod_trans : (v d e : ℕ) → v % d ≡ 0 → d % e ≡ 0 → v % e ≡ 0
mod_trans v d e h k =
    mod-eq_of_multiples v 0 0 (v / d * (d / e)) e (
      omega (
        arith,
        div-add-mod' v d,
        ap (λ (t : ℕ). v / d * t) (div-add-mod' d e),
        ap (λ (t : ℕ). v / d * t) k,
      ))
    ∙ zero-mod e

pub no_divisor-IsPrime : (p : ℕ) → 1 < p → no_divisor p (p - 1) ≡ true → IsPrime p
no_divisor-IsPrime p h e = (h, λ d a b. no_divisor-rest p (p - 1) d a (omega arith) e)

pub no_divisor_of_IsPrime : (p : ℕ) → IsPrime p → no_divisor p (p - 1) ≡ true
no_divisor_of_IsPrime p prime =
    no_divisor_of_rest p (p - 1) (λ d a b. prime.1 d a (omega (arith, prime.0)))

least_divisor :
    (v k d : ℕ) → v % suc k ≡ 0 → no_divisor v k ≡ true → 1 < d → d ≤ suc k - 1 → 0 < suc k % d
least_divisor v k d e none a b =
    let rest : 0 < v % d = no_divisor-rest v k d a (omega arith) none in
    elim (dec_lt 0 (suc k % d)) [
      | yes h ↦ h
      | no h ↦ absurd (omega (arith, rest, mod_trans v (suc k) d e (omega arith)))
    ]

-- What has a divisor up to `k` has a prime one.
pub IsPrime-divisor :
    (v k : ℕ) → no_divisor v k ≡ false → (p : ℕ) × (IsPrime p) × (p ≤ k) × (v % p ≡ 0)
IsPrime-divisor v zero e = absurd (true≢false e)
IsPrime-divisor v (suc k) e = elim (Bool-cases (no_divisor v k)) [
  | inr earlier ↦
      let found = IsPrime-divisor v k earlier in (found.0, found.1, omega (arith, found.2), found.3)
  | inl none ↦ (
    suc k,
    no_divisor-IsPrime (suc k) (ground arith) (
        no_divisor_of_rest (suc k) (suc k - 1)
          (λ d a b. least_divisor v k d (ground arith) none a b)),
    omega arith,
    ground arith,
  )
]

pub le-square : (f : ℕ) → f ≤ f * f
le-square zero = omega arith
le-square (suc f) = omega arith

pub twice-le-square : (d : ℕ) → 1 < d → 2 * d ≤ d * d
twice-le-square zero h = omega arith
twice-le-square (suc zero) h = absurd (omega arith)
twice-le-square (suc (suc d)) h = omega arith

pub square-lt : (a b : ℕ) → a * a < b * b → a < b
square-lt a b h = elim (dec_lt a b) [
  | yes l ↦ l
  | no g ↦
      let e : b + (a - b) ≡ a = omega arith in
      absurd (omega (arith, ap (λ (t : ℕ). t * a) e, ap (λ (t : ℕ). b * t) e))
]

-- Of two cofactors one has its square up to the product.
pub small_divisor :
    (v d : ℕ) → 1 < d → d < v → v % d ≡ 0 → (e : ℕ) × (1 < e) × (e * e ≤ v) × (v % e ≡ 0)
small_divisor v d two below e = elim (dec_lt v (d * d)) [
  | no g ↦ (d, two, omega arith, e)
  | yes l ↦ (
    v / d,
    cofactor (v / d) d v product below,
    square l,
    mod-eq_of_multiples v 0 0 d (v / d) (omega (arith, product)) ∙ zero-mod (v / d),
  )
]
  where
    product : v / d * d ≡ v
    product = omega (arith, div-add-mod' v d, e)

    cofactor : (q d v : ℕ) → q * d ≡ v → d < v → 1 < q
    cofactor zero d v p l = absurd (omega arith)
    cofactor (suc zero) d v p l = absurd (omega arith)
    cofactor (suc (suc q)) d v p l = omega arith

    square : v < d * d → v / d * (v / d) ≤ v
    square l = elim (dec_lt (v / d) d) [
      | yes less ↦
          let gap : v / d + (d - v / d) ≡ d = omega arith in
          omega (arith, product, ap (λ (t : ℕ). v / d * t) gap)
      | no more ↦
          let gap : d + (v / d - d) ≡ v / d = omega arith in
          absurd (omega (arith, product, ap (λ (t : ℕ). t * d) gap))
    ]
