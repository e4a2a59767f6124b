-- ===== src/Prelude/Arith.antt =====
-- Facts about division and powers that the components share.
use native.Mathlib.Nat.{pow-suc, pow-zero, mod-eq_of_lt, mod-eq-sub-mod, zero-add, one-mul}
use gap_miner_v.Prelude.{
  ℕ, zero, suc, ◌+◌, ◌-◌, ◌%◌, ◌*◌, ◌/◌, ◌^◌, ◌≤◌, ◌<◌, ◌≡◌, refl, sym, ap, arith, ◌==◌,
  if◌then◌else◌, Bool-cases, inl, inr,
}

pub pow-pos : (k : ℕ) → 0 < 2 ^ k
pow-pos zero = omega arith
pow-pos (suc k) = omega (arith, pow-suc 2 k, pow-pos k)

pub div-lt_of_lt-mul : (x y d : ℕ) → x < d * y → x / d < y
div-lt_of_lt-mul x y d h = grind arith

pub div-mul-le : (x d : ℕ) → x / d * d ≤ x
div-mul-le x d = grind arith

pub lt-div-suc-mul : (x d : ℕ) → 0 < d → x < (x / d + 1) * d
lt-div-suc-mul x d h = grind arith

pub le-div_of_mul-le : (x y d : ℕ) → 0 < d → y * d ≤ x → y ≤ x / d
le-div_of_mul-le x y d p h = grind arith

pub pow_add : (b m n : ℕ) → b ^ (m + n) ≡ b ^ m * b ^ n
pow_add b zero n = rw (zero-add, pow-zero, one-mul)
pow_add b (suc m) n =
    let e : suc m + n ≡ suc (m + n) = omega arith in
    rw (e, pow-suc b (m + n), pow-suc b m, pow_add b m n) (omega arith)

pub mul-cancel-le : (a b p : ℕ) → 0 < p → a * p ≤ b * p → a ≤ b
mul-cancel-le a b p h l = grind arith

pub mod_of_lt : (n m : ℕ) → n < m → n % m ≡ n
mod_of_lt n m h = mod-eq_of_lt h

pub mod_of_ge : (n m : ℕ) → m ≤ n → n % m ≡ (n - m) % m
mod_of_ge n m h = mod-eq-sub-mod h

pub power-even : (b k : ℕ) → (b * b) ^ k ≡ b ^ (2 * k)
power-even b zero = rw (pow-zero (b * b), pow-zero b) refl
power-even b (suc k) =
    let e : 2 * suc k ≡ suc (suc (2 * k)) = omega arith in
    rw (e, pow-suc (b * b) k, pow-suc b (suc (2 * k)), pow-suc b (2 * k), power-even b k)
      (omega arith)

-- One round of square-and-multiply: the lowest bit of the exponent.
pub halved : (x b e : ℕ) → (if e % 2 == 1 then x * b else x) * (b * b) ^ (e / 2) ≡ x * b ^ e
halved x b e = elim (Bool-cases (e % 2 == 1)) [
  | inl one ↦
      let k : e ≡ suc (2 * (e / 2)) = ground arith in
      rw (one, power-even b (e / 2))
        (omega (
          arith,
          pow-suc b (2 * (e / 2)),
          ap (λ (t : ℕ). x * b ^ t) k,
          ap (λ (t : ℕ). x * t) (pow-suc b (2 * (e / 2))),
        ))
  | inr even ↦
      let k : e ≡ 2 * (e / 2) = ground arith in
      rw (even, power-even b (e / 2)) (ap (λ (t : ℕ). x * b ^ t) (sym k))
]
