-- ===== src/Prelude/Mod.antt =====
-- Congruences: equations between remainders.
use mathlib.Core.Path.{sym}
use native.Mathlib.Nat.{
  div-add-mod', add-mul-mod_self_right, mod-add-mod, add-mod-mod, zero-mod, mod-mod, pow-suc,
  pow-zero,
}
use gap_miner_v.Prelude.{ℕ, zero, suc, ◌+◌, ◌-◌, ◌*◌, ◌/◌, ◌%◌, ◌^◌, ◌≤◌, ◌≡◌, ◌∙◌, refl, ap, arith}

-- What differs by multiples of the modulus has the same remainder.
pub mod-eq_of_multiples : (a b c d n : ℕ) → a + c * n ≡ b + d * n → a % n ≡ b % n
mod-eq_of_multiples a b c d n e =
    sym (add-mul-mod_self_right a c n) ∙ (ap (λ (t : ℕ). t % n) e ∙ add-mul-mod_self_right b d n)

pub mul-mod_left : (a b n : ℕ) → (a % n * b) % n ≡ (a * b) % n
mul-mod_left a b n =
    mod-eq_of_multiples (a % n * b) (a * b) (a / n * b) 0 n
      (omega (arith, ap (λ (t : ℕ). t * b) (div-add-mod' a n)))

pub mul-mod_right : (a b n : ℕ) → (a * (b % n)) % n ≡ (a * b) % n
mul-mod_right a b n =
    mod-eq_of_multiples (a * (b % n)) (a * b) (a * (b / n)) 0 n (grind (arith, div-add-mod' b n))

pub mul-mod : (a b c d n : ℕ) → a % n ≡ c % n → b % n ≡ d % n → (a * b) % n ≡ (c * d) % n
mul-mod a b c d n e f =
    sym (mul-mod_left a b n)
    ∙ (sym (mul-mod_right (a % n) b n)
        ∙ (ap (λ (t : ℕ). (t * (b % n)) % n) e
            ∙ (ap (λ (t : ℕ). (c % n * t) % n) f
                ∙ (mul-mod_right (c % n) d n ∙ mul-mod_left c d n))))

-- A factor with an inverse cancels.
pub mul-mod_cancel :
    (a b k r n : ℕ) → (k * r) % n ≡ 1 % n → (a * k) % n ≡ (b * k) % n → a % n ≡ b % n
mul-mod_cancel a b k r n inv e = sym (one a) ∙ (both ∙ one b)
  where
    one : (x : ℕ) → (x * k * r) % n ≡ x % n
    one x =
        let f : x * k * r ≡ x * (k * r) = omega arith in
        let g : x * 1 ≡ x = omega arith in
        ap (λ (t : ℕ). t % n) f ∙ (mul-mod x (k * r) x 1 n refl inv ∙ ap (λ (t : ℕ). t % n) g)

    both : (a * k * r) % n ≡ (b * k * r) % n
    both = mul-mod (a * k) r (b * k) r n e refl

pub add-mod : (a b c d n : ℕ) → a % n ≡ c % n → b % n ≡ d % n → (a + b) % n ≡ (c + d) % n
add-mod a b c d n e f =
    sym (mod-add-mod a n b)
    ∙ (ap (λ (t : ℕ). (t + b) % n) e
        ∙ (mod-add-mod c n b
            ∙ (sym (add-mod-mod c b n) ∙ (ap (λ (t : ℕ). (c + t) % n) f ∙ add-mod-mod c d n))))

-- Equal remainders: the modulus divides the difference, and the other way.
pub difference-mod : (x y n : ℕ) → y ≤ x → x % n ≡ y % n → (x - y) % n ≡ 0
difference-mod x y n h e =
    mod-eq_of_multiples (x - y) 0 (y / n) (x / n) n
      (omega (arith, div-add-mod' x n, div-add-mod' y n))
    ∙ zero-mod n

pub mod-difference : (x y n : ℕ) → y ≤ x → (x - y) % n ≡ 0 → x % n ≡ y % n
mod-difference x y n h e =
    mod-eq_of_multiples x y 0 ((x - y) / n) n (omega (arith, div-add-mod' (x - y) n))

pub pow-mod : (a k n : ℕ) → (a % n) ^ k % n ≡ a ^ k % n
pow-mod a zero n = rw (pow-zero (a % n), pow-zero a) refl
pow-mod a (suc k) n =
    rw (pow-suc (a % n) k, pow-suc a k)
      (mul-mod ((a % n) ^ k) (a % n) (a ^ k) a n (pow-mod a k n) (mod-mod a n))
