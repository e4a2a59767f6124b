-- ===== src/Primality/Word/Montgomery.antt =====
-- The Montgomery product on one word: the inverse that it needs, and what it computes.
use native.Mathlib.Nat.{div-add-mod', mod-mod, mod-eq_of_lt, mul-le-mul, le_refl}
use gap_miner_v.Prelude.{
  ℕ, zero, suc, ◌+◌, ◌-◌, ◌*◌, ◌/◌, ◌%◌, ◌^◌, ◌≤◌, ◌<◌, ◌≡◌, ◌∙◌, refl, sym, ap, arith, ltb, leb,
  u64, if◌then◌else◌, Bool-cases, inl, inr,
}
use gap_miner_v.Prelude.Mod.{mod-eq_of_multiples, mul-mod, mul-mod_left}
use gap_miner_v.Primality.Word.{sub64, newton, mont_ninv, mont_mul, mont_r2}

-- With `y` one more than a multiple of `m`, `y * (2 - y)` is one more than a multiple of `m * m`.
newton_step :
    (y e m d : ℕ)
    → m * m * d ≡ 2 ^ 64
    → y ≡ 1 + e * m
    → y < 2 ^ 64
    → (y * (2 ^ 64 + 2 - y)) % (m * m) ≡ 1 % (m * m)
newton_step y e m d h k below =
    mod-eq_of_multiples (y * (2 ^ 64 + 2 - y)) 1 (e * e) (d * y) (m * m) (
      omega
        (arith, ap (λ (t : ℕ). t * z) k, ap (λ (t : ℕ). e * m * t) rest, ap (λ (t : ℕ). t * y) h))
  where
    z : ℕ
    z = 2 ^ 64 + 2 - y

    rest : z + e * m ≡ 2 ^ 64 + 1
    rest = omega arith

-- A value that is one above a multiple of `m`, for an `m` above 1.
above_multiple : (y m : ℕ) → 1 < m → y % m ≡ 1 → y ≡ 1 + y / m * m
above_multiple y m h e = omega (arith, div-add-mod' y m)

-- A cut at 64 bits does not change a remainder by a divisor of 2 ^ 64.
u64-mod : (t m d : ℕ) → m * d ≡ 2 ^ 64 → u64 t % m ≡ t % m
u64-mod t m d h =
    mod-eq_of_multiples (u64 t) t (t / 2 ^ 64 * d) 0 m
      (omega (arith, ap (λ (k : ℕ). t / 2 ^ 64 * k) h, div-add-mod' t (2 ^ 64)))

-- A round of Newton's iteration doubles the number of correct bits.
newton_correct :
    (n x m d : ℕ) → 1 < m → m * m * d ≡ 2 ^ 64 → (n * x) % m ≡ 1 → (n * newton n x) % (m * m) ≡ 1
unfolding newton sub64
newton_correct n x m d large h e =
    mul-mod n (newton n x) n (x * s) (m * m) refl (u64-mod (x * s) (m * m) d h)
    ∙ (ap (λ (t : ℕ). t % (m * m)) regroup
        ∙ (mul-mod (n * x) s y (2 ^ 64 + 2 - y) (m * m) (sym (u64-mod (n * x) (m * m) d h))
              (cut ∙ same)
            ∙ (newton_step y (y / m) m d h (above_multiple y m large low) (omega arith)
                ∙ mod-eq_of_lt (grind arith))))
  where
    y : ℕ
    y = u64 (n * x)

    s : ℕ
    s = u64 (2 + 2 ^ 64 - y)

    regroup : n * (x * s) ≡ n * x * s
    regroup = omega arith

    cut : s % (m * m) ≡ (2 + 2 ^ 64 - y) % (m * m)
    cut = u64-mod (2 + 2 ^ 64 - y) (m * m) d h

    same : (2 + 2 ^ 64 - y) % (m * m) ≡ (2 ^ 64 + 2 - y) % (m * m)
    same = refl

    low : y % m ≡ 1
    low = u64-mod (n * x) m (m * d) (omega (arith, h)) ∙ e

minus_one :
    (n x : ℕ) → x < 2 ^ 64 → (n * x) % 2 ^ 64 ≡ 1 → (n * u64 (2 ^ 64 - u64 x)) % 2 ^ 64 ≡ 2 ^ 64 - 1
minus_one n zero h e = absurd (omega arith)
minus_one n (suc x) h e =
    let whole : u64 (2 ^ 64 - u64 (suc x)) ≡ 2 ^ 64 - suc x = omega arith in
    let k : 2 ^ 64 - suc x + suc x ≡ 2 ^ 64 = omega arith in
    rw whole (omega (arith, ap (λ (t : ℕ). n * t) k))

-- For an odd `n`, `mont_ninv` is the number whose product with `n` is -1 modulo 2 ^ 64.
pub mont_ninv_lem : (n : ℕ) → n % 2 ≡ 1 → (n * mont_ninv n) % 2 ^ 64 ≡ 2 ^ 64 - 1
unfolding mont_ninv sub64
mont_ninv_lem n odd =
    let x1 = newton_correct n 1 2 (2 ^ 62) (omega arith) refl (omega arith) in
    let x2 = newton_correct n (newton n 1) 4 (2 ^ 60) (omega arith) refl x1 in
    let x3 = newton_correct n (newton n (newton n 1)) 16 (2 ^ 56) (omega arith) refl x2 in
    let x4 =
      newton_correct n (newton n (newton n (newton n 1))) (2 ^ 8) (2 ^ 48) (omega arith) refl x3 in
    let x5 =
      newton_correct n (newton n (newton n (newton n (newton n 1)))) (2 ^ 16) (2 ^ 32) (omega arith)
        refl x4 in
    let x6 =
      newton_correct n (newton n (newton n (newton n (newton n (newton n 1))))) (2 ^ 32) 1
        (omega arith) refl x5 in
    minus_one n (newton n (newton n (newton n (newton n (newton n (newton n 1))))))
      (cut (newton n (newton n (newton n (newton n (newton n 1)))))) x6
  where
    cut : (x : ℕ) → newton n x < 2 ^ 64
    cut x = unfold newton in omega arith

module _ (n np : ℕ) (inv : (n * np) % 2 ^ 64 ≡ 2 ^ 64 - 1) where
  -- The low words of the product and of the multiple of `n` cancel.
  low_words : (lo : ℕ) → (lo + u64 (u64 (lo * np) * n)) % 2 ^ 64 ≡ 0
  low_words lo =
      let e : lo * np * n ≡ lo * (n * np) = omega arith in
      let step : u64 (u64 (lo * np) * n) ≡ u64 (lo * (2 ^ 64 - 1)) =
        mul-mod_left (lo * np) n (2 ^ 64)
        ∙ (ap u64 e ∙ mul-mod lo (n * np) lo (2 ^ 64 - 1) (2 ^ 64) refl inv) in
      rw step (omega arith)

  carry_word :
      (lo : ℕ)
      → lo < 2 ^ 64
      → lo + u64 (u64 (lo * np) * n)
        ≡ (if ltb (u64 (lo + u64 (u64 (lo * np) * n))) lo then 1 else 0) * 2 ^ 64
  carry_word lo h = ground (arith, low_words lo)

  -- What the product's words add up to before the subtraction.
  mont_sum : ℕ → ℕ → ℕ
  mont_sum a b =
      u64 (a * b / 2 ^ 64)
      + u64 (u64 (u64 (a * b) * np) * n / 2 ^ 64)
      + (if ltb (u64 (u64 (a * b) + u64 (u64 (u64 (a * b) * np) * n))) (u64 (a * b)) then 1 else 0)

  module _ (a b : ℕ) (small : n ≤ 2 ^ 63) (ha : a < n) (hb : b < n) where
    product_bound : a * b ≤ n * 2 ^ 63
    product_bound =
        let p : a ≤ n = omega arith in let q : b ≤ 2 ^ 63 = omega arith in mul-le-mul p q

    multiple_bound : u64 (u64 (a * b) * np) * n ≤ (2 ^ 64 - 1) * n
    multiple_bound =
        let p : u64 (u64 (a * b) * np) ≤ 2 ^ 64 - 1 = omega arith in mul-le-mul p (le_refl n)

    mont_sum_lem : mont_sum a b * 2 ^ 64 ≡ a * b + u64 (u64 (a * b) * np) * n
    unfolding mont_sum
    mont_sum_lem =
        omega (arith, carry_word (u64 (a * b)) (omega arith), product_bound, multiple_bound)

    mont_sum_bound : mont_sum a b < 2 * n
    mont_sum_bound = omega (arith, mont_sum_lem, product_bound, multiple_bound)

    whole_sum : u64 (mont_sum a b) ≡ mont_sum a b
    whole_sum = omega (arith, mont_sum_bound)

    mont_mul_eq :
        mont_mul a b n np
        ≡ (if leb n (u64 (mont_sum a b)) then u64 (mont_sum a b) - n else u64 (mont_sum a b))
    unfolding mont_mul mont_sum
    mont_mul_eq = refl

    reduced :
        (s q : ℕ)
        → s * 2 ^ 64 ≡ a * b + q * n
        → s < 2 * n
        → ((if leb n s then s - n else s) < n)
          × (((if leb n s then s - n else s) * 2 ^ 64) % n ≡ (a * b) % n)
    reduced s q e below = elim (Bool-cases (leb n s)) [
      | inl over ↦ rw over (
        ground arith,
        mod-eq_of_multiples ((s - n) * 2 ^ 64) (a * b) (2 ^ 64) q n (ground (arith, e)),
      )
      | inr under ↦
          rw under (ground arith, mod-eq_of_multiples (s * 2 ^ 64) (a * b) 0 q n (omega (arith, e)))
    ]

    -- For a modulus `n` up to 2 ^ 63, with `n` times `np` being -1 modulo 2 ^ 64, and factors below `n`,
    -- `mont_mul` is below `n` and its 2 ^ 64 fold is the product modulo `n`.
    pub mont_mul_lem : (mont_mul a b n np < n) × ((mont_mul a b n np * 2 ^ 64) % n ≡ (a * b) % n)
    mont_mul_lem =
        rw (mont_mul_eq, whole_sum)
          (reduced (mont_sum a b) (u64 (u64 (a * b) * np)) mont_sum_lem mont_sum_bound)

-- `mont_R2` is 2 ^ 128 modulo `n`.
pub mont_r2_lem : (n : ℕ) → 0 < n → n < 2 ^ 64 → mont_r2 n ≡ 2 ^ 128 % n
unfolding mont_r2 sub64
mont_r2_lem n pos h =
    let cut : u64 (0 + 2 ^ 64 - u64 n) ≡ 2 ^ 64 - n = omega arith in
    let full : (2 ^ 64 - n) % n ≡ 2 ^ 64 % n =
      mod-eq_of_multiples (2 ^ 64 - n) (2 ^ 64) 1 0 n (omega arith) in
    rw (cut, full)
      (mul-mod (2 ^ 64 % n) (2 ^ 64 % n) (2 ^ 64) (2 ^ 64) n (mod-mod (2 ^ 64) n)
        (mod-mod (2 ^ 64) n))
