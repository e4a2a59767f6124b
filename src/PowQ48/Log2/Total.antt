-- ===== src/PowQ48/Log2/Total.antt =====
-- The loops of `q48_mpz_log2` end, with fuel counted from the accuracy.
use native.Mathlib.Decide.{dec_le}
use gap_miner_v.Prelude.{
  ℕ, zero, suc, ◌+◌, ◌-◌, ◌*◌, ◌/◌, ◌^◌, ◌≤◌, ◌<◌, ◌≡◌, refl, ap, ◌∙◌, arith, some, Bool-cases, inl,
  inr, true, false, ltb, lt→ltb, u64,
}
use gap_miner_v.Prelude.Arith.{pow-pos, div-lt_of_lt-mul, le-div_of_mul-le}
use gap_miner_v.PowQ48.Log2.{Norm, below_two, square, normalize, add_bits}

-- The test of the inner loop on a value below 4.0.
digit_of_wide : (p n : ℕ) → n < 4 * p → u64 (n / p) ≡ n / p
digit_of_wide p n h = omega (arith, div-lt_of_lt-mul n 4 p (omega arith))

below_two_true : (p n : ℕ) → 0 < p → n / p < 2 → n < 2 * p
below_two_true p n h d = grind arith

below_two_false : (p n : ℕ) → 2 ≤ n / p → 2 * p ≤ n
below_two_false p n d = grind arith

square_lower : (p n : ℕ) → 0 < p → p ≤ n → p ≤ n * n / p
square_lower p n h l = le-div_of_mul-le (n * n) p p h (grind arith)

squares : (n m : ℕ) → n < m → n * n < m * m
squares n m h = grind arith

four_squares : (p n : ℕ) → n < 2 * p → n * n < p * (4 * p)
four_squares p n u = omega (arith, squares n (2 * p) u)

square_upper : (p n : ℕ) → 0 < p → n < 2 * p → n * n / p < 4 * p
square_upper p n h u = div-lt_of_lt-mul (n * n) (4 * p) p (four_squares p n u)

le→ltb-false : (a b : ℕ) → b ≤ a → ltb a b ≡ false
le→ltb-false a b h = ground arith

module _ (shift accuracy : ℕ) where
  -- A value that is at least 1.0 and below 2.0, scaled by 2 ^ shift.
  abbrev pub IsUnit : ℕ → Type 0
  IsUnit n = (2 ^ shift ≤ n) × (n < 2 * 2 ^ shift)

  abbrev pub IsWide : ℕ → Type 0
  IsWide n = (2 ^ shift ≤ n) × (n < 4 * 2 ^ shift)

  -- What the inner loop leaves: no fewer bits, and either too many or a digit of 1.
  pub record IsNormal (s t : Norm) : Type 0 where
    pub more : s.bits ≤ t.bits
    pub within : t.bits ≤ accuracy + 1
    pub digit : t.bits ≤ accuracy → IsUnit (t.n / 2)

  pub test_true :
      (s : Norm) → IsWide s.n → below_two shift accuracy s ≡ true → (s.bits ≤ accuracy) × IsUnit s.n
  test_true s w h =
      ground
        (arith, digit_of_wide (2 ^ shift) s.n w.1, below_two_true (2 ^ shift) s.n (pow-pos shift))

  test_false :
      (s : Norm)
      → IsWide s.n
      → below_two shift accuracy s ≡ false
      → s.bits ≤ accuracy
      → IsUnit (s.n / 2)
  test_false s w h b =
      ground (arith, digit_of_wide (2 ^ shift) s.n w.1, below_two_false (2 ^ shift) s.n)

  pub square-IsWide : (s : Norm) → IsUnit s.n → IsWide (square shift accuracy s).n
  square-IsWide s u = (
    square_lower (2 ^ shift) s.n (pow-pos shift) u.0,
    square_upper (2 ^ shift) s.n (pow-pos shift) u.1,
  )

  pub normalize_step :
      (fuel : ℕ) (s : Norm)
      → below_two shift accuracy s ≡ true
      → normalize shift accuracy (suc fuel) s
        ≡ normalize shift accuracy fuel (square shift accuracy s)
  unfolding normalize
  normalize_step fuel s e = rw (e, normalize)

  pub normalize_stop :
      (fuel : ℕ) (s : Norm)
      → below_two shift accuracy s ≡ false
      → normalize shift accuracy (suc fuel) s ≡ some s
  unfolding normalize
  normalize_stop fuel s e = rw (e, normalize)

  pub normalize_total :
      (fuel : ℕ) (s : Norm)
      → accuracy + 1 < s.bits + fuel
      → s.bits ≤ accuracy + 1
      → IsWide s.n
      → (t : Norm) × (normalize shift accuracy fuel s ≡ some t) × IsNormal s t
  normalize_total zero s h b w = absurd (omega arith)
  normalize_total (suc fuel) s h b w = elim (Bool-cases (below_two shift accuracy s)) [
    | inl e ↦
        let u : (s.bits ≤ accuracy) × IsUnit s.n = test_true s w e in
        let (t, runs, normal) =
          normalize_total fuel (square shift accuracy s) (omega arith) (omega arith)
            (square-IsWide s u.1) in
        (
          t,
          normalize_step fuel s e ∙ runs,
          record { more = omega arith; within = normal.within; digit = normal.digit },
        )
    | inr e ↦ (
      s,
      normalize_stop fuel s e,
      record { more = omega arith; within = b; digit = test_false s w e },
    )
  ]

  pub unit_below_two :
      (s : Norm) → s.bits ≤ accuracy → IsUnit s.n → below_two shift accuracy s ≡ true
  unit_below_two s b u = ground (arith, div-lt_of_lt-mul s.n 2 (2 ^ shift) (omega arith))

  -- One round of the outer loop.
  pub normalize_round :
      (s : Norm)
      → s.bits ≤ accuracy
      → IsUnit s.n
      → (t : Norm) × (normalize shift accuracy (accuracy + 2) s ≡ some t)
        × (s.bits < t.bits)
        × IsNormal s t
  normalize_round s b u =
      let (t, runs, normal) =
        normalize_total (accuracy + 1) (square shift accuracy s) (omega arith) (omega arith)
          (square-IsWide s u) in
      (
        t,
        enters ∙ normalize_step (accuracy + 1) s (unit_below_two s b u) ∙ runs,
        omega (arith, normal.more),
        record { more = omega (arith, normal.more); within = normal.within; digit = normal.digit },
      )
    where
      enters :
          normalize shift accuracy (accuracy + 2) s
          ≡ normalize shift accuracy (suc (accuracy + 1)) s
      enters = ap (λ k. normalize shift accuracy k s) (omega arith)

  pub add_bits_stop :
      (fuel : ℕ) (s t : Norm) (out : ℕ)
      → normalize shift accuracy (accuracy + 2) s ≡ some t
      → accuracy < t.bits
      → add_bits shift accuracy (suc fuel) s out ≡ some out
  unfolding add_bits
  add_bits_stop fuel s t out e h = rw (e, add_bits) (rw (lt→ltb _ _ h) refl)

  pub add_bits_step :
      (fuel : ℕ) (s t : Norm) (out : ℕ)
      → normalize shift accuracy (accuracy + 2) s ≡ some t
      → t.bits ≤ accuracy
      → add_bits shift accuracy (suc fuel) s out
        ≡ add_bits shift accuracy fuel
            (record { n = t.n / 2; bits = t.bits })
            (out + 2 ^ (accuracy - t.bits))
  unfolding add_bits
  add_bits_step fuel s t out e h = rw (e, add_bits) (rw (le→ltb-false _ _ h) refl)

  -- The outer loop ends, whatever `out` starts as.
  pub add_bits_total :
      (fuel : ℕ) (s : Norm) (out : ℕ)
      → accuracy < s.bits + fuel
      → s.bits ≤ accuracy
      → IsUnit s.n
      → (r : ℕ) × (add_bits shift accuracy fuel s out ≡ some r)
  add_bits_total zero s out h b u = absurd (omega arith)
  add_bits_total (suc fuel) s out h b u =
      let (t, runs, grows, normal) = normalize_round s b u in
      elim (dec_le t.bits accuracy) [
        | yes l ↦
            let (r, rest) =
              add_bits_total fuel (record { n = t.n / 2; bits = t.bits })
                (out + 2 ^ (accuracy - t.bits)) (omega arith) l (normal.digit l) in
            (r, add_bits_step fuel s t out runs l ∙ rest)
        | no l ↦ (out, add_bits_stop fuel s t out runs (omega arith))
      ]
