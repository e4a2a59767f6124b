-- ===== src/PowQ48/Log2/Sound.antt =====
-- What `q48_mpz_log2` computes: an approximation from below of log2(src) * 2^accuracy.
use native.Mathlib.Decide.{dec_le}
use native.Mathlib.Nat.{mul-le-mul, pow-suc, pow-zero, pow-le-pow_right, le_refl}
use gap_miner_v.Prelude.{
  ℕ, suc, ◌+◌, ◌-◌, ◌*◌, ◌/◌, ◌^◌, ◌≤◌, ◌<◌, ◌≡◌, refl, ap, ◌∙◌, arith, some, u32, u64,
}
use gap_miner_v.Prelude.Arith.{pow-pos, pow_add, div-mul-le, mul-cancel-le}
use gap_miner_v.Gmp.{Gmp}
use gap_miner_v.PowQ48.Log2.{Norm, square, add_bits, mpz_log2}
use gap_miner_v.PowQ48.Log2.Keeps.{add_bits_keeps}
use gap_miner_v.PowQ48.Log2.Total.{IsUnit}

-- Squaring and halving a scaled value, as inequalities between numbers.
square_bound : (a n y p q : ℕ) → 0 < p → q * p ≤ n * n → a * n ≤ y * p → (a * a) * q ≤ (y * y) * p
square_bound a n y p q pos h k =
    mul-cancel-le ((a * a) * q) ((y * y) * p) p pos
      (omega (arith, mul-le-mul (le_refl (a * a)) h, mul-le-mul k k))

unit_bound : (a n y p : ℕ) → 0 < p → p ≤ n → a * n ≤ y * p → a ≤ y
unit_bound a n y p pos h k = mul-cancel-le a y p pos (omega (arith, mul-le-mul (le_refl a) h))

half_bound : (a n : ℕ) → (2 * a) * (n / 2) ≤ a * n
half_bound a n = omega (arith, mul-le-mul (le_refl a) (div-mul-le n 2))

pow_up : (k : ℕ) → 2 ^ (k + 1) ≡ 2 ^ k + 2 ^ k
pow_up k = rw (pow_add 2 k 1) (omega arith)

digit_up : (m k : ℕ) → k + 1 ≤ m → 2 ^ (m - k) ≡ 2 * 2 ^ (m - (k + 1))
digit_up m k h =
    let e : m - k ≡ m - (k + 1) + 1 = omega arith in rw (e, pow_up (m - (k + 1))) (omega arith)

pow_pred_le : (m k : ℕ) → 2 ^ (m - (k + 1)) ≤ 2 ^ (m - k)
pow_pred_le m k = pow-le-pow_right {n = 2} (omega arith) (omega arith)

module _ (src shift accuracy low limit : ℕ) where
  -- Before all bits are in: the digits found, times the value left, stay below the power of `src`.
  record Tracks (s : Norm) (out : ℕ) : Type 0 where
    exponent : ℕ
    scaled : out ≡ exponent * 2 ^ (accuracy - s.bits)
    below : 2 ^ exponent * s.n ≤ src ^ (2 ^ s.bits) * 2 ^ shift

  -- The invariant of both loops.
  record Good (s : Norm) (out : ℕ) : Type 0 where
    early : s.bits ≤ accuracy → Tracks s out
    late : accuracy < s.bits → 2 ^ out ≤ src ^ (2 ^ accuracy)
    -- The digits to come cannot reach the next integer part.
    room : out + 2 ^ (accuracy - s.bits) ≤ limit
    digit : s.bits ≤ accuracy → 2 * 2 ^ shift ≤ s.n → out + 2 * 2 ^ (accuracy - s.bits) ≤ limit
    start : low ≤ out

  square-Tracks :
      (s : Norm) (out : ℕ)
      → s.bits + 1 ≤ accuracy
      → Tracks s out
      → Tracks (square shift accuracy s) out
  square-Tracks s out b t = record {
    exponent = t.exponent + t.exponent;
    scaled = omega (arith, t.scaled, ap (λ (k : ℕ). t.exponent * k) (digit_up accuracy s.bits b));
    below =
        rw (pow_add 2 t.exponent t.exponent, src_square)
          (square_bound (2 ^ t.exponent) s.n (src ^ (2 ^ s.bits)) (2 ^ shift)
            (s.n * s.n / 2 ^ shift) (pow-pos shift) (div-mul-le (s.n * s.n) (2 ^ shift)) t.below);
  }
    where
      src_square : src ^ (2 ^ (s.bits + 1)) ≡ src ^ (2 ^ s.bits) * src ^ (2 ^ s.bits)
      src_square = rw (← pow_add src (2 ^ s.bits) (2 ^ s.bits), pow_up s.bits) refl

  halve-Tracks :
      (s : Norm) (out : ℕ)
      → s.bits ≤ accuracy
      → Tracks s out
      → Tracks (record { n = s.n / 2; bits = s.bits }) (out + 2 ^ (accuracy - s.bits))
  halve-Tracks s out b t = record {
    exponent = suc t.exponent;
    scaled = omega (arith, t.scaled);
    below = rw (pow-suc 2 t.exponent) (omega (arith, t.below, half_bound (2 ^ t.exponent) s.n));
  }

  square-late :
      (out : ℕ) (s : Norm)
      → s.bits ≡ accuracy
      → IsUnit shift accuracy s.n
      → Tracks s out
      → 2 ^ out ≤ src ^ (2 ^ accuracy)
  square-late out s e u t =
      let whole : out ≡ t.exponent =
        t.scaled ∙ (ap (λ (k : ℕ). t.exponent * 2 ^ k) nothing ∙ omega arith) in
      let below : 2 ^ t.exponent * s.n ≤ src ^ (2 ^ accuracy) * 2 ^ shift = rw (← e) t.below in
      rw whole (
        unit_bound (2 ^ t.exponent) s.n (src ^ (2 ^ accuracy)) (2 ^ shift) (pow-pos shift) u.0
          below)
    where
      nothing : accuracy - s.bits ≡ 0
      nothing = omega arith

  square-Good :
      (out : ℕ) (s : Norm)
      → s.bits ≤ accuracy
      → IsUnit shift accuracy s.n
      → Good s out
      → Good (square shift accuracy s) out
  square-Good out s b u g = record {
    early = λ l. square-Tracks s out l (g.early b);
    late = λ l. square-late out s (omega arith) u (g.early b);
    room = omega (arith, g.room, pow_pred_le accuracy s.bits);
    digit = λ l h. omega (arith, g.room, digit_up accuracy s.bits l);
    start = g.start;
  }

  halve-Good :
      (out : ℕ) (s : Norm)
      → s.bits ≤ accuracy
      → IsUnit shift accuracy (s.n / 2)
      → Good s out
      → Good (record { n = s.n / 2; bits = s.bits }) (out + 2 ^ (accuracy - s.bits))
  halve-Good out s b u g = record {
    early = λ l. halve-Tracks s out l (g.early l);
    late = λ l. absurd (omega arith);
    room = omega (arith, g.digit b (omega (arith, u.0)));
    digit = λ l h. absurd (omega arith);
    start = omega (arith, g.start);
  }

pow_one : (a : ℕ) → a ^ 1 ≡ a
pow_one a = pow-suc a 0 ∙ rw (pow-zero a) (omega arith)

times_lt : (a b p : ℕ) → 0 < p → a < b → a * p < b * p
times_lt a b p h l = grind arith

module _ (src accuracy w : ℕ) (lower : 2 ^ w ≤ src) (upper : src < 2 * 2 ^ w) where
  initial-IsUnit : IsUnit (accuracy + w) accuracy (src * 2 ^ accuracy)
  initial-IsUnit = rw (pow_add 2 accuracy w) (
    omega (arith, mul-le-mul lower (le_refl (2 ^ accuracy))),
    strict (2 ^ accuracy) (pow-pos accuracy),
  )
    where
      strict : (p : ℕ) → 0 < p → src * p < 2 * (p * 2 ^ w)
      strict p h = omega (arith, times_lt src (2 * 2 ^ w) p h upper)

  abbrev initial : Norm
  initial = record { n = src * 2 ^ accuracy; bits = 0 }

  initial-Good :
      Good src
        (accuracy + w)
        accuracy
        (w * 2 ^ accuracy)
        ((w + 1) * 2 ^ accuracy)
        initial
        (w * 2 ^ accuracy)
  initial-Good = record {
    early = λ l. record {
      exponent = w;
      scaled = ap (λ (k : ℕ). w * 2 ^ k) (omega arith);
      below = rw (pow_add 2 accuracy w, pow_one src) (omega arith);
    };
    late = λ l. absurd (omega arith);
    room = omega (arith, all_digits);
    digit = λ l h. absurd (omega (arith, initial-IsUnit.1));
    start = le_refl (w * 2 ^ accuracy);
  }
    where
      all_digits : 2 ^ (accuracy - 0) ≡ 2 ^ accuracy
      all_digits = ap (λ (k : ℕ). 2 ^ k) (omega arith)

  add_bits_lem :
      (r : ℕ) × (add_bits (accuracy + w) accuracy (accuracy + 2) initial (w * 2 ^ accuracy)
        ≡ some r)
      × (w * 2 ^ accuracy ≤ r)
      × (r < (w + 1) * 2 ^ accuracy)
      × (2 ^ r ≤ src ^ (2 ^ accuracy))
  add_bits_lem =
      let (r, runs, (t, over, good)) =
        add_bits_keeps (accuracy + w) accuracy
          (Good src (accuracy + w) accuracy (w * 2 ^ accuracy) ((w + 1) * 2 ^ accuracy))
          (square-Good src (accuracy + w) accuracy (w * 2 ^ accuracy) ((w + 1) * 2 ^ accuracy))
          (halve-Good src (accuracy + w) accuracy (w * 2 ^ accuracy) ((w + 1) * 2 ^ accuracy))
          (accuracy + 2) initial (w * 2 ^ accuracy) (omega arith) (omega arith) initial-IsUnit
          initial-Good in
      (r, runs, good.start, omega (arith, good.room, pow-pos (accuracy - t.bits)), good.late over)

sizeinbase2-suc : (g : Gmp) (x : ℕ) → 0 < x → g.sizeinbase2 x ≡ g.sizeinbase2 x - 1 + 1
sizeinbase2-suc g x pos = elim (dec_le 1 (g.sizeinbase2 x)) [
  | yes h ↦ omega arith
  | no h ↦ absurd (omega (arith, g.sizeinbase2_upper x, none_left (omega arith)))
]
  where
    none_left : g.sizeinbase2 x ≡ 0 → 2 ^ g.sizeinbase2 x ≡ 1
    none_left e = ap (λ (k : ℕ). 2 ^ k) e

-- `q48_mpz_log2` returns for every positive number whose bit count leaves the 32-bit shift in range.
-- The result has the exact integer part, and is never above log2(src) * 2 ^ accuracy.
pub mpz_log2_lem :
    (g : Gmp) (src accuracy : ℕ)
    → 0 < src
    → g.sizeinbase2 src + accuracy < 2 ^ 32
    → (r : ℕ) × (mpz_log2 g src accuracy ≡ some r)
      × ((g.sizeinbase2 src - 1) * 2 ^ accuracy ≤ r)
      × (r < g.sizeinbase2 src * 2 ^ accuracy)
      × (2 ^ r ≤ src ^ (2 ^ accuracy))
mpz_log2_lem g src accuracy pos fits =
    let (r, runs, lo, hi, below) = add_bits_lem src accuracy w lower upper in
    (r, enters ∙ runs, lo, rw size hi, below)
  where
    w : ℕ
    w = g.sizeinbase2 src - 1

    size : g.sizeinbase2 src ≡ w + 1
    size = sizeinbase2-suc g src pos

    doubled : 2 ^ g.sizeinbase2 src ≡ 2 ^ w + 2 ^ w
    doubled = ap (λ (k : ℕ). 2 ^ k) size ∙ pow_up w

    lower : 2 ^ w ≤ src
    lower = omega (arith, doubled, g.sizeinbase2_lower src pos)

    upper : src < 2 * 2 ^ w
    upper = omega (arith, doubled, g.sizeinbase2_upper src)

    whole : u64 w ≡ w
    whole = omega arith

    shift : u32 (accuracy + u32 w) ≡ accuracy + w
    shift = omega arith

    enters :
        mpz_log2 g src accuracy
        ≡ add_bits
            (accuracy + w)
            accuracy
            (accuracy + 2)
            (record { n = src * 2 ^ accuracy; bits = 0 })
            (w * 2 ^ accuracy)
    enters = unfold mpz_log2 in rw (whole, shift) refl
