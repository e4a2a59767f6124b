-- ===== src/Prelude/Bits.antt =====
-- `|` of fields that do not overlap is a sum, at every width; `&` with a low mask is a remainder.
use Prim.Native.Nat.{bit_or, bit_or-bitwise, bit_and, bit_and-bitwise, digits, max, min}
use native.Mathlib.Nat.{pow-suc, le_refl}
use gap_miner_v.Prelude.{ℕ, zero, suc, ◌+◌, ◌*◌, ◌/◌, ◌%◌, ◌^◌, ◌≤◌, ◌<◌, ◌≡◌, refl, sym, ap, arith}

abbrev joined : ℕ → ℕ → ℕ → ℕ
joined n a b = digits (λ y. y) max n a b

-- More fuel than the first operand does not matter.
joined_fuel : (a n m b : ℕ) → a ≤ n → a ≤ m → joined n a b ≡ joined m a b
joined_fuel a zero m b p q = let e : 0 ≡ a = omega arith in rw (← e) (joined_none m b)
  where
    joined_none : (m b : ℕ) → b ≡ joined m 0 b
    joined_none zero b = refl
    joined_none (suc m) b = refl
joined_fuel zero (suc n) zero b p q = refl
joined_fuel zero (suc n) (suc m) b p q = refl
joined_fuel (suc a) (suc n) zero b p q = absurd (omega arith)
joined_fuel (suc a) (suc n) (suc m) b p q =
    ap (λ (t : ℕ). t * 2 + max (suc a % 2) (b % 2))
      (joined_fuel (suc a / 2) n m (b / 2) (omega arith) (omega arith))

zero-bit_or : (b : ℕ) → bit_or 0 b ≡ b
zero-bit_or b = bit_or-bitwise 0 b

-- The lowest digit of an `|`.
pub bit_or_step : (a b : ℕ) → bit_or a b ≡ bit_or (a / 2) (b / 2) * 2 + max (a % 2) (b % 2)
bit_or_step zero b = omega (arith, zero-bit_or b, zero-bit_or (b / 2))
bit_or_step (suc a) b = omega (
  arith,
  bit_or-bitwise (suc a) b,
  bit_or-bitwise (suc a / 2) (b / 2),
  joined_fuel (suc a / 2) a (suc a / 2) (b / 2) (omega arith) (le_refl (suc a / 2)),
)

double : (q k : ℕ) → q * 2 ^ suc k ≡ 2 * (q * 2 ^ k)
double q k = omega (arith, ap (λ (t : ℕ). q * t) (pow-suc 2 k))

bit_or-zero_fuel : (n a : ℕ) → a ≤ n → bit_or a 0 ≡ a
bit_or-zero_fuel n zero h = refl
bit_or-zero_fuel zero (suc a) h = absurd (omega arith)
bit_or-zero_fuel (suc n) (suc a) h =
    omega (arith, bit_or_step (suc a) 0, bit_or-zero_fuel n (suc a / 2) (omega arith))

-- `(q << k) | r` with r in the low k bits.
pub bit_or_high : (k q r : ℕ) → r < 2 ^ k → bit_or (q * 2 ^ k) r ≡ q * 2 ^ k + r
bit_or_high zero q r h = ground (arith, bit_or-zero_fuel (q * 1) (q * 1) (le_refl (q * 1)))
bit_or_high (suc k) q r h = ground (
  arith,
  bit_or_step (q * 2 ^ suc k) r,
  double q k,
  pow-suc 2 k,
  bit_or_high k q (r / 2) (omega (arith, pow-suc 2 k)),
)

-- `r | (q << k)` with r in the low k bits.
pub bit_or_low : (k q r : ℕ) → r < 2 ^ k → bit_or r (q * 2 ^ k) ≡ q * 2 ^ k + r
bit_or_low zero q r h = ground (arith, zero-bit_or (q * 1))
bit_or_low (suc k) q r h = ground (
  arith,
  bit_or_step r (q * 2 ^ suc k),
  double q k,
  pow-suc 2 k,
  bit_or_low k q (r / 2) (omega (arith, pow-suc 2 k)),
)

-- The mask of k ones, and the k low bits of a number.
abbrev ones : ℕ → ℕ
ones zero = 0
ones (suc k) = 2 * ones k + 1

abbrev low_bits : ℕ → ℕ → ℕ
low_bits zero a = 0
low_bits (suc k) a = low_bits k (a / 2) * 2 + a % 2

low_bits-zero : (k : ℕ) → low_bits k 0 ≡ 0
low_bits-zero zero = refl
low_bits-zero (suc k) = omega (arith, low_bits-zero k)

masked : (n k a : ℕ) → a ≤ n → digits (λ y. zero) min n a (ones k) ≡ low_bits k a
masked zero k zero h = sym (low_bits-zero k)
masked (suc n) k zero h = sym (low_bits-zero k)
masked zero k (suc a) h = absurd (omega arith)
masked (suc n) zero (suc a) h = omega (arith, masked n zero (suc a / 2) (omega arith))
masked (suc n) (suc k) (suc a) h =
    let half : (2 * ones k + 1) / 2 ≡ ones k = omega arith in
    rw half (omega (arith, masked n k (suc a / 2) (omega arith)))

-- The four low bits.
pub bit_and_nibble : (b : ℕ) → bit_and b 0x0f ≡ b % 16
bit_and_nibble b = omega (arith, bit_and-bitwise b 15, masked b 4 b (le_refl b))
