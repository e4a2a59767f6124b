-- ===== src/PowQ48/TargetSize.antt =====
-- `pow_q48_target_size` against `pow_q48_merit`: the gap length at which the target is reached.
use native.Mathlib.Decide.{dec_le}
use native.Mathlib.Nat.{mul-le-mul, le_refl, pow-le-pow_right, mod-eq_of_lt, mod-le}
use gap_miner_v.Prelude.{
  ℕ, suc, ◌+◌, ◌-◌, ◌*◌, ◌/◌, ◌%◌, ◌^◌, ◌≤◌, ◌<◌, ◌≡◌, ◌≢◌, refl, ◌∙◌, arith, some, lt→ltb,
  ==_false,
}
use gap_miner_v.Prelude.Arith.{div-lt_of_lt-mul, div-mul-le, le-div_of_mul-le, lt-div-suc-mul}
use gap_miner_v.Gmp.{Gmp}
use gap_miner_v.PowQ48.Log2.{mpz_log2}
use gap_miner_v.PowQ48.Log2.Sound.{mpz_log2_lem}
use gap_miner_v.PowQ48.Bytes.Laws.{low64-zero}
use gap_miner_v.PowQ48.Merit.{log2e112, merit, target_size}
use gap_miner_v.PowQ48.Certify.{merit_eq}

two_bits : (g : Gmp) (x : ℕ) → 2 ≤ x → 2 ≤ g.sizeinbase2 x
two_bits g x h = elim (dec_le 2 (g.sizeinbase2 x)) [
  | yes l ↦ l
  | no l ↦ absurd (omega (arith, g.sizeinbase2_upper x, few (omega arith)))
]
  where
    few : g.sizeinbase2 x ≤ 1 → 2 ^ g.sizeinbase2 x ≤ 2 ^ 1
    few k = pow-le-pow_right {n = 2} (omega arith) k

target_size_eq :
    (g : Gmp) (start target l : ℕ)
    → 0 < start
    → target ≢ 0
    → mpz_log2 g start 64 ≡ some l
    → 0 < l
    → target_size g start target ≡ some (l * target / log2e112 % 2 ^ 64)
unfolding target_size
target_size_eq g start target l pos ne log l_pos =
    rw (==_false start 0 (omega arith), ==_false target 0 ne, log, lt→ltb 0 l l_pos, low64-zero)
      refl

-- A shorter gap has a smaller merit.
shorter :
    (gap l target c : ℕ) → 0 < c → gap < l * target / c % 2 ^ 64 → gap * c / l % 2 ^ 64 < target
shorter gap l target c pos h =
    omega (arith, div-lt_of_lt-mul (gap * c) target l product, mod-le (gap * c / l) (2 ^ 64))
  where
    quotient : suc gap ≤ l * target / c
    quotient = omega (arith, mod-le (l * target / c) (2 ^ 64), h)

    product : gap * c < l * target
    product = omega (arith, mul-le-mul quotient (le_refl c), div-mul-le (l * target) c)

longer :
    (gap l target c : ℕ)
    → 0 < c
    → 0 < l
    → l * target / c < 2 ^ 64
    → gap * c / l < 2 ^ 64
    → l * target / c % 2 ^ 64 < gap
    → target ≤ gap * c / l % 2 ^ 64
longer gap l target c pos lp small fits h =
    rw (mod-eq_of_lt fits) (le-div_of_mul-le (gap * c) target l lp product)
  where
    quotient : l * target / c + 1 ≤ gap
    quotient = omega (arith, h, mod-eq_of_lt small)

    product : target * l ≤ gap * c
    product = omega (arith, mul-le-mul quotient (le_refl c), lt-div-suc-mul (l * target) c pos)

-- For a merit below 2 ^ 16 and a target of 64 bits, nothing is cut off at 64 bits.
sizes :
    (l s gap target : ℕ)
    → (s - 1) * 2 ^ 64 ≤ l
    → l < s * 2 ^ 64
    → 2 ≤ s
    → s < 2 ^ 32
    → target < 2 ^ 64
    → gap < 2 ^ 15 * (s - 1)
    → (l * target / log2e112 < 2 ^ 64) × (gap * log2e112 / l < 2 ^ 64)
sizes l s gap target lo hi two few t_fits g_fits = (
  div-lt_of_lt-mul (l * target) (2 ^ 64) log2e112 (omega (arith, mul-le-mul l_small t_small)),
  div-lt_of_lt-mul (gap * log2e112) (2 ^ 64) l (omega (arith, g_fits, lo)),
)
  where
    l_small : l ≤ 2 ^ 32 * 2 ^ 64
    l_small = omega arith

    t_small : target ≤ 2 ^ 64
    t_small = omega arith

-- For a start of at least 2 and a target of 64 bits that is not 0, `pow_q48_target_size` is the gap length
-- at which `pow_q48_merit` reaches the target: a shorter gap has a smaller merit, a longer one reaches it.
-- The gap is below 2 ^ 15 for each bit of the start but the first, where the merit fits into 64 bits, and the
-- start has fewer than 2 ^ 32 - 64 bits.
pub target_size-merit :
    (g : Gmp) (start end target : ℕ)
    → 2 ≤ start
    → g.sizeinbase2 start + 64 < 2 ^ 32
    → start ≤ end
    → end - start < 2 ^ 15 * (g.sizeinbase2 start - 1)
    → target ≢ 0
    → target < 2 ^ 64
    → (n q : ℕ) × (target_size g start target ≡ some n)
      × (merit g start end ≡ some q)
      × (end - start < n → q < target)
      × (n < end - start → target ≤ q)
target_size-merit g start end target two few h gap_fits ne t_fits =
    let pos : 0 < start = omega arith in
    let (l, log, lo, hi, below) = mpz_log2_lem g start 64 pos (omega arith) in
    let bits : 2 ≤ g.sizeinbase2 start = two_bits g start two in
    let l_pos : 0 < l = omega arith in
    let gap = end - start in
    let (small, fits) =
      sizes l (g.sizeinbase2 start) gap target lo hi bits (omega arith) t_fits gap_fits in
    (
      l * target / log2e112 % 2 ^ 64,
      gap * log2e112 / l % 2 ^ 64,
      target_size_eq g start target l pos ne log l_pos,
      merit_eq g start pos l log end h
          ∙ rw (lt→ltb 0 l l_pos, low64-zero g (gap * log2e112 / l)) refl,
      shorter gap l target log2e112 (omega arith),
      longer gap l target log2e112 (omega arith) l_pos small fits,
    )
