-- ===== src/Primality/Window/Exponent.antt =====
-- The exponents of the tests on several limbs in new_src/primality_limbs.c, n - 1 and (n - 1) / 2, and
-- their highest bit.
use Prim.Native.Nat.{bit_or}
use mathlib.Core.Path.{subst}
use native.Mathlib.Nat.{mul-le-mul, le_refl, pow-suc}
use gap_miner_v.Prelude.{
  ℕ, zero, suc, ◌+◌, ◌-◌, ◌*◌, ◌/◌, ◌%◌, ◌^◌, ◌≤◌, ◌<◌, ◌≡◌, ◌∙◌, refl, sym, ap, arith, List, [],
  ◌∷◌, ◌==◌, u64, get_or, take, length, Bool-cases, inl, inr,
}
use gap_miner_v.Prelude.Arith.{pow_add, pow-pos, div-lt_of_lt-mul, le-div_of_mul-le}
use gap_miner_v.Prelude.Bits.{bit_or_low}
use gap_miner_v.Primality.Word.{sub64}
use gap_miner_v.Primality.Limbs.Value.{value, AllWords, weight, value-lt, take-lt, take_limb}
use gap_miner_v.Primality.Limbs.Radix.{CountsZeros, weight-power, word_of}
use gap_miner_v.Primality.Limbs.Montmul.Buffer.{value-take}
use gap_miner_v.Primality.Window.{find_top, find_msb_n, minus_one, halve_limbs}

-- `__builtin_clzll` counts the zero bits above the highest set bit, all of them.
abbrev pub LeadingZeros : (ℕ → ℕ) → Type 0
LeadingZeros clzll = CountsZeros clzll × ((x : ℕ) → 0 < x → x < 2 ^ 64 → x < 2 ^ (64 - clzll x))

pub minus_one_lem :
    (n : List ℕ)
    → AllWords n
    → value n % 2 ≡ 1
    → AllWords (minus_one n)
      × (length (minus_one n) ≡ length n)
      × (value (minus_one n) ≡ value n - 1)
unfolding minus_one sub64
minus_one_lem [] h odd = (tt, refl, refl)
minus_one_lem (x ∷ n) h odd =
    let small = h.0 in
    let one : u64 (x + 2 ^ 64 - 1) ≡ x - 1 = omega (arith, small, odd) in
    ((omega arith, h.1), refl, omega (arith, small, one, odd))

pub halve_limbs_lem :
    (e : List ℕ)
    → AllWords e
    → AllWords (halve_limbs e)
      × (length (halve_limbs e) ≡ length e)
      × (value (halve_limbs e) ≡ value e / 2)
unfolding halve_limbs
halve_limbs_lem [] h = (tt, refl, refl)
halve_limbs_lem (x ∷ []) h = ((omega (arith, h.0), tt), refl, omega arith)
halve_limbs_lem (x ∷ y ∷ e) h =
    let rest = halve_limbs_lem (y ∷ e) h.1 in
    let hx = h.0 in
    let top : u64 (y * 2 ^ 63) ≡ (y % 2) * 2 ^ 63 = omega arith in
    let small : x / 2 < 2 ^ 63 = omega arith in
    let joined : bit_or (x / 2) (u64 (y * 2 ^ 63)) ≡ (y % 2) * 2 ^ 63 + x / 2 =
      rw top (bit_or_low 63 (y % 2) (x / 2) small) in
    let r = rest.2 in
    ((omega (arith, joined, small), rest.0), ap suc rest.1, omega (arith, joined, r))

-- The highest limb that is not 0.
find_top_lem :
    (top : ℕ) (e : List ℕ)
    → AllWords e
    → 0 < value e
    → value e < weight (suc top)
    → let r = find_top top e in (r ≤ top) × (0 < get_or e r 0) × (value e < weight (suc r))
unfolding find_top
find_top_lem zero e he pos h =
    let whole = value-take e 1 h in
    let one = take_limb 0 e in (omega arith, omega (arith, whole, one, value_none e), h)
  where
    value_none : (e : List ℕ) → value (take 0 e) ≡ 0
    value_none [] = refl
    value_none (x ∷ e) = refl
find_top_lem (suc top) e he pos h = elim (Bool-cases (get_or e (suc top) 0 == 0)) [
  | inl none ↦
      let z : get_or e (suc top) 0 ≡ 0 = ground arith in
      let split = value-take e (suc (suc top)) h in
      let last = take_limb (suc top) e in
      let low = take-lt (suc top) e he in
      let gone : weight (suc top) * get_or e (suc top) 0 ≡ 0 =
        ap (λ (t : ℕ). weight (suc top) * t) z ∙ omega arith in
      let r = find_top_lem top e he pos (omega (arith, split, last, low, gone)) in
      rw none (omega (arith, r.0), r.1, r.2)
  | inr some ↦ rw some (omega arith, ground arith, h)
]

one_fold : (v p : ℕ) → 0 < p → p ≤ v → v < 2 * p → v / p ≡ 1
one_fold v p pos l u =
    let a : 1 ≤ v / p = le-div_of_mul-le v 1 p pos (omega arith) in
    let b : v / p < 2 = div-lt_of_lt-mul v 2 p (omega arith) in omega arith

-- Above the highest bit there is nothing, and the bit is 1.
pub find_msb_n_lem :
    (clzll : ℕ → ℕ) (e : List ℕ) (nl : ℕ)
    → LeadingZeros clzll
    → AllWords e
    → length e ≡ nl
    → 0 < nl
    → 0 < value e
    → (find_msb_n clzll e nl < 64 * nl) × (value e / 2 ^ find_msb_n clzll e nl ≡ 1)
unfolding find_msb_n
find_msb_n_lem clzll e nl law he le pos some =
    let top = find_top (nl - 1) e in
    let last : suc (nl - 1) ≡ nl = omega arith in
    let below : value e < weight (suc (nl - 1)) =
      subst (λ (k : ℕ). value e < weight k) (le ∙ sym last) (value-lt e he) in
    let found = find_top_lem (nl - 1) e he some below in
    let x = get_or e top 0 in
    let word = word_of e top he in
    let zeros = law.0 x found.1 word in
    let bit = 63 - clzll x in
    let more : x < 2 * 2 ^ bit =
      let all = law.1 x found.1 word in
      let k : 64 - clzll x ≡ suc bit = let z = zeros.0 in omega (arith, z) in
      omega (arith, all, ap (λ (t : ℕ). 2 ^ t) k, pow-suc 2 bit) in
    let place : top * 64 + 63 - clzll x ≡ 64 * top + bit = let z = zeros.0 in omega (arith, z) in
    let power : 2 ^ (top * 64 + 63 - clzll x) ≡ weight top * 2 ^ bit =
      ap (λ (t : ℕ). 2 ^ t) place
      ∙ (pow_add 2 (64 * top) bit ∙ ap (λ (t : ℕ). t * 2 ^ bit) (sym (weight-power top))) in
    let low = take-lt top e he in
    let split : value e ≡ value (take top e) + weight top * x =
      sym (value-take e (suc top) found.2) ∙ take_limb top e in
    let least : weight top * 2 ^ bit ≤ weight top * x =
      let z = zeros.1 in mul-le-mul (le_refl (weight top)) z in
    let most : weight top * (x + 1) ≤ weight top * (2 * 2 ^ bit) =
      let z : x + 1 ≤ 2 * 2 ^ bit = omega (arith, more) in mul-le-mul (le_refl (weight top)) z in
    (
      omega (arith, place, let f = found.0 in f),
      ap (λ (t : ℕ). value e / t) power
          ∙ one_fold (value e) (weight top * 2 ^ bit)
              (omega (arith, sym power, pow-pos (top * 64 + 63 - clzll x)))
              (omega (arith, split, least)) (omega (arith, split, low, most)),
    )
