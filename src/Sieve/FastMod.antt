-- ===== src/Sieve/FastMod.antt =====
-- `sieve_fast_mod` of new_src/sieve_core.c is the remainder, and the first odd slot of a prime.
use native.Mathlib.Nat.{div-add-mod', mod-lt, mod-eq_of_lt, mod-mod, zero-mod}
use gap_miner_v.Prelude.{
  ℕ, zero, suc, ◌+◌, ◌-◌, ◌*◌, ◌/◌, ◌%◌, ◌^◌, ◌≤◌, ◌<◌, ◌≡◌, ◌∙◌, refl, sym, ap, arith, leb, ◌==◌,
  u64, uint64_max, if◌then◌else◌, Bool-cases, inl, inr,
}
use gap_miner_v.Prelude.Arith.{mod_of_lt, div-mul-le, lt-div-suc-mul}
use gap_miner_v.Prelude.Mod.{mod-eq_of_multiples, mul-mod, add-mod}
use gap_miner_v.Sieve.{sieve_fast_mod, odd_slot}

-- The quotient that the reciprocal gives is the true one or one less.
quotient_below : (x p v : ℕ) → v * p ≤ 2 ^ 64 → x * v / 2 ^ 64 * p ≤ x
quotient_below x p v h =
    let parts = div-add-mod' (x * v) (2 ^ 64) in
    let rest : v * p + (2 ^ 64 - v * p) ≡ 2 ^ 64 = omega arith in
    omega (arith, ap (λ (t : ℕ). t * p) parts, ap (λ (t : ℕ). x * t) rest)

quotient_above : (x p v : ℕ) → x < 2 ^ 64 → 2 ^ 64 ≤ v * p + p → x < x * v / 2 ^ 64 * p + 2 * p
quotient_above x p v h l =
    let parts = div-add-mod' (x * v) (2 ^ 64) in
    let excess : v * p + p ≡ 2 ^ 64 + (v * p + p - 2 ^ 64) = omega arith in
    let low : x * v % 2 ^ 64 + (2 ^ 64 - 1 - x * v % 2 ^ 64) ≡ 2 ^ 64 - 1 = omega arith in
    let short : x + (2 ^ 64 - 1 - x) ≡ 2 ^ 64 - 1 = omega arith in
    let some_p : 0 < p = positive p l in
    omega (
      arith,
      some_p,
      ap (λ (t : ℕ). t * p) parts,
      ap (λ (t : ℕ). x * t) excess,
      ap (λ (t : ℕ). t * p) low,
      ap (λ (t : ℕ). t * p) short,
    )
  where
    positive : (p : ℕ) → 2 ^ 64 ≤ v * p + p → 0 < p
    positive zero l = absurd (omega arith)
    positive (suc p) l = omega arith

-- A remainder from a quotient that is at most one too small.
from_quotient :
    (x p q : ℕ)
    → q * p ≤ x
    → x < q * p + 2 * p
    → (if leb p (x - q * p) then x - q * p - p else x - q * p) ≡ x % p
from_quotient x p q lo hi = elim (Bool-cases (leb p (x - q * p))) [
  | inl twice ↦ rw twice (
      sym (mod-eq_of_lt {n = x - q * p - p} {m = p} (ground arith))
      ∙ mod-eq_of_multiples (x - q * p - p) x (q + 1) 0 p (ground arith))
  | inr once ↦ rw once (
      sym (mod-eq_of_lt {n = x - q * p} {m = p} (ground arith))
      ∙ mod-eq_of_multiples (x - q * p) x q 0 p (omega arith))
]

-- With the reciprocal of a positive `p`, `sieve_fast_mod` of a 64-bit number is its remainder.
pub sieve_fast_mod_lem :
    (x p : ℕ) → 0 < p → x < 2 ^ 64 → sieve_fast_mod x p (uint64_max / p) ≡ x % p
unfolding sieve_fast_mod
sieve_fast_mod_lem x p pos h =
    rw (word, whole, difference)
      (from_quotient x p q lo
        (quotient_above x p (uint64_max / p) h (ground (arith, lt-div-suc-mul uint64_max p pos))))
  where
    q : ℕ
    q = x * (uint64_max / p) / 2 ^ 64

    lo : x * (uint64_max / p) / 2 ^ 64 * p ≤ x
    lo = quotient_below x p (uint64_max / p) (omega (arith, div-mul-le uint64_max p))

    word : u64 (x * (uint64_max / p) / 2 ^ 64) ≡ q
    word = mod_of_lt q (2 ^ 64) (
        let above : p ≡ suc (p - 1) = omega arith in
        omega (arith, lo, ap (λ (t : ℕ). x * (uint64_max / p) / 2 ^ 64 * t) above))

    whole : u64 (q * p) ≡ q * p
    whole = mod_of_lt (q * p) (2 ^ 64) (omega (arith, lo))

    difference : u64 (x + 2 ^ 64 - q * p) ≡ x - q * p
    difference = omega (arith, lo)

-- Two remainders added, with one conditional subtraction.
reduce_once :
    (a b p : ℕ) → a < p → b < p → (if leb p (a + b) then a + b - p else a + b) ≡ (a + b) % p
reduce_once a b p ha hb = elim (Bool-cases (leb p (a + b))) [
  | inl over ↦ rw over (
      sym (mod-eq_of_lt {n = a + b - p} {m = p} (ground arith))
      ∙ mod-eq_of_multiples (a + b - p) (a + b) 1 0 p (ground arith))
  | inr under ↦ rw under (sym (mod-eq_of_lt {n = a + b} {m = p} (ground arith)))
]

module _ (p : ℕ) (odd : p % 2 ≡ 1) (large : 3 ≤ p) (small : p ≤ 2 ^ 32) where
  half : ℕ
  half = (p + 1) / 2

  -- The slot that is computed from what is missing to a multiple of `p`.
  slot : ℕ → ℕ
  slot v = ((p - v % p) * half) % p

  positive : 0 < p
  positive = omega arith

  twice_half : half * 2 ≡ p + 1
  unfolding half
  twice_half = omega (arith, odd)

  slot-lt : (v : ℕ) → slot v < p
  unfolding slot
  slot-lt v = mod-lt ((p - v % p) * half) positive

  slot-hit : (v i : ℕ) → i % p ≡ slot v → (v + 2 * i) % p ≡ 0
  unfolding slot
  slot-hit v i e =
      add-mod v (2 * i) (v % p) (p - v % p) p (sym (mod-mod v p)) (
        mul-mod 2 i 2 ((p - v % p) * half) p refl e
        ∙ mod-eq_of_multiples (2 * ((p - v % p) * half)) (p - v % p) 0 (p - v % p) p
            (omega (arith, ap (λ (t : ℕ). (p - v % p) * t) twice_half)))
      ∙ (mod-eq_of_multiples (v % p + (p - v % p)) 0 0 1 p (omega (arith, mod-lt v (positive)))
          ∙ zero-mod p)

  hit-slot : (v i : ℕ) → (v + 2 * i) % p ≡ 0 → i % p ≡ slot v
  unfolding slot
  hit-slot v i e =
      mod-eq_of_multiples i (2 * i * half) i 0 p (omega (arith, ap (λ (t : ℕ). i * t) twice_half))
      ∙ mul-mod (2 * i) half (p - v % p) half p missing refl
    where
      total : (2 * i + v % p) % p ≡ 0
      total =
          add-mod (2 * i) (v % p) (2 * i) v p refl (mod-mod v p)
          ∙ (ap (λ (t : ℕ). t % p) {x = 2 * i + v} {y = v + 2 * i} (omega arith) ∙ e)

      missing : (2 * i) % p ≡ (p - v % p) % p
      missing =
          mod-eq_of_multiples (2 * i) (p - v % p) 1 ((2 * i + v % p) / p) p
            (omega (arith, div-add-mod' (2 * i + v % p) p, total))

  within : (t : ℕ) → t ≤ p → u64 (t * half) ≡ t * half
  within t h =
      let rest : t + (2 ^ 32 - t) ≡ 2 ^ 32 = omega arith in
      omega (arith, twice_half, ap (λ (z : ℕ). z * half) rest)

  reduced_slot :
      (v : ℕ)
      → sieve_fast_mod (u64 ((if v % p == 0 then 0 else p - v % p) * half)) p (uint64_max / p)
        ≡ slot v
  unfolding slot
  reduced_slot v = elim (Bool-cases (v % p == 0)) [
    | inl divides ↦
        let none_missing : u64 (0 * half) ≡ 0 = omega arith in
        rw (divides, none_missing)
          (sieve_fast_mod_lem 0 p positive (omega arith)
            ∙ mod-eq_of_multiples 0 ((p - v % p) * half) half 0 p
                (let e : p - v % p ≡ p = ground arith in rw e (omega arith)))
    | inr rest ↦
        let w : u64 ((p - v % p) * half) ≡ (p - v % p) * half = within (p - v % p) (omega arith) in
        rw (rest, w) (sieve_fast_mod_lem ((p - v % p) * half) p positive (omega (arith, w)))
  ]

  computed :
      (base base_offset first : ℕ)
      → base_offset < 2 ^ 64
      → first ≤ 1
      → odd_slot (base % p) base_offset first p (uint64_max / p) ≡ slot (base + base_offset + first)
  unfolding odd_slot half
  computed base base_offset first h l =
      let fm = sieve_fast_mod_lem base_offset p positive h in
      let a = mod-lt base positive in
      let b = mod-lt base_offset positive in
      let c = mod-lt first positive in
      let d = mod-lt (base + base_offset) positive in
      let s1 : u64 (base % p + base_offset % p) ≡ base % p + base_offset % p =
        omega (arith, a, b) in
      let r1 = reduce_once (base % p) (base_offset % p) p a b in
      let a1 : (base % p + base_offset % p) % p ≡ (base + base_offset) % p =
        add-mod (base % p) (base_offset % p) base base_offset p (mod-mod base p)
          (mod-mod base_offset p) in
      let s2 : u64 ((base + base_offset) % p + first % p) ≡ (base + base_offset) % p + first % p =
        omega (arith, c, d) in
      let r2 = reduce_once ((base + base_offset) % p) (first % p) p d c in
      let a2 : ((base + base_offset) % p + first % p) % p ≡ (base + base_offset + first) % p =
        add-mod ((base + base_offset) % p) (first % p) (base + base_offset) first p
          (mod-mod (base + base_offset) p) (mod-mod first p) in
      let s3 : u64 (p + 1) ≡ p + 1 = omega arith in
      rw (fm, s1, r1, a1, s2, r2, a2, s3) (reduced_slot (base + base_offset + first))

  -- The first slot of the code is the least one that `p` divides, and exactly the slots at multiples of
  -- `p` behind it are.
  pub odd_slot_lem :
      (base base_offset first : ℕ)
      → base_offset < 2 ^ 64
      → first ≤ 1
      → let s = odd_slot (base % p) base_offset first p (uint64_max / p) in
        (s < p) × ((i : ℕ) → (i % p == s) ≡ ((base + base_offset + first + 2 * i) % p == 0))
  odd_slot_lem base base_offset first h l =
      rw (computed base base_offset first h l)
        (slot-lt (base + base_offset + first), λ (i : ℕ). same i)
    where
      v : ℕ
      v = base + base_offset + first

      same : (i : ℕ) → (i % p == slot v) ≡ ((v + 2 * i) % p == 0)
      same i = ground (arith, slot-hit v i, hit-slot v i)
