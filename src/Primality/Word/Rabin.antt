-- ===== src/Primality/Word/Rabin.antt =====
-- `primality_miller_rabin_u64` and `primality_fast_fermat_u64` of new_src/primality_limbs.c.
use native.Mathlib.Nat.{mod-eq_of_lt, mod-mod, pow-suc, pow-zero}
use native.Mathlib.Decide.{dec_lt}
use mathlib.Core.Bool.{false≢true}
use gap_miner_v.Prelude.{
  ℕ, zero, suc, ◌+◌, ◌-◌, ◌*◌, ◌/◌, ◌%◌, ◌^◌, ◌≤◌, ◌<◌, ◌≡◌, ◌∙◌, refl, sym, ap, arith, Bool, true,
  false, ◌&&◌, ◌||◌, List, [], ◌∷◌, ltb, ◌==◌, if◌then◌else◌, Bool-cases, inl, inr,
}
use gap_miner_v.Primes.{IsPrime}
use gap_miner_v.Primes.Fermat.{fermat}
use gap_miner_v.Primality.Word.{
  mont_ninv, mont_r2, strong_mrt, split_even, all_bases, bases, rabin_tail, trial, small_primes,
  miller_rabin_u64, fast_fermat_u64,
}
use gap_miner_v.Primality.Word.Strong.{strong_passes, strong_mrt_lem}
use gap_miner_v.Primality.Word.Powers.{strong_passes-fermat, strong_passes_of_prime}

-- The loop leaves an odd number and counts the factors 2 that it took out.
split_even_lem :
    (fuel v s : ℕ)
    → 0 < v
    → v < 2 ^ fuel
    → let r = split_even fuel v s in
      (r.0 % 2 ≡ 1) × (s ≤ r.1) × (r.0 * 2 ^ (r.1 - s) ≡ v) × (r.0 ≤ v)
unfolding split_even
split_even_lem zero v s pos h = absurd (omega (arith, pow-zero 2))
split_even_lem (suc fuel) v s pos h = elim (Bool-cases (v % 2 == 1)) [
  | inl odd ↦
      let none_out : s - s ≡ 0 = omega arith in
      rw (odd, none_out, pow-zero 2) (ground arith, omega arith, omega arith, omega arith)
  | inr even ↦
      let rest =
        split_even_lem fuel (v / 2) (s + 1) (ground arith) (omega (arith, pow-suc 2 fuel)) in
      let r = split_even fuel (v / 2) (s + 1) in
      let one_more : r.1 - s ≡ suc (r.1 - (s + 1)) = omega (arith, rest.1) in
      let halves : v / 2 * 2 ≡ v = ground arith in
      rw (even, one_more, pow-suc 2 (r.1 - (s + 1)))
        (
          rest.0,
          omega (arith, rest.1),
          omega (arith, ap (λ (t : ℕ). t * 2) rest.2, halves),
          omega (arith, rest.3),
        )
]

-- The parts of `n - 1` for an odd `n`: there is a factor 2.
pub even_parts :
    (fuel n : ℕ)
    → n % 2 ≡ 1
    → 1 < n
    → n ≤ 2 ^ fuel
    → let r = split_even fuel (n - 1) 0 in
      (r.0 * 2 ^ suc (r.1 - 1) ≡ n - 1) × (r.1 ≡ suc (r.1 - 1)) × (r.0 < n)
even_parts fuel n odd large small =
    let r = split_even_lem fuel (n - 1) 0 (omega arith) (omega arith) in
    let parts = split_even fuel (n - 1) 0 in
    let some_out : 0 < parts.1 = elim (dec_lt 0 parts.1) [
      | yes h ↦ h
      | no h ↦ absurd (none_out h)
    ] in
    let below : suc (parts.1 - 1) ≡ parts.1 - 0 = omega (arith, some_out) in
    (
      ap (λ (t : ℕ). parts.0 * 2 ^ t) below ∙ r.2,
      omega (arith, some_out),
      let l = r.3 in omega (arith, l),
    )
  where
    none_out : ¬ (0 < (split_even fuel (n - 1) 0).1) → ⊥
    none_out h =
        let r = split_even_lem fuel (n - 1) 0 (omega arith) (omega arith) in
        let none : (split_even fuel (n - 1) 0).1 - 0 ≡ 0 = omega arith in
        let whole : (split_even fuel (n - 1) 0).0 * 1 ≡ n - 1 =
          ap (λ (t : ℕ). (split_even fuel (n - 1) 0).0 * 2 ^ t) (sym none) ∙ r.2 in
        omega (arith, r.0, whole, odd)

module _ (n : ℕ) (odd : n % 2 ≡ 1) (large : 1 < n) (small : n ≤ 2 ^ 63) where
  halves : ℕ × ℕ
  halves = split_even 64 (n - 1) 0

  halves_lem :
      (halves.0 * 2 ^ suc (halves.1 - 1) ≡ n - 1)
      × (halves.1 ≡ suc (halves.1 - 1))
      × (halves.0 < 2 ^ 64)
  unfolding halves
  halves_lem =
      let r = even_parts 64 n odd large (omega arith) in (r.0, r.1, let l = r.2 in omega (arith, l))

  -- The strong test of the code on the parts of `n - 1`.
  strong_halves :
      (a : ℕ)
      → strong_mrt n a (mont_ninv n) (mont_r2 n) halves.0 halves.1
        ≡ strong_passes n a halves.0 (suc (halves.1 - 1))
  strong_halves a =
      strong_mrt_lem n odd large small a halves.0 halves.1 halves_lem.2
      ∙ ap (λ (t : ℕ). strong_passes n a halves.0 t) halves_lem.1

  strong-fermat :
      (a : ℕ)
      → strong_mrt n a (mont_ninv n) (mont_r2 n) halves.0 halves.1 ≡ true
      → a ^ (n - 1) % n ≡ 1
  strong-fermat a h =
      ap (λ (t : ℕ). a ^ t % n) (sym halves_lem.0)
      ∙ strong_passes-fermat n a large halves.0 (halves.1 - 1) (sym (strong_halves a) ∙ h)

  strong_of_prime :
      IsPrime n
      → (a : ℕ) → 0 < a % n
      → strong_mrt n a (mont_ninv n) (mont_r2 n) halves.0 halves.1 ≡ true
  strong_of_prime prime a h =
      strong_halves a
      ∙ strong_passes_of_prime n a prime halves.0 (halves.1 - 1)
          (ap (λ (t : ℕ). a ^ t % n) halves_lem.0 ∙ fermat n prime a h)

  all_bases_of_prime :
      IsPrime n
      → (list : List ℕ) → all_bases n (mont_ninv n) (mont_r2 n) halves.0 halves.1 list ≡ true
  unfolding all_bases
  all_bases_of_prime prime [] = refl
  all_bases_of_prime prime (base ∷ rest) = elim (Bool-cases (base % n == 0)) [
    | inl skipped ↦ rw skipped (all_bases_of_prime prime rest)
    | inr used ↦
        rw (used, strong_of_prime prime (base % n) (rw (mod-mod base n) (ground arith)))
          (all_bases_of_prime prime rest)
  ]

  rabin_tail_of_prime : IsPrime n → rabin_tail n ≡ true
  unfolding rabin_tail halves
  rabin_tail_of_prime prime = all_bases_of_prime prime bases

  fast_fermat_u64-parts :
      3 < n
      → fast_fermat_u64 n ≡ (
          if strong_mrt n 2 (mont_ninv n) (mont_r2 n) halves.0 halves.1
          then strong_mrt n 3 (mont_ninv n) (mont_r2 n) halves.0 halves.1
          else false)
  unfolding fast_fermat_u64 halves
  fast_fermat_u64-parts h =
      let a : ltb n 4 ≡ false = ground arith in
      let b : n % 2 == 0 ≡ false = ground arith in rw (a, b) refl

abbrev all_large : List ℕ → Bool
all_large [] = true
all_large (p ∷ ps) = ltb 1 p && all_large ps

prime-mod : (n p : ℕ) → IsPrime n → 1 < p → (n == p) ≡ false → (n % p == 0) ≡ false
prime-mod n p prime h other = elim (dec_lt p n) [
  | yes less ↦ let k : 0 < n % p = prime.1 p h less in ground arith
  | no more ↦
      let k : n % p ≡ n = mod-eq_of_lt (ground arith) in
      rw k (let l : 1 < n = prime.0 in ground arith)
]

trial_of_prime :
    (n : ℕ)
    → IsPrime n
    → rabin_tail n ≡ true
    → (list : List ℕ) → all_large list ≡ true
    → trial n list ≡ true
unfolding trial
trial_of_prime n prime tail [] h = tail
trial_of_prime n prime tail (p ∷ ps) h = elim (Bool-cases (n == p)) [
  | inl same ↦ rw same refl
  | inr other ↦
      let k : (n % p == 0) ≡ false = prime-mod n p prime (ground arith) other in
      rw (other, k) (trial_of_prime n prime tail ps (ground arith))
]

pub odd_of_prime : (n : ℕ) → IsPrime n → 3 < n → n % 2 ≡ 1
odd_of_prime n prime h = omega (arith, prime.1 2 (omega arith) (omega arith))

-- No prime up to 2 ^ 63 is rejected by `primality_miller_rabin_u64`.
pub miller_rabin_u64_of_prime : (n : ℕ) → IsPrime n → n ≤ 2 ^ 63 → miller_rabin_u64 n ≡ true
unfolding miller_rabin_u64
miller_rabin_u64_of_prime n prime small = elim (dec_lt 3 n) [
  | yes large ↦
      let odd : n % 2 ≡ 1 = odd_of_prime n prime large in
      let a : ltb n 2 ≡ false = ground arith in
      let b : ((n == 2) || (n == 3)) ≡ false = ground arith in
      let third : 0 < n % 3 = prime.1 3 (omega arith) large in
      let c : ((n % 2 == 0) || (n % 3 == 0)) ≡ false = ground arith in
      rw (a, b, c)
        (trial_of_prime n prime (rabin_tail_of_prime n odd (omega arith) small prime) small_primes
          refl)
  | no little ↦
      let a : ltb n 2 ≡ false = (let l : 1 < n = prime.0 in ground arith) in
      let b : ((n == 2) || (n == 3)) ≡ true = (let l : 1 < n = prime.0 in ground arith) in
      rw (a, b) refl
]

-- No prime up to 2 ^ 63 is rejected by `primality_fast_fermat_u64`.
pub fast_fermat_u64_of_prime : (n : ℕ) → IsPrime n → n ≤ 2 ^ 63 → fast_fermat_u64 n ≡ true
unfolding fast_fermat_u64
fast_fermat_u64_of_prime n prime small = elim (dec_lt 3 n) [
  | yes large ↦
      let odd : n % 2 ≡ 1 = odd_of_prime n prime large in
      let two : 0 < 2 % n = rw (mod-eq_of_lt {n = 2} {m = n} (omega arith)) (omega arith) in
      let three : 0 < 3 % n = rw (mod-eq_of_lt {n = 3} {m = n} large) (omega arith) in
      rw
        (
          fast_fermat_u64-parts n odd (omega arith) small large,
          strong_of_prime n odd (omega arith) small prime 2 two,
        )
        (strong_of_prime n odd (omega arith) small prime 3 three)
  | no little ↦
      let a : ltb n 4 ≡ true = ground arith in rw a (let l : 1 < n = prime.0 in ground arith)
]

if-both : (p q : Bool) → (if p then q else false) ≡ true → (p ≡ true) × (q ≡ true)
if-both p q h = ground arith

fast_fermat_u64-odd : (n : ℕ) → 3 < n → fast_fermat_u64 n ≡ true → n % 2 ≡ 1
unfolding fast_fermat_u64
fast_fermat_u64-odd n large e = elim (Bool-cases (n % 2 == 0)) [
  | inl even ↦
      let a : ltb n 4 ≡ false = ground arith in
      let r : fast_fermat_u64 n ≡ false = rw (a, even) refl in absurd (false≢true (sym r ∙ e))
  | inr odd ↦ ground arith
]

-- What `primality_fast_fermat_u64` accepts from 4 up to 2 ^ 63 passes Fermat's test for 2 and for 3.
pub fast_fermat_u64-fermat :
    (n : ℕ)
    → 3 < n
    → n ≤ 2 ^ 63
    → fast_fermat_u64 n ≡ true
    → (2 ^ (n - 1) % n ≡ 1) × (3 ^ (n - 1) % n ≡ 1)
fast_fermat_u64-fermat n large small e =
    let odd : n % 2 ≡ 1 = fast_fermat_u64-odd n large e in
    let parts = sym (fast_fermat_u64-parts n odd (omega arith) small large) ∙ e in
    let both =
      if-both
        (strong_mrt n 2 (mont_ninv n) (mont_r2 n) (halves n odd (omega arith) small).0
          (halves n odd (omega arith) small).1)
        (strong_mrt n 3 (mont_ninv n) (mont_r2 n) (halves n odd (omega arith) small).0
          (halves n odd (omega arith) small).1)
        parts in
    (
      strong-fermat n odd (omega arith) small 2 both.0,
      strong-fermat n odd (omega arith) small 3 both.1,
    )
