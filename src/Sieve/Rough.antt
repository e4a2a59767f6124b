-- ===== src/Sieve/Rough.antt =====
-- The candidates of a table of primes of new_src/sieve_core.c against trial division.
use native.Mathlib.Decide.{dec_lt}
use gap_miner_v.Prelude.{
  ℕ, zero, suc, ◌+◌, ◌-◌, ◌*◌, ◌/◌, ◌%◌, ◌^◌, ◌≤◌, ◌<◌, ◌≡◌, ◌∙◌, refl, sym, ap, arith, Bool, true,
  false, not, ◌&&◌, ◌||◌, List, [], ◌∷◌, map, length, ltb, leb, ◌==◌, uint64_max, if◌then◌else◌,
  Bool-cases, leb-true, inl, inr,
}
use gap_miner_v.Primes.{IsPrime}
use gap_miner_v.Primes.Trial.{no_divisor, no_divisor-rest, no_divisor_of_IsPrime, IsPrime-divisor}
use gap_miner_v.Sieve.{SievePrime, new_entry, prepare_from, count_primes, residue_of}
use gap_miner_v.Sieve.Odd.{IsReady, AllReady, has_factor, without_factor}
use gap_miner_v.Sieve.Table.{or-last, primes_from}

-- The offsets from `offset` on, `left` of them, behind `base` whose numbers are odd and have no divisor
-- from 2 up to the limit.
abbrev pub rough_offsets : ℕ → ℕ → ℕ → ℕ → List ℕ
rough_offsets limit base zero offset = []
rough_offsets limit base (suc left) offset =
    let rest = rough_offsets limit base left (offset + 1) in
    if ((base + offset) % 2 == 1) && no_divisor (base + offset) limit then offset ∷ rest else rest

-- A prime with its reciprocal and the residue of a base.
abbrev pub ready_entry : ℕ → ℕ → SievePrime
ready_entry base p = record {
  prime = p;
  inv_p = if leb 3 p then uint64_max / p else 0;
  base_mod_p = base % p;
}

pub count_primes-map : (primes : List ℕ) → count_primes (map new_entry primes) ≡ length primes
count_primes-map [] = refl
count_primes-map (p ∷ primes) = ap suc (count_primes-map primes)

pub prepare_from-map :
    (base end i : ℕ) (primes : List ℕ)
    → i + length primes ≤ end
    → prepare_from base 0 end i (map new_entry primes) ≡ map (ready_entry base) primes
unfolding prepare_from new_entry
prepare_from-map base end i [] h = refl
prepare_from-map base end i (p ∷ primes) h =
    let inside : (leb 0 i && ltb i end) ≡ true = ground arith in
    rw (inside, prepare_from-map base end (i + 1) primes (omega arith)) refl

-- A prime of the list from 3 up to the limit divides `x`.
abbrev has_prime_factor : ℕ → List ℕ → ℕ → Bool
has_prime_factor limit [] x = false
has_prime_factor limit (p ∷ primes) x =
    (not (ltb p 3 || ltb limit p) && (x % p == 0)) || has_prime_factor limit primes x

has_factor-map :
    (base limit : ℕ) (primes : List ℕ) (x : ℕ)
    → has_factor limit (map (ready_entry base) primes) x ≡ has_prime_factor limit primes x
has_factor-map base limit [] x = refl
has_factor-map base limit (p ∷ primes) x =
    ap (λ (t : Bool). (not (ltb p 3 || ltb limit p) && (x % p == 0)) || t)
      (has_factor-map base limit primes x)

head_passes : (used : Bool) (x p : ℕ) → (used ≡ true → 0 < x % p) → (used && (x % p == 0)) ≡ false
head_passes true x p h = let k : 0 < x % p = h refl in ground arith
head_passes false x p h = refl

no_factor :
    (limit left v x : ℕ)
    → no_divisor x limit ≡ true
    → has_prime_factor limit (primes_from left v) x ≡ false
no_factor limit zero v x h = refl
no_factor limit (suc left) v x h = elim (Bool-cases (no_divisor v (v - 1))) [
  | inl prime ↦
      let out : (not (ltb v 3 || ltb limit v) && (x % v == 0)) ≡ false =
        head_passes (not (ltb v 3 || ltb limit v)) x v
          (λ u. no_divisor-rest x limit v (ground arith) (ground arith) h) in
      rw (prime, out) (no_factor limit left (v + 1) x h)
  | inr other ↦ rw other (no_factor limit left (v + 1) x h)
]

some_factor :
    (limit left v x p : ℕ)
    → IsPrime p
    → 3 ≤ p
    → p ≤ limit
    → v ≤ p
    → p < v + left
    → x % p ≡ 0
    → has_prime_factor limit (primes_from left v) x ≡ true
some_factor limit zero v x p prime large small lo hi e = absurd (omega arith)
some_factor limit (suc left) v x p prime large small lo hi e = elim (dec_lt v p) [
  | yes later ↦
      let rest : has_prime_factor limit (primes_from left (v + 1)) x ≡ true =
        some_factor limit left (v + 1) x p prime large small (omega arith) (omega arith) e in
      elim (Bool-cases (no_divisor v (v - 1))) [
        | inl first ↦
            rw (first, rest) (or-last (not (ltb v 3 || ltb limit v) && (x % v == 0)) true refl)
        | inr other ↦ rw (other, rest) refl
      ]
  | no here ↦
      let same : v ≡ p = omega arith in
      let r : (not (ltb p 3 || ltb limit p) && (x % p == 0)) ≡ true = ground arith in
      rw (same, no_divisor_of_IsPrime p prime, r) refl
]

-- For an odd number the primes of the table tell what trial division tells.
has_prime_factor-odd :
    (limit x : ℕ)
    → 2 ≤ limit
    → x % 2 ≡ 1
    → has_prime_factor limit (primes_from (limit - 1) 2) x ≡ not (no_divisor x limit)
has_prime_factor-odd limit x two odd = elim (Bool-cases (no_divisor x limit)) [
  | inl clean ↦ rw clean (no_factor limit (limit - 1) 2 x clean)
  | inr some_divisor ↦
      let p = IsPrime-divisor x limit some_divisor in
      rw some_divisor (
        some_factor limit (limit - 1) 2 x p.0 p.1 (not_two p.0 p.1.0 p.3) p.2 (omega (arith, p.1.0))
          (omega (arith, p.2)) p.3)
]
  where
    not_two : (p : ℕ) → 1 < p → x % p ≡ 0 → 3 ≤ p
    not_two p h e = elim (dec_lt 2 p) [
      | yes l ↦ l
      | no g ↦
          let same : p ≡ 2 = omega arith in
          absurd (omega (arith, odd, ap (λ (t : ℕ). x % t) (sym same), e))
    ]

entry-IsReady :
    (base v : ℕ)
    → 1 < v
    → v < 2 ^ 32
    → no_divisor v (v - 1) ≡ true
    → IsReady true 0 base (ready_entry base v)
unfolding residue_of
entry-IsReady base v two small prime = elim (dec_lt v 3) [
  | yes little ↦ (inl little, refl)
  | no more ↦
      let rest : 0 < v % 2 = no_divisor-rest v (v - 1) 2 (omega arith) (omega arith) prime in
      (inr (omega arith, omega arith, omega arith, rw (leb-true 3 v (omega arith)) refl), refl)
]

pub primes_from-AllReady :
    (base left v : ℕ)
    → 1 < v
    → v + left ≤ 2 ^ 32
    → AllReady true 0 base (map (ready_entry base) (primes_from left v))
primes_from-AllReady base zero v two small = tt
primes_from-AllReady base (suc left) v two small = elim (Bool-cases (no_divisor v (v - 1))) [
  | inl prime ↦ rw prime (
    entry-IsReady base v two (omega arith) prime,
    primes_from-AllReady base left (v + 1) (omega arith) (omega arith),
  )
  | inr other ↦ rw other (primes_from-AllReady base left (v + 1) (omega arith) (omega arith))
]

module _ (limit base : ℕ) (two : 2 ≤ limit) where
  abbrev pub table : List SievePrime
  table = map (ready_entry base) (primes_from (limit - 1) 2)

  rough-even :
      (v left offset : ℕ)
      → (v + offset) % 2 ≡ 0
      → rough_offsets limit v (suc left) offset ≡ rough_offsets limit v left (offset + 1)
  rough-even v left offset even =
      let k : ((v + offset) % 2 == 1) ≡ false = ground arith in rw k refl

  if-not : (b : Bool) (x y : List ℕ) → (if b then x else y) ≡ (if not b then y else x)
  if-not true x y = refl
  if-not false x y = refl

  rough-odd :
      (v left offset : ℕ)
      → (v + offset) % 2 ≡ 1
      → rough_offsets limit v (suc left) offset ≡ (
          if has_factor limit table (v + offset)
          then rough_offsets limit v left (offset + 1)
          else offset ∷ rough_offsets limit v left (offset + 1))
  rough-odd v left offset odd =
      let k : ((v + offset) % 2 == 1) ≡ true = ground arith in
      let rest = rough_offsets limit v left (offset + 1) in
      rw
        (
          k,
          has_factor-map base limit (primes_from (limit - 1) 2) (v + offset),
          has_prime_factor-odd limit (v + offset) two odd,
        )
        (if-not (no_divisor (v + offset) limit) (offset ∷ rest) rest)

  -- From an odd number on, steps of two visit the odd numbers.
  rough-step :
      (v left size slot first : ℕ)
      → (size + 1) / 2 ≡ left
      → (v + first) % 2 ≡ 1
      → without_factor limit table v first left slot ≡ rough_offsets limit v size (first + 2 * slot)
  rough-step v zero size slot first e odd =
      let none_left : size ≡ 0 = omega arith in rw none_left refl
  rough-step v (suc left) zero slot first e odd = absurd (omega arith)
  rough-step v (suc left) (suc size) slot first e odd =
      let here : v + first + 2 * slot ≡ v + (first + 2 * slot) = omega arith in
      let later = rough-step v left (size - 1) (slot + 1) first (omega arith) odd in
      rw (here, later ∙ skip size, rough-odd v size (first + 2 * slot) (omega arith)) refl
    where
      skip :
          (size : ℕ)
          → rough_offsets limit v (size - 1) (first + 2 * (slot + 1))
            ≡ rough_offsets limit v size (first + 2 * slot + 1)
      skip zero = refl
      skip (suc size) =
          let shift : first + 2 * (slot + 1) ≡ first + 2 * slot + 1 + 1 = omega arith in
          let less : suc size - 1 ≡ size = omega arith in
          rw (shift, less) (sym (rough-even v size (first + 2 * slot + 1) (omega arith)))

  -- From any offset on, the first odd number is at most one away.
  pub rough-start :
      (v size first : ℕ)
      → 0 < size
      → first ≤ 1
      → (v + first) % 2 ≡ 1
      → without_factor limit table v first ((size - first + 1) / 2) 0 ≡ rough_offsets limit v size 0
  rough-start v size zero pos h odd = rough-step v ((size - 0 + 1) / 2) size 0 0 (omega arith) odd
  rough-start v zero (suc first) pos h odd = absurd (omega arith)
  rough-start v (suc size) (suc first) pos h odd =
      let f : suc first ≡ 1 = omega arith in
      rw f (
        rough-step v ((suc size - 1 + 1) / 2) size 0 1 (omega arith) (omega arith)
        ∙ sym (rough-even v size 0 (omega arith)))
