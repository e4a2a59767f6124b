-- ===== src/CrtRuntime/Align.antt =====
-- `align_base` of new_src/crt_runtime.c solves the congruences of a covering.
use mathlib.Core.Path.{subst}
use native.Mathlib.Decide.{dec_lt, ℕ_discrete}
use native.Mathlib.Nat.{mod-lt, mod-mod, mod-eq_of_lt, zero-mod}
use gap_miner_v.Prelude.{
  ℕ, ◌+◌, ◌-◌, ◌*◌, ◌%◌, ◌^◌, ◌<◌, ◌≡◌, ◌≢◌, ◌⊎◌, ◌∙◌, refl, sym, ap, arith, false, List, [], ◌∷◌,
  ◌==◌, u64, if◌then◌else◌, ==_false, Bool-cases, inl, inr,
}
use gap_miner_v.Prelude.Mod.{mod-eq_of_multiples, mul-mod, add-mod}
use gap_miner_v.Primes.{IsPrime}
use gap_miner_v.Primes.Euclid.{euclid}
use gap_miner_v.Covering.Target.{Residue}
use gap_miner_v.CrtRuntime.{CrtRuntime, align_from, align_base}

-- `mpz_invert` for a prime modulus that does not divide: the inverse, below the modulus.
abbrev pub Inverts : (ℕ → ℕ → ℕ) → Type 0
Inverts inverse =
    (a p : ℕ) → IsPrime p → 0 < a % p → ((a * inverse a p) % p ≡ 1) × (inverse a p < p)

-- Every prime with an offset other than 0 divides the base plus its offset plus the solution.
abbrev pub AllSolved : ℕ → ℕ → List Residue → Type 0
AllSolved base0 nadd0 [] = Unit {0}
AllSolved base0 nadd0 ((p, o) ∷ primes) =
    (o ≢ 0 → (base0 + o + nadd0) % p ≡ 0) × AllSolved base0 nadd0 primes

abbrev pub AllOther : ℕ → List Residue → Type 0
AllOther p [] = Unit {0}
AllOther p ((q, o) ∷ primes) = (0 < p % q) × AllOther p primes

-- The numbers are primes of 32 bits, none divides another, and the offsets have 32 bits.
abbrev pub AllDistinctPrimes : List Residue → Type 0
AllDistinctPrimes [] = Unit {0}
AllDistinctPrimes ((p, o) ∷ primes) =
    (IsPrime p × (p < 2 ^ 32) × (o < 2 ^ 32)) × AllOther p primes × AllDistinctPrimes primes

AllOther-product :
    (m p : ℕ) (primes : List Residue)
    → AllDistinctPrimes primes
    → AllOther m primes
    → AllOther p primes
    → AllOther (m * p) primes
AllOther-product m p [] d a b = tt
AllOther-product m p ((q, o) ∷ primes) d a b =
    (not_divided (euclid q d.0.0 m p), AllOther-product m p primes d.2 a.1 b.1)
  where
    not_divided : ((m * p) % q ≡ 0 → (m % q ≡ 0) ⊎ (p % q ≡ 0)) → 0 < (m * p) % q
    not_divided split = elim (dec_lt 0 ((m * p) % q)) [
      | yes h ↦ h
      | no h ↦ elim (split (omega arith)) [
        | inl e ↦ absurd (omega (arith, e, a.0))
        | inr e ↦ absurd (omega (arith, e, b.0))
      ]
    ]

-- One step solves the congruence of its prime.
step-solves :
    (p o base0 nadd0 m k diff target inv : ℕ)
    → 0 < p
    → (base0 + o + target) % p ≡ 0
    → (nadd0 + diff) % p ≡ target % p
    → (m % p * inv) % p ≡ 1
    → k ≡ (diff * inv) % p
    → (base0 + o + (nadd0 + k * m)) % p ≡ 0
step-solves p o base0 nadd0 m k diff target inv pos t d i e =
    let same_k : k % p ≡ (diff * inv) % p = ap (λ (z : ℕ). z % p) e ∙ mod-mod (diff * inv) p in
    let order : diff * inv * (m % p) ≡ diff * (m % p * inv) = omega arith in
    let one : diff * (m % p * inv) % p ≡ (diff * 1) % p =
      mul-mod diff (m % p * inv) diff 1 p refl
        (i ∙ (sym i ∙ (sym (mod-mod (m % p * inv) p) ∙ ap (λ (z : ℕ). z % p) i))) in
    let moved : (k * m) % p ≡ diff % p =
      mul-mod k m (diff * inv) (m % p) p same_k (sym (mod-mod m p))
      ∙ (ap (λ (z : ℕ). z % p) order
          ∙ (one ∙ ap (λ (z : ℕ). z % p) {x = diff * 1} {y = diff} (omega arith))) in
    add-mod (base0 + o) (nadd0 + k * m) (base0 + o) target p refl
      (add-mod nadd0 (k * m) nadd0 diff p refl moved ∙ d)
    ∙ t

small_product : (a b : ℕ) → a < 2 ^ 32 → b < 2 ^ 32 → u64 (a * b) ≡ a * b
small_product a b ha hb =
    let rest : a + (2 ^ 32 - 1 - a) ≡ 2 ^ 32 - 1 = omega arith in
    omega (arith, ap (λ (t : ℕ). t * b) rest)

one-AllOther : (primes : List Residue) → AllDistinctPrimes primes → AllOther 1 primes
one-AllOther [] d = tt
one-AllOther ((p, o) ∷ primes) d =
    (rw (mod-eq_of_lt {n = 1} {m = p} d.0.0.0) (omega arith), one-AllOther primes d.2)

-- The numbers of one round: what is missing, and the multiple that is added.
abbrev target_of : ℕ → ℕ → ℕ → ℕ
target_of base0 p o = let sum = u64 (base0 % p + o) % p in if sum == 0 then 0 else p - sum

abbrev diff_of : ℕ → ℕ → ℕ → ℕ → ℕ
diff_of base0 p o nadd0 = u64 (target_of base0 p o + p - nadd0 % p) % p

target_of-solves :
    (base0 p o : ℕ)
    → 0 < p
    → p < 2 ^ 32
    → o < 2 ^ 32
    → ((base0 + o + target_of base0 p o) % p ≡ 0) × (target_of base0 p o < p)
target_of-solves base0 p o pos hp ho =
    let low : base0 % p < p = mod-lt base0 pos in
    let word : u64 (base0 % p + o) ≡ base0 % p + o = omega arith in
    let same : (base0 + o) % p ≡ (base0 % p + o) % p =
      add-mod base0 o (base0 % p) o p (sym (mod-mod base0 p)) refl in
    let below : (base0 % p + o) % p < p = mod-lt (base0 % p + o) pos in
    elim (Bool-cases ((base0 % p + o) % p == 0)) [
      | inl none_missing ↦
          rw (word, none_missing)
            (
              ap (λ (z : ℕ). z % p) {x = base0 + o + 0} {y = base0 + o} (omega arith)
                  ∙ (same ∙ ground arith),
              pos,
            )
      | inr some_missing ↦
          rw (word, some_missing)
            (
              add-mod (base0 + o) (p - (base0 % p + o) % p) ((base0 % p + o) % p)
                    (p - (base0 % p + o) % p) p (same ∙ sym (mod-mod (base0 % p + o) p)) refl
                  ∙ (mod-eq_of_multiples ((base0 % p + o) % p + (p - (base0 % p + o) % p)) 0 0 1 p
                        (omega (arith, below))
                      ∙ zero-mod p),
              ground arith,
            )
    ]

diff_of-moves :
    (base0 p o nadd0 : ℕ)
    → 0 < p
    → p < 2 ^ 32
    → target_of base0 p o < p
    → (nadd0 + diff_of base0 p o nadd0) % p ≡ target_of base0 p o % p
diff_of-moves base0 p o nadd0 pos hp ht =
    let low : nadd0 % p < p = mod-lt nadd0 pos in
    let t = target_of base0 p o in
    let word : u64 (t + p - nadd0 % p) ≡ t + p - nadd0 % p = omega (arith, ht) in
    add-mod nadd0 (diff_of base0 p o nadd0) (nadd0 % p) (t + p - nadd0 % p) p
      (sym (mod-mod nadd0 p)) (ap (λ (z : ℕ). z % p % p) word ∙ mod-mod (t + p - nadd0 % p) p)
    ∙ mod-eq_of_multiples (nadd0 % p + (t + p - nadd0 % p)) t 0 1 p (omega (arith, low))

module _ (inverse : ℕ → ℕ → ℕ) (law : Inverts inverse) where
  k_of : ℕ → ℕ → ℕ → ℕ → ℕ → ℕ
  k_of base0 p o nadd0 m = u64 (diff_of base0 p o nadd0 * inverse (m % p) p) % p

  align_from-step :
      (p o : ℕ) (primes : List Residue) (base0 nadd0 m : ℕ)
      → o ≢ 0
      → align_from inverse ((p, o) ∷ primes) base0 nadd0 m
        ≡ align_from inverse primes base0 (nadd0 + k_of base0 p o nadd0 m * m) (m * p)
  unfolding align_from k_of
  align_from-step p o primes base0 nadd0 m ne =
      let k : (o == 0) ≡ false = ==_false o 0 ne in rw k refl

  align_from-skip :
      (p o : ℕ) (primes : List Residue) (base0 nadd0 m : ℕ)
      → o ≡ 0
      → align_from inverse ((p, o) ∷ primes) base0 nadd0 m ≡ align_from inverse primes base0 nadd0 m
  unfolding align_from
  align_from-skip p o primes base0 nadd0 m e = rw e refl

  -- The solution changes by multiples of the product so far.
  align_from-multiple :
      (primes : List Residue) (base0 nadd0 m : ℕ)
      → (c : ℕ) × (align_from inverse primes base0 nadd0 m ≡ nadd0 + c * m)
  align_from-multiple [] base0 nadd0 m = unfold align_from in (0, omega arith)
  align_from-multiple ((p, o) ∷ primes) base0 nadd0 m = elim (ℕ_discrete o 0) [
    | yes skipped ↦
        let rest = align_from-multiple primes base0 nadd0 m in
        (rest.0, align_from-skip p o primes base0 nadd0 m skipped ∙ rest.1)
    | no used ↦
        let k = k_of base0 p o nadd0 m in
        let rest = align_from-multiple primes base0 (nadd0 + k * m) (m * p) in
        (k + rest.0 * p, align_from-step p o primes base0 nadd0 m used ∙ (rest.1 ∙ omega arith))
  ]

  solved-head :
      (p o : ℕ) (primes : List Residue) (base0 nadd0 m : ℕ)
      → IsPrime p × (p < 2 ^ 32) × (o < 2 ^ 32)
      → 0 < m % p
      → o ≢ 0
      → (base0 + o + align_from inverse ((p, o) ∷ primes) base0 nadd0 m) % p ≡ 0
  unfolding k_of
  solved-head p o primes base0 nadd0 m good coprime used =
      let pos : 0 < p = omega (arith, good.0.0) in
      let k = k_of base0 p o nadd0 m in
      let rest = align_from-multiple primes base0 (nadd0 + k * m) (m * p) in
      let t = target_of-solves base0 p o pos good.1 good.2 in
      let diff = diff_of base0 p o nadd0 in
      let diff_below : diff < p = mod-lt (u64 (target_of base0 p o + p - nadd0 % p)) pos in
      let coprime_again : 0 < m % p % p = rw (mod-mod m p) coprime in
      let inverted = law (m % p) p good.0 coprime_again in
      let word : u64 (diff * inverse (m % p) p) ≡ diff * inverse (m % p) p =
        small_product diff (inverse (m % p) p) (omega (arith, diff_below, good.1))
          (omega (arith, inverted.1, good.1)) in
      let solved : (base0 + o + (nadd0 + k * m)) % p ≡ 0 =
        step-solves p o base0 nadd0 m k diff (target_of base0 p o) (inverse (m % p) p) pos t.0
          (diff_of-moves base0 p o nadd0 pos good.1 t.1) inverted.0 (ap (λ (z : ℕ). z % p) word) in
      ap (λ (z : ℕ). (base0 + o + z) % p) (align_from-step p o primes base0 nadd0 m used ∙ rest.1)
      ∙ (mod-eq_of_multiples (base0 + o + (nadd0 + k * m + rest.0 * (m * p)))
            (base0 + o + (nadd0 + k * m)) 0 (rest.0 * m) p (omega arith)
          ∙ solved)

  align_from-AllSolved :
      (primes : List Residue) (base0 nadd0 m : ℕ)
      → AllDistinctPrimes primes
      → AllOther m primes
      → AllSolved base0 (align_from inverse primes base0 nadd0 m) primes
  align_from-AllSolved [] base0 nadd0 m d a = tt
  align_from-AllSolved ((p, o) ∷ primes) base0 nadd0 m d a = elim (ℕ_discrete o 0) [
    | yes skipped ↦ (
      λ used. absurd (used skipped),
      subst (λ r. AllSolved base0 r primes) (sym (align_from-skip p o primes base0 nadd0 m skipped))
          (align_from-AllSolved primes base0 nadd0 m d.2 a.1),
    )
    | no used ↦
        let next = nadd0 + k_of base0 p o nadd0 m * m in
        (
          λ again. solved-head p o primes base0 nadd0 m d.0 a.0 used,
          subst (λ r. AllSolved base0 r primes)
              (sym (align_from-step p o primes base0 nadd0 m used))
              (align_from-AllSolved primes base0 next (m * p) d.2
                (AllOther-product m p primes d.2 a.1 d.1)),
        )
  ]

-- `align_base` solves the congruence of every prime whose offset is not 0, if `mpz_invert` inverts, the
-- numbers of the runtime are different primes of 32 bits, and the offsets have 32 bits.
pub align_base-AllSolved :
    (inverse : ℕ → ℕ → ℕ) (rt : CrtRuntime) (base0 : ℕ)
    → Inverts inverse
    → AllDistinctPrimes rt.primes
    → AllSolved base0 (align_base inverse rt base0) rt.primes
unfolding align_base
align_base-AllSolved inverse rt base0 law d =
    align_from-AllSolved inverse law rt.primes base0 0 1 d (one-AllOther rt.primes d)
