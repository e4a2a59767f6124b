-- ===== src/Primality/Big/Primes.antt =====
-- The tests on GMP numbers, new_src/primality_euler.c, new_src/primality_fermat.c and
-- new_src/primality_bpsw.c, against primes and powers.
use native.Mathlib.Nat.{mod-eq_of_lt, mod-mod, pow-suc, zero-mod}
use native.Mathlib.Decide.{dec_lt}
use mathlib.Core.Bool.{false≢true}
use gap_miner_v.Prelude.{
  if-or, ℕ, zero, suc, ◌-◌, ◌*◌, ◌%◌, ◌^◌, ◌≤◌, ◌<◌, ◌≡◌, ◌∙◌, refl, sym, ap, arith, Bool, true,
  false, ◌||◌, ◌&&◌, List, [], ◌∷◌, ltb, leb, ◌==◌, take, if◌then◌else◌, Bool-cases, inl, inr,
}
use gap_miner_v.Prelude.Arith.{pow-pos}
use gap_miner_v.Prelude.Mod.{mul-mod}
use gap_miner_v.Primes.{IsPrime}
use gap_miner_v.Primes.Trial.{no_divisor, no_divisor-IsPrime}
use gap_miner_v.Primes.Fermat.{fermat}
use gap_miner_v.Primality.Word.{split_even}
use gap_miner_v.Primality.Word.Strong.{strong_passes, a_square_passes}
use gap_miner_v.Primality.Word.Powers.{power_square, strong_passes-fermat, strong_passes_of_prime}
use gap_miner_v.Primality.Word.Rabin.{even_parts, odd_of_prime}
use gap_miner_v.Primality.Exact.Powers.{euler_of_prime}
use gap_miner_v.Primality.Big.{
  euler_criterion_base2, euler_criterion, euler_quick_probable_prime, fermat_bases,
  fermat_test_base, fermat_rounds, fermat_test_probable_prime, square_rounds, miller_rabin_base2,
}

abbrev all_prime : List ℕ → Bool
all_prime [] = true
all_prime (p ∷ ps) = (ltb 1 p && no_divisor p (p - 1)) && all_prime ps

all_prime-take : (k : ℕ) (list : List ℕ) → all_prime list ≡ true → all_prime (take k list) ≡ true
all_prime-take zero [] h = refl
all_prime-take (suc k) [] h = refl
all_prime-take zero (p ∷ ps) h = refl
all_prime-take (suc k) (p ∷ ps) h =
    let rest = all_prime-take k ps (ground arith) in ground (arith, rest)

either : (s t r : Bool) → (if s || t then true else r) ≡ (s || (t || r))
either s t r = ground arith

module _ (n : ℕ) (prime : IsPrime n) (large : 3 < n) where
  odd : n % 2 ≡ 1
  odd = odd_of_prime n prime large

  base_of : (a : ℕ) → 0 < a → a < n → 0 < a % n
  base_of a pos l = rw (mod-eq_of_lt {n = a} {m = n} l) pos

  euler_base2_of_prime : euler_criterion_base2 n ≡ true
  unfolding euler_criterion_base2
  euler_base2_of_prime =
      let e = euler_of_prime n 2 prime odd (base_of 2 (omega arith) (omega arith)) in
      ground (arith, odd, e)

  euler_of : (base : ℕ) → 0 < base % n → euler_criterion n base ≡ true
  unfolding euler_criterion
  euler_of base some =
      let e = euler_of_prime n base prime odd some in
      let used : (base == 0) ≡ false = elim (Bool-cases (base == 0)) [
        | inr k ↦ k
        | inl none ↦
            let z : base ≡ 0 = ground arith in
            absurd (omega (arith, some, ap (λ (t : ℕ). t % n) z, zero-mod n))
      ] in
      rw used (ground (arith, odd, e))

  pub quick_of_prime : euler_quick_probable_prime n ≡ true
  unfolding euler_quick_probable_prime
  quick_of_prime =
      let e = euler_of_prime n 2 prime odd (base_of 2 (omega arith) (omega arith)) in
      let f = euler_of_prime n 3 prime odd (base_of 3 (omega arith) (omega arith)) in
      let small : (leb n 2 || (n % 2 == 0)) ≡ false = ground (arith, odd) in rw (small, e, f) refl

  -- A prime that is not the base does not divide it.
  base_left : (base : ℕ) → IsPrime base → (n == base) ≡ false → 0 < base % n
  base_left base other apart = elim (dec_lt n base) [
    | yes less ↦ other.1 n prime.0 less
    | no more ↦ base_of base (let l = other.0 in omega arith) (ground arith)
  ]

  fermat_rounds_of_prime : (list : List ℕ) → all_prime list ≡ true → fermat_rounds n list ≡ true
  unfolding fermat_rounds fermat_test_base
  fermat_rounds_of_prime [] h = refl
  fermat_rounds_of_prime (base ∷ rest) h = elim (Bool-cases (n == base)) [
    | inl same ↦ rw same refl
    | inr apart ↦
        let l : 1 < base = ground arith in
        let k : no_divisor base (base - 1) ≡ true = ground arith in
        let f = fermat n prime base (base_left base (no_divisor-IsPrime base l k) apart) in
        let one : (base ^ (n - 1) % n == 1) ≡ true = ground (arith, f) in
        rw (apart, one) (fermat_rounds_of_prime rest (ground arith))
  ]

  fermat_of_prime : (rounds : ℕ) → 0 < rounds → fermat_test_probable_prime n rounds ≡ true
  unfolding fermat_test_probable_prime
  fermat_of_prime rounds some =
      let a : (rounds == 0) ≡ false = ground arith in
      let b : ltb n 2 ≡ false = ground arith in
      let c : (n == 2) ≡ false = ground arith in
      let d : (n % 2 == 0) ≡ false = ground (arith, odd) in
      rw (a, b, c, d)
        (fermat_rounds_of_prime (take rounds fermat_bases)
          (all_prime-take rounds fermat_bases refl))

square_rounds_lem :
    (n a rounds e x : ℕ) → x ≡ a ^ e % n → square_rounds n rounds x ≡ a_square_passes n a e rounds
unfolding square_rounds
square_rounds_lem n a zero e x h = refl
square_rounds_lem n a (suc rounds) e x h =
    let squared : (x * x) % n ≡ a ^ (2 * e) % n =
      mul-mod x x (a ^ e) (a ^ e) n (reduced h) (reduced h)
      ∙ ap (λ (t : ℕ). t % n) (sym (power_square a e)) in
    let rest = square_rounds_lem n a rounds (2 * e) ((x * x) % n) squared in
    rw rest (rw squared (if-or (a ^ (2 * e) % n == n - 1) (a_square_passes n a (2 * e) rounds)))
  where
    reduced : x ≡ a ^ e % n → x % n ≡ a ^ e % n
    reduced h = ap (λ (t : ℕ). t % n) h ∙ mod-mod (a ^ e) n

exponent_room : (n : ℕ) → n ≤ 2 ^ n
exponent_room zero = omega arith
exponent_room (suc n) = omega (arith, exponent_room n, pow-suc 2 n, pow-pos n)

module _ (n : ℕ) (odd : n % 2 ≡ 1) (large : 2 < n) where
  miller_rabin-strong :
      let r = split_even n (n - 1) 0 in miller_rabin_base2 n ≡ strong_passes n 2 r.0 (suc (r.1 - 1))
  unfolding miller_rabin_base2
  miller_rabin-strong =
      let r = split_even n (n - 1) 0 in
      let a : ltb n 2 ≡ false = ground arith in
      let b : (n == 2) ≡ false = ground arith in
      let c : (n % 2 == 0) ≡ false = ground (arith, odd) in
      let parts = even_parts n n odd (omega arith) (exponent_room n) in
      rw (a, b, c, square_rounds_lem n 2 (r.1 - 1) r.0 (2 ^ r.0 % n) refl)
        (either (2 ^ r.0 % n == 1) (2 ^ r.0 % n == n - 1) (a_square_passes n 2 r.0 (r.1 - 1))
          ∙ ap (λ (t : ℕ). strong_passes n 2 r.0 t) parts.1)

  miller_rabin-fermat : miller_rabin_base2 n ≡ true → 2 ^ (n - 1) % n ≡ 1
  miller_rabin-fermat e =
      let r = split_even n (n - 1) 0 in
      let parts = even_parts n n odd (omega arith) (exponent_room n) in
      ap (λ (t : ℕ). 2 ^ t % n) (sym parts.0)
      ∙ strong_passes-fermat n 2 (omega arith) r.0 (r.1 - 1) (sym miller_rabin-strong ∙ e)

  miller_rabin_of_prime : IsPrime n → miller_rabin_base2 n ≡ true
  miller_rabin_of_prime prime =
      let r = split_even n (n - 1) 0 in
      let parts = even_parts n n odd (omega arith) (exponent_room n) in
      let two : 0 < 2 % n = rw (mod-eq_of_lt {n = 2} {m = n} large) (omega arith) in
      miller_rabin-strong
      ∙ strong_passes_of_prime n 2 prime r.0 (r.1 - 1)
          (ap (λ (t : ℕ). 2 ^ t % n) parts.0 ∙ fermat n prime 2 two)

-- Every prime above 3 is accepted: by `euler_criterion_base2`, by `euler_criterion` with a base that it does
-- not divide, by `euler_quick_probable_prime`, by `fermat_test_probable_prime` with at least one round, and
-- by `miller_rabin_base2`.
pub big_of_prime :
    (n base rounds : ℕ)
    → IsPrime n
    → 3 < n
    → 0 < base % n
    → 0 < rounds
    → (euler_criterion_base2 n ≡ true)
      × (euler_criterion n base ≡ true)
      × (euler_quick_probable_prime n ≡ true)
      × (fermat_test_probable_prime n rounds ≡ true)
      × (miller_rabin_base2 n ≡ true)
big_of_prime n base rounds prime large some more = (
  euler_base2_of_prime n prime large,
  euler_of n prime large base some,
  quick_of_prime n prime large,
  fermat_of_prime n prime large rounds more,
  miller_rabin_of_prime n (odd_of_prime n prime large) (omega arith) prime,
)

miller_rabin-odd : (n : ℕ) → 2 < n → miller_rabin_base2 n ≡ true → n % 2 ≡ 1
unfolding miller_rabin_base2
miller_rabin-odd n large e = elim (Bool-cases (n % 2 == 0)) [
  | inr odd ↦ ground arith
  | inl even ↦
      let a : ltb n 2 ≡ false = ground arith in
      let b : (n == 2) ≡ false = ground arith in
      let none : miller_rabin_base2 n ≡ false = rw (a, b, even) refl in
      absurd (false≢true (sym none ∙ e))
]

-- A number above 2 that `miller_rabin_base2` accepts passes Fermat's test for 2.
pub miller_rabin_base2-fermat : (n : ℕ) → 2 < n → miller_rabin_base2 n ≡ true → 2 ^ (n - 1) % n ≡ 1
miller_rabin_base2-fermat n large e = miller_rabin-fermat n (miller_rabin-odd n large e) large e
