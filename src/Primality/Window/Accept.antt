-- ===== src/Primality/Window/Accept.antt =====
-- The tests on several limbs of new_src/primality_limbs.c are those of the powers of 2.
use native.Mathlib.Decide.{dec_lt}
use gap_miner_v.Prelude.{
  ℕ, ◌+◌, ◌-◌, ◌*◌, ◌/◌, ◌%◌, ◌^◌, ◌≤◌, ◌<◌, ◌≡◌, ◌∙◌, refl, sym, ap, arith, Bool, true, false,
  ◌||◌, List, ltb, ◌==◌, get_or, length, if◌then◌else◌, Bool-cases, inl, inr,
}
use gap_miner_v.Primality.Exact.{fermat_u64_exact, euler_u64}
use gap_miner_v.Primality.Exact.Powers.{exact_lem}
use gap_miner_v.Primality.Limbs.{cpu_sub_n}
use gap_miner_v.Primality.Limbs.Value.{value, AllWords}
use gap_miner_v.Primality.Limbs.Radix.{word_of}
use gap_miner_v.Primality.Limbs.Montmul.Buffer.{low_limb}
use gap_miner_v.Primality.Limbs.{max_limbs}
use gap_miner_v.Primality.Window.{
  get_bits4, get_bits_w, minus_one, halve_limbs, is_one, one_limbs, pow2_window, euler_accepts,
  window_size, fermat_test_exact, euler_test_exact, fermat_test_dynwin, euler_test_dynwin,
  fermat_test_nlimbs, euler_test_nlimbs,
}
use gap_miner_v.Primality.Window.Reads.{get_bits4_lem, get_bits_w_lem}
use gap_miner_v.Primality.Window.Loop.{CountsTrailing}
use gap_miner_v.Primality.Window.Exponent.{LeadingZeros, minus_one_lem, halve_limbs_lem}
use gap_miner_v.Primality.Window.Compare.{is_one_lem, euler_accepts_lem, one_limb, below_one}
use gap_miner_v.Primality.Window.Power.{pow2_window_lem}

third :
    (a b c x y z : Bool)
    → a ≡ false
    → b ≡ false
    → c ≡ true
    → (if a then false else if b then x else if c then y else z) ≡ y
third a b c x y z ha hb hc = rw (ha, hb, hc) refl

fourth :
    (a b c x y z : Bool)
    → a ≡ false
    → b ≡ false
    → c ≡ false
    → (if a then false else if b then x else if c then y else z) ≡ z
fourth a b c x y z ha hb hc = rw (ha, hb, hc) refl

-- On one limb, the tests are those of a word.
pub one_tests :
    (clzll ctz : ℕ → ℕ) (win_bits : ℕ) (n : List ℕ) (nl : ℕ)
    → AllWords n
    → length n ≡ nl
    → nl ≡ 1
    → (fermat_test_nlimbs clzll ctz win_bits n nl ≡ fermat_u64_exact (value n))
      × (euler_test_nlimbs clzll ctz win_bits n nl ≡ euler_u64 (value n))
unfolding fermat_test_nlimbs euler_test_nlimbs
one_tests clzll ctz win_bits n nl words size one =
    let inside : ((nl == 0) || ltb max_limbs nl) ≡ false = ground arith in
    let single : (nl == 1) ≡ true = ground arith in
    rw (inside, single, one_limb n words (size ∙ one)) (refl, refl)

window_size_range : (win_bits : ℕ) → (3 ≤ window_size win_bits) × (window_size win_bits ≤ 5)
unfolding window_size
window_size_range win_bits = (ground arith, ground arith)

module _ (clzll ctz : ℕ → ℕ) (n : List ℕ) (nl : ℕ) (leading : LeadingZeros clzll)
    (trailing : CountsTrailing ctz) (words : AllWords n) (size : length n ≡ nl) (some : 0 < nl)
    (few : nl ≤ max_limbs) (top : 0 < get_or n (nl - 1) 0) (odd : value n % 2 ≡ 1)
    (large : 4 ≤ value n) where
  abbrev pub Reads : ℕ → (ℕ → ℕ) → List ℕ → Type 0
  Reads win_bits bits_at e =
      (bit : ℕ) → bit + win_bits ≤ 64 * nl → bits_at bit ≡ value e / 2 ^ bit % 2 ^ win_bits

  abbrev fermat_passes : Bool
  fermat_passes = 2 ^ (value n - 1) % value n == 1

  abbrev euler_passes : Bool
  euler_passes =
      (2 ^ ((value n - 1) / 2) % value n == 1) || (2 ^ ((value n - 1) / 2) % value n == value n - 1)

  pub fermat_power :
      (win_bits : ℕ) (bits_at : ℕ → ℕ)
      → 1 ≤ win_bits
      → win_bits ≤ 31
      → Reads win_bits bits_at (minus_one n)
      → is_one (pow2_window clzll ctz win_bits bits_at (minus_one n) n nl) ≡ fermat_passes
  fermat_power win_bits bits_at l u reads =
      let e = minus_one_lem n words odd in
      let ev = e.2 in
      let r =
        pow2_window_lem clzll ctz n nl leading trailing words size some top odd (omega arith) few
          win_bits bits_at (minus_one n) l u e.0 (e.1 ∙ size) (omega (arith, ev)) reads in
      is_one_lem (pow2_window clzll ctz win_bits bits_at (minus_one n) n nl) r.0
      ∙ ap (λ (t : ℕ). t == 1) (r.2 ∙ ap (λ (t : ℕ). 2 ^ t % value n) ev)

  -- The limbs of `n - 1` that Euler's test compares with, however they were computed.
  pub euler_power :
      (nm1 : List ℕ)
      → AllWords nm1
      → length nm1 ≡ nl
      → value nm1 ≡ value n - 1
      → (win_bits : ℕ) (bits_at : ℕ → ℕ) → 1 ≤ win_bits
      → win_bits ≤ 31
      → Reads win_bits bits_at (halve_limbs (minus_one n))
      → euler_accepts (pow2_window clzll ctz win_bits bits_at (halve_limbs (minus_one n)) n nl) nm1
        ≡ euler_passes
  euler_power nm1 hm lm vm win_bits bits_at l u reads =
      let m = minus_one_lem n words odd in
      let h = halve_limbs_lem (minus_one n) m.0 in
      let ev : value (halve_limbs (minus_one n)) ≡ (value n - 1) / 2 =
        h.2 ∙ ap (λ (t : ℕ). t / 2) m.2 in
      let r =
        pow2_window_lem clzll ctz n nl leading trailing words size some top odd (omega arith) few
          win_bits bits_at (halve_limbs (minus_one n)) l u h.0 (h.1 ∙ (m.1 ∙ size))
          (omega (arith, ev)) reads in
      let power = r.2 ∙ ap (λ (t : ℕ). 2 ^ t % value n) ev in
      euler_accepts_lem (pow2_window clzll ctz win_bits bits_at (halve_limbs (minus_one n)) n nl)
        nm1 r.0 hm (r.1 ∙ sym lm)
      ∙ rw (power, vm) refl

  differs :
      AllWords (cpu_sub_n n (one_limbs nl))
      × (length (cpu_sub_n n (one_limbs nl)) ≡ nl)
      × (value (cpu_sub_n n (one_limbs nl)) ≡ value n - 1)
  differs = below_one n nl words size some (omega (arith, large))

  pub low_odd : (get_or n 0 0 % 2 == 0) ≡ false
  low_odd = ground (arith, low_limb n words)

  in_range : ((nl == 0) || ltb max_limbs nl) ≡ false
  in_range = ground arith

  pub get_bits4-Reads : (e : List ℕ) → AllWords e → Reads 4 (get_bits4 e) e
  get_bits4-Reads e he bit room = get_bits4_lem e bit he (omega arith)

  module _ (several : 2 ≤ nl) where
    not_one : (nl == 1) ≡ false
    not_one = ground arith

    exact_tests :
        (fermat_test_exact clzll ctz n nl ≡ fermat_passes)
        × (euler_test_exact clzll ctz n nl ≡ euler_passes)
    unfolding fermat_test_exact euler_test_exact
    exact_tests =
        let m = minus_one_lem n words odd in
        let h = halve_limbs_lem (minus_one n) m.0 in
        (
          rw (low_odd, not_one)
              (fermat_power 4 (get_bits4 (minus_one n)) (omega arith) (omega arith)
                (get_bits4-Reads (minus_one n) m.0)),
          rw (low_odd, not_one)
              (euler_power (cpu_sub_n n (one_limbs nl)) differs.0 differs.1 differs.2 4
                (get_bits4 (halve_limbs (minus_one n))) (omega arith) (omega arith)
                (get_bits4-Reads (halve_limbs (minus_one n)) h.0)),
        )

    dynwin_tests :
        (win_bits : ℕ)
        → (fermat_test_dynwin clzll ctz n nl win_bits ≡ fermat_passes)
          × (euler_test_dynwin clzll ctz n nl win_bits ≡ euler_passes)
    unfolding fermat_test_dynwin euler_test_dynwin
    dynwin_tests win_bits =
        let m = minus_one_lem n words odd in
        let h = halve_limbs_lem (minus_one n) m.0 in
        let range = window_size_range win_bits in
        let w = window_size win_bits in
        let l : 1 ≤ w = omega (arith, range.0) in
        let u : w ≤ 31 = omega (arith, range.1) in
        let short : w ≤ 32 = omega (arith, range.1) in
        (
          rw (in_range, not_one, low_odd)
              (fermat_power w (λ bit. get_bits_w (minus_one n) bit w nl) l u
                (λ bit room. get_bits_w_lem (minus_one n) bit w nl m.0 room short)),
          rw (in_range, not_one, low_odd)
              (euler_power (cpu_sub_n n (one_limbs nl)) differs.0 differs.1 differs.2 w
                (λ bit. get_bits_w (halve_limbs (minus_one n)) bit w nl) l u
                (λ bit room. get_bits_w_lem (halve_limbs (minus_one n)) bit w nl h.0 room short)),
        )

    several_tests :
        (win_bits : ℕ)
        → (fermat_test_nlimbs clzll ctz win_bits n nl ≡ fermat_passes)
          × (euler_test_nlimbs clzll ctz win_bits n nl ≡ euler_passes)
    unfolding fermat_test_nlimbs euler_test_nlimbs
    several_tests win_bits = elim (Bool-cases (win_bits == 4)) [
      | inl four ↦ (
        third _ _ _ _ _ _ in_range not_one four ∙ exact_tests.0,
        third _ _ _ _ _ _ in_range not_one four ∙ exact_tests.1,
      )
      | inr other ↦ (
        fourth _ _ _ _ _ _ in_range not_one other ∙ (dynwin_tests win_bits).0,
        fourth _ _ _ _ _ _ in_range not_one other ∙ (dynwin_tests win_bits).1,
      )
    ]

  one_limb_tests :
      (win_bits : ℕ)
      → nl ≡ 1
      → (fermat_test_nlimbs clzll ctz win_bits n nl ≡ fermat_passes)
        × (euler_test_nlimbs clzll ctz win_bits n nl ≡ euler_passes)
  one_limb_tests win_bits one =
      let tests = one_tests clzll ctz win_bits n nl words size one in
      let v = one_limb n words (size ∙ one) in
      let word : value n < 2 ^ 64 = rw (sym v) (word_of n 0 words) in
      let exact = exact_lem (value n) large odd word in (tests.0 ∙ exact.0, tests.1 ∙ exact.1)

  -- For an odd number from 4 on of `nl` limbs, 1 up to 20 and the top one not 0, builtins that count the
  -- zeros, and every size of the window, `fermat_test_cpu_nlimbs` asks whether 2 ^ (n - 1) leaves 1 modulo
  -- `n`, and `euler_test_cpu_nlimbs` whether 2 ^ ((n - 1) / 2) leaves 1 or -1.
  pub nlimbs_tests_lem :
      (win_bits : ℕ)
      → (fermat_test_nlimbs clzll ctz win_bits n nl ≡ (2 ^ (value n - 1) % value n == 1))
        × (euler_test_nlimbs clzll ctz win_bits n nl ≡ (
            (2 ^ ((value n - 1) / 2) % value n == 1)
            || (2 ^ ((value n - 1) / 2) % value n == value n - 1)))
  nlimbs_tests_lem win_bits = elim (dec_lt nl 2) [
    | yes one ↦ one_limb_tests win_bits (omega arith)
    | no more ↦ several_tests (omega arith) win_bits
  ]
