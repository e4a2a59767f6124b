-- ===== src/LimbCache/Scan.antt =====
-- The loop over a window's candidates in new_src/worker_gpu.c does not depend on the limb cache, and it
-- marks the primes.
use mathlib.Core.Path.{subst}
use native.Mathlib.Nat.{mod-eq_of_lt}
use gap_miner_v.Prelude.{
  ℕ, zero, suc, ◌+◌, ◌*◌, ◌%◌, ◌^◌, ◌<◌, ◌≡◌, ◌∙◌, refl, sym, arith, Bool, true, false, ◌&&◌, none,
  List, [], ◌∷◌, ltb, get_or, length, Bool-cases, inl, inr, if-true, if-false,
}
use gap_miner_v.Gmp.{Gmp}
use gap_miner_v.Primes.{IsPrime}
use gap_miner_v.Primality.Word.Rabin.{odd_of_prime}
use gap_miner_v.Primality.Exact.Powers.{euler_of_prime}
use gap_miner_v.Primality.Limbs.{max_limbs}
use gap_miner_v.Primality.Window.Loop.{CountsTrailing}
use gap_miner_v.Primality.Window.Exponent.{LeadingZeros}
use gap_miner_v.Primality.Adapters.Export.{ExportsWords}
use gap_miner_v.Primality.Adapters.Mpz.{limbs_mpz_lem}
use gap_miner_v.Primality.Big.Primes.{quick_of_prime}
use gap_miner_v.LimbCache.{LimbCache, CandidateScan, scan_step, cache_euler, scan_candidates}
use gap_miner_v.LimbCache.Tracks.{Tracks, number_passes, cache_euler_lem}

-- The loop with a test that keeps nothing.
unfoldable pub scan_with : (ℕ → Bool) → ℕ → List ℕ → CandidateScan
unfolding scan_step
scan_with test owned_window_size [] = record {
  is_prime = [];
  owned_candidate_count = 0;
  euler_pass_count = 0;
}
scan_with test owned_window_size (offset ∷ offsets) =
    scan_step (test offset) offset owned_window_size (scan_with test owned_window_size offsets)

abbrev pub AllOffsets : List ℕ → Type 0
AllOffsets [] = Unit {0}
AllOffsets (offset ∷ offsets) = (offset < 2 ^ 64) × AllOffsets offsets

both : (a b : Bool) → a ≡ true → b ≡ true → (a && b) ≡ true
both a b h k = rw (h, k) refl

-- Marks of the first candidates are the test's answers.
abbrev pub Marked : (ℕ → Bool) → List ℕ → List Bool → Type 0
Marked test offsets marks =
    (i : ℕ) → i < length marks → get_or marks i false ≡ test (get_or offsets i 0)

abbrev ScanMarked : (ℕ → Bool) → List ℕ → CandidateScan → Type 0
ScanMarked test offsets scan = Marked test offsets scan.is_prime

-- A step keeps the marks behind it, or ends the loop.
step_Marked :
    (test : ℕ → Bool) (mark : Bool) (offset owned : ℕ) (offsets : List ℕ) (rest : CandidateScan)
    → mark ≡ test offset
    → Marked test offsets rest.is_prime
    → Marked test (offset ∷ offsets) (scan_step mark offset owned rest).is_prime
unfolding scan_step
step_Marked test mark offset owned offsets rest e later = elim (Bool-cases (ltb offset owned)) [
  | inl inside ↦ subst (ScanMarked test (offset ∷ offsets)) (sym (if-true _ _ _ inside)) kept
  | inr halo ↦ elim (Bool-cases mark) [
    | inl closes ↦
        subst (ScanMarked test (offset ∷ offsets))
          (sym (if-false _ _ _ halo ∙ if-true _ _ _ closes)) last
    | inr goes_on ↦
        subst (ScanMarked test (offset ∷ offsets))
          (sym (if-false _ _ _ halo ∙ if-false _ _ _ goes_on)) kept
  ]
]
  where
    kept : Marked test (offset ∷ offsets) (mark ∷ rest.is_prime)
    kept zero l = e
    kept (suc i) l = later i (omega arith)

    last : Marked test (offset ∷ offsets) (mark ∷ [])
    last zero l = e
    last (suc i) l = absurd (omega arith)

scan_with-Marked :
    (test : ℕ → Bool) (owned : ℕ) (offsets : List ℕ)
    → Marked test offsets (scan_with test owned offsets).is_prime
unfolding scan_with
scan_with-Marked test owned [] = λ i h. absurd (omega arith)
scan_with-Marked test owned (offset ∷ offsets) =
    step_Marked test (test offset) offset owned offsets (scan_with test owned offsets) refl
      (scan_with-Marked test owned offsets)

module _ (gmp : Gmp) (mpz_export : ℕ → List ℕ) (clzll ctz : ℕ → ℕ) (enabled : Bool) (win_bits : ℕ)
    (exports : ExportsWords mpz_export) where
  -- For a base that is not 0, offsets of 64 bits and a cache that is reset or tracks the base, the loop of
  -- `worker_process_window` without GPU verdicts marks and counts as with a test of each number that keeps
  -- no cache, in whatever order the offsets come, if `mpz_export` gives a number's words.
  pub scan_candidates-scan_with :
      (cache : LimbCache) (base owned_window_size i : ℕ) (offsets : List ℕ)
      → 0 < base
      → Tracks base cache
      → AllOffsets offsets
      → scan_candidates gmp mpz_export clzll ctz enabled win_bits none cache base owned_window_size
          i offsets
        ≡ scan_with
            (λ offset. number_passes gmp mpz_export clzll ctz enabled win_bits (base + offset))
            owned_window_size
            offsets
  unfolding scan_candidates scan_with
  scan_candidates-scan_with cache base owned i [] pos tracks words = refl
  scan_candidates-scan_with cache base owned i (offset ∷ offsets) pos tracks words =
      let one =
        cache_euler_lem gmp mpz_export clzll ctz enabled win_bits exports base pos cache offset
          tracks words.0 in
      let next = cache_euler gmp mpz_export clzll ctz enabled win_bits cache base offset in
      let rest = scan_candidates-scan_with next.0 base owned (i + 1) offsets pos one.0 words.1 in
      rw (one.1, rest) refl

  module _ (leading : LeadingZeros clzll) (trailing : CountsTrailing ctz) where
    -- Whichever test it is, a prime passes.
    number_passes_of_prime :
        (n : ℕ)
        → IsPrime n
        → 3 < n
        → number_passes gmp mpz_export clzll ctz enabled win_bits n ≡ true
    number_passes_of_prime n prime large =
        let quick = quick_of_prime n prime large in
        elim (Bool-cases enabled) [
          | inr off ↦ if-false enabled _ _ off ∙ quick
          | inl on ↦ elim (Bool-cases (ltb n (2 ^ (64 * max_limbs)))) [
            | inr over ↦
                if-true enabled _ _ on ∙ (if-false (ltb n (2 ^ (64 * max_limbs))) _ _ over ∙ quick)
            | inl inside ↦
                let odd = odd_of_prime n prime large in
                let two : 0 < 2 % n =
                  rw (mod-eq_of_lt {n = 2} {m = n} (omega arith)) (omega arith) in
                let tests =
                  limbs_mpz_lem gmp mpz_export clzll ctz exports leading trailing win_bits n odd
                    large in
                if-true enabled _ _ on
                ∙ (if-true (ltb n (2 ^ (64 * max_limbs))) _ _ inside
                    ∙ (tests.1 ∙ both _ _ inside (euler_of_prime n 2 prime odd two)))
          ]
        ]

    -- A candidate that the loop reaches and that is a prime above 3 is marked, with the limb path or
    -- without it: without GPU verdicts, for a base that is not 0, offsets of 64 bits, a cache that is reset
    -- or tracks the base, builtins that count the zeros and an `mpz_export` that gives a number's words.
    pub scan_candidates_of_prime :
        (cache : LimbCache) (base owned_window_size : ℕ) (offsets : List ℕ)
        → 0 < base
        → Tracks base cache
        → AllOffsets offsets
        → (i : ℕ)
        → let scan =
            scan_candidates gmp mpz_export clzll ctz enabled win_bits none cache base
              owned_window_size 0 offsets in
          i < length scan.is_prime
          → IsPrime (base + get_or offsets i 0)
          → 3 < base + get_or offsets i 0
          → get_or scan.is_prime i false ≡ true
    scan_candidates_of_prime cache base owned offsets pos tracks words i h prime large =
        let test : ℕ → Bool =
          λ offset. number_passes gmp mpz_export clzll ctz enabled win_bits (base + offset) in
        let same = scan_candidates-scan_with cache base owned 0 offsets pos tracks words in
        let marks =
          subst (ScanMarked test offsets) (sym same) (scan_with-Marked test owned offsets) in
        marks i h ∙ number_passes_of_prime (base + get_or offsets i 0) prime large
