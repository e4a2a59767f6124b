-- ===== src/HalfClass/Resolve.antt =====
-- A gap of visible primes, resolved in the hidden classes by new_src/halfclass.c, gives what a scan of
-- all numbers gives.
use gap_miner_v.Prelude.{
  ℕ, zero, suc, ◌+◌, ◌-◌, ◌%◌, ◌^◌, ◌≤◌, ◌<◌, ◌≡◌, ◌∙◌, refl, sym, ap, arith, Bool, true, false,
  not, ◌&&◌, none, List, [], ◌∷◌, ◌++◌, map, leb, ◌==◌, take, get_or, replicate, length-replicate,
  if◌then◌else◌, Bool-cases, inl, inr,
}
use gap_miner_v.Gmp.{Gmp}
use gap_miner_v.Sieve.Odd.{get_or-replicate, or-false}
use gap_miner_v.GapDetection.{Floats, GapDist, GapScanStats, find_from}
use gap_miner_v.HalfClass.{
  in_mask, visible_mask, hidden_mask, class_of, offset_visible, mark_multiples, collect_from,
  collect_hidden_candidates, passing, collect_hidden,
}
use gap_miner_v.HalfClass.Emit.{emit_chain, emit_resolved, resolve_gap_ex, resolve_gap}
use gap_miner_v.HalfClass.Classes.{coprime_to_60, class_of_lem}
use gap_miner_v.HalfClass.Chain.{primes_of, AllShort, find_from-emit_chain}
use gap_miner_v.HalfClass.Hidden.{
  AllUsable, AllUsable-take, any_divides, sieved, get_or-mark_multiples, tested,
  hidden_of_invisible, invisible_of_visible, listed, listed-visible, listed-tested, passing-sieved,
}

tested-AllShort :
    (test : ℕ → Bool) (base left offset : ℕ)
    → offset + left ≤ 2 ^ 32
    → AllShort (tested test base left offset)
tested-AllShort test base zero offset h = tt
tested-AllShort test base (suc left) offset h =
    (omega arith, tested-AllShort test base left (offset + 1) (omega arith))

-- The primes that the mini-sieve uses for an interval.
abbrev pub mini_primes : List ℕ → ℕ → List ℕ
mini_primes primes interval = if leb interval (2 ^ 22) then take 10000 primes else []

and_left : (a b : Bool) → (a && b) ≡ true → a ≡ true
and_left a b e = ground arith

unnegated : (a b c : Bool) → (a && (not b && c)) ≡ true → b ≡ false
unnegated a b c e = ground arith

-- The test of a number of an interval, behind the mini-sieve.
abbrev pub passes : (ℕ → ℕ → Bool) → List ℕ → ℕ → ℕ → Bool
passes probab_prime primes interval = sieved (probab_prime 15) (mini_primes primes interval)

-- The marks of the mini-sieve on the interval.
abbrev marks : List ℕ → ℕ → ℕ → List Bool
marks primes bsub interval =
    if leb interval (2 ^ 22)
    then mark_multiples (take 10000 primes) bsub interval (replicate interval false)
    else []

module _ (probab_prime : ℕ → ℕ → Bool) (quarter : Bool) (primes : List ℕ) (base off_a off_b : ℕ)
    (usable : AllUsable primes) (ordered : off_a < off_b) (short : off_b < 2 ^ 32)
    (start : (passes probab_prime primes (off_b - off_a) (base + off_a) ≡ true)
      × (offset_visible quarter (base % 60) off_a ≡ true))
    (end : passes probab_prime primes (off_b - off_a) (base + off_b) ≡ true)
    (inside : (off : ℕ)
      → off_a < off
      → off < off_b
      → passes probab_prime primes (off_b - off_a) (base + off) ≡ true
      → offset_visible quarter (base % 60) off ≡ false) where
  test : ℕ → Bool
  test = passes probab_prime primes (off_b - off_a)

  bits : List Bool
  bits = marks primes (base + off_a) (off_b - off_a)

  test-coprime : (x : ℕ) → test x ≡ true → coprime_to_60 x ≡ true
  unfolding test
  test-coprime x e =
      and_left (coprime_to_60 x)
        (not (any_divides (mini_primes primes (off_b - off_a)) x) && probab_prime 15 x) e

  test-undivided :
      (x : ℕ) → test x ≡ true → any_divides (mini_primes primes (off_b - off_a)) x ≡ false
  unfolding test
  test-undivided x e =
      unnegated (coprime_to_60 x) (any_divides (mini_primes primes (off_b - off_a)) x)
        (probab_prime 15 x) e

  get_or-bits :
      (off : ℕ)
      → off < off_b - off_a
      → get_or bits off false
        ≡ any_divides (mini_primes primes (off_b - off_a)) (base + off_a + off)
  unfolding bits
  get_or-bits off h = elim (Bool-cases (leb (off_b - off_a) (2 ^ 22))) [
    | inr large ↦ rw large refl
    | inl small ↦ rw small (
        get_or-mark_multiples (take 10000 primes) (base + off_a) (off_b - off_a)
          (replicate (off_b - off_a) false) off (AllUsable-take 10000 primes usable) (omega arith)
          (omega (arith, length-replicate (off_b - off_a) false)) h
        ∙ rw (get_or-replicate (off_b - off_a) off)
            (or-false (any_divides (take 10000 primes) (base + off_a + off))))
  ]

  inner_hidden :
      (o : ℕ)
      → 1 ≤ o
      → o < off_b - off_a
      → test (base + off_a + o) ≡ true
      → in_mask (hidden_mask quarter) ((base + off_a + o) % 60) ≡ true
  unfolding offset_visible test
  inner_hidden o lo hi prime =
      let assoc : base + off_a + o ≡ base + (off_a + o) = omega arith in
      let same : test (base + (off_a + o)) ≡ true = ap (λ (t : ℕ). test t) (sym assoc) ∙ prime in
      let class : class_of (base % 60) (off_a + o) ≡ (base + off_a + o) % 60 =
        class_of_lem base (off_a + o) ∙ ap (λ (t : ℕ). t % 60) (sym assoc) in
      hidden_of_invisible quarter (base + off_a + o) (test-coprime (base + off_a + o) prime) (
        ap (λ (t : ℕ). in_mask (visible_mask quarter) t) (sym class)
        ∙ inside (off_a + o) (omega arith) (omega arith) same)

  visible_start : in_mask (visible_mask quarter) ((base + off_a) % 60) ≡ true
  unfolding offset_visible
  visible_start =
      ap (λ (t : ℕ). in_mask (visible_mask quarter) t) (sym (class_of_lem base off_a)) ∙ start.1

  -- The hidden numbers that the test finds are those that pass with the sieve.
  collected :
      listed quarter (probab_prime 15) base off_a bits (off_b - off_a) 0
      ≡ listed quarter test base off_a bits (off_b - off_a) 0
  unfolding test
  collected =
      passing-sieved quarter (probab_prime 15) (mini_primes primes (off_b - off_a)) base off_a bits
        (off_b - off_a) 0 (λ o h. get_or-bits o (omega arith))

  inner_listed :
      (o : ℕ)
      → 1 ≤ o
      → o < off_b - off_a
      → test (base + off_a + o) ≡ true
      → (in_mask (hidden_mask quarter) ((base + off_a + o) % 60) ≡ true)
        × (get_or bits o false ≡ false)
  inner_listed o lo hi prime =
      (inner_hidden o lo hi prime, get_or-bits o hi ∙ test-undivided (base + off_a + o) prime)

  start_passes : test (base + off_a) ≡ true
  unfolding test
  start_passes = start.0

  end_passes : test (base + off_b) ≡ true
  unfolding test
  end_passes = end

  -- The chain that is reported on is that of all numbers from the first to the last prime.
  chain :
      off_a
        ∷ (map
              (λ (o : ℕ). off_a + o)
              (passing (probab_prime 15) (base + off_a) (
                collect_from quarter
                  (class_of (base % 60) off_a)
                  off_a
                  none
                  bits
                  (off_b - off_a)
                  0))
            ++ (off_b ∷ []))
      ≡ primes_of (tested test base (suc (off_b - off_a)) off_a)
  chain =
      rw (class_of_lem base off_a, collected, start_passes, shape)
        (ap (λ (t : List ℕ). off_a ∷ t) (rw skipped joined))
    where
      m : ℕ
      m = off_b - off_a - 1

      shape : off_b - off_a ≡ suc m
      shape = omega arith

      end_of : off_a + (1 + m) ≡ off_b
      end_of = omega arith

      at_start : base + off_a + 0 ≡ base + off_a
      at_start = omega arith

      first_visible : in_mask (hidden_mask quarter) ((base + off_a + 0) % 60) ≡ false
      first_visible =
          invisible_of_visible quarter (base + off_a + 0)
            (ap (λ (t : ℕ). in_mask (visible_mask quarter) (t % 60)) at_start ∙ visible_start)

      skipped :
          listed quarter test base off_a bits (suc m) 0 ≡ listed quarter test base off_a bits m 1
      skipped = listed-visible quarter test base off_a bits m 0 first_visible

      joined :
          map (λ (o : ℕ). off_a + o) (listed quarter test base off_a bits m 1) ++ (off_b ∷ [])
          ≡ primes_of (tested test base (suc m) (off_a + 1))
      joined =
          ap
            (λ (t : ℕ).
              map (λ (o : ℕ). off_a + o) (listed quarter test base off_a bits m 1) ++ (t ∷ []))
            (sym end_of)
          ∙ listed-tested quarter test base off_a bits m 1
              (λ o lo hi prime. inner_listed o lo (omega arith) prime)
              (ap (λ (t : ℕ). test (base + t)) end_of ∙ end_passes)

  -- `halfclass_resolve_gap`, without a template, reports what the scan of gap_detection_find reports for
  -- all numbers from `off_a` to `off_b`, if a number passes that is coprime to 60, that no prime of the
  -- mini-sieve divides, and that `mpz_probab_prime_p` accepts. The primes of the mini-sieve are the first
  -- 10000 of the table, none for an interval above 2 ^ 22. The numbers at `off_a`, in a visible class, and
  -- at `off_b`, behind it and below 2 ^ 32, pass, and none in a visible class between them does; the
  -- threshold is above 0; the table has positive numbers of 32 bits.
  pub resolve_gap-find :
      (floats : Floats) (gmp : Gmp) (owned_offset_limit : ℕ) (merit_threshold : floats.Double)
      (dist : GapDist) (stats : GapScanStats floats.Double)
      → floats.le merit_threshold floats.zero_double ≡ false
      → resolve_gap floats gmp probab_prime quarter primes base off_a off_b owned_offset_limit
          merit_threshold
        ≡ (find_from floats gmp base merit_threshold owned_offset_limit
            (tested (passes probab_prime primes (off_b - off_a)) base (suc (off_b - off_a)) off_a)
            none
            dist
            stats).0
  unfolding resolve_gap resolve_gap_ex emit_resolved collect_hidden collect_hidden_candidates
      emit_chain bits test
  resolve_gap-find floats gmp owned_offset_limit merit_threshold dist stats positive =
      let a : leb off_b off_a ≡ false = ground arith in
      let b : (off_b - off_a == 0) ≡ false = ground arith in
      rw (a, b)
        (ap (λ (t : List ℕ). emit_chain floats gmp base t owned_offset_limit merit_threshold) chain
          ∙ sym (
              find_from-emit_chain floats gmp base owned_offset_limit merit_threshold positive
                (tested test base (suc (off_b - off_a)) off_a) dist stats
                (tested-AllShort test base (suc (off_b - off_a)) off_a (omega arith))))
