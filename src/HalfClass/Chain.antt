-- ===== src/HalfClass/Chain.antt =====
-- The chains of new_src/halfclass.c report the gaps that the scan of new_src/gap_detection.c reports.
use gap_miner_v.Prelude.{
  ℕ, ◌+◌, ◌-◌, ◌^◌, ◌<◌, ◌≡◌, refl, ap, arith, Bool, true, false, ◌||◌, none, some, List, [], ◌∷◌,
  ltb, leb, ◌==◌, u32, Bool-cases, inl, inr,
}
use gap_miner_v.Gmp.{Gmp}
use gap_miner_v.GapDetection.{
  Floats, GapDist, GapResult, GapScanStats, mpz_ln, compute_merit, pair_found, find_from, with_gap,
  Scanned,
}
use gap_miner_v.HalfClass.Emit.{emit_from, emit_chain}

-- The offsets that passed their test.
abbrev pub primes_of : List (Bool × ℕ) → List ℕ
primes_of [] = []
primes_of ((false, offset) ∷ rest) = primes_of rest
primes_of ((true, offset) ∷ rest) = offset ∷ primes_of rest

abbrev pub AllShort : List (Bool × ℕ) → Type 0
AllShort [] = Unit {0}
AllShort (candidate ∷ rest) = (candidate.1 < 2 ^ 32) × AllShort rest

module _ (floats : Floats) (gmp : Gmp) (base owned_offset_limit : ℕ)
    (merit_threshold : floats.Double)
    (positive : floats.le merit_threshold floats.zero_double ≡ false) where
  pair-emit :
      (prev next : ℕ) (chain : List ℕ) (dist : GapDist) (stats : GapScanStats floats.Double)
      (rest : Scanned floats gmp)
      → next < 2 ^ 32
      → rest.0 ≡ emit_from floats gmp base owned_offset_limit merit_threshold next chain
      → (with_gap floats gmp
          (pair_found floats gmp base merit_threshold owned_offset_limit prev next dist stats).0
          rest).0
        ≡ emit_from floats gmp base owned_offset_limit merit_threshold prev (next ∷ chain)
  unfolding pair_found emit_from compute_merit
  pair-emit prev next chain dist stats rest short e = elim (Bool-cases (ltb prev next)) [
    | inr stays ↦
        let k : (leb owned_offset_limit prev || leb next prev) ≡ true = ground arith in
        rw (stays, k) e
    | inl grows ↦ elim (Bool-cases (ltb prev owned_offset_limit)) [
      | inr foreign ↦
          let k : (leb owned_offset_limit prev || leb next prev) ≡ true = ground arith in
          rw (grows, foreign, k) e
      | inl owned ↦
          let k : (leb owned_offset_limit prev || leb next prev) ≡ false = ground arith in
          let longer : (u32 (next - prev) == 0) ≡ false = ground arith in
          elim (Bool-cases (floats.le (mpz_ln floats gmp (base + prev)) floats.zero_double)) [
            | inl no_log ↦ rw (grows, owned, k, longer, no_log, positive) e
            | inr log ↦
                elim (Bool-cases (
                  floats.le merit_threshold (
                    floats.div (floats.of_nat (u32 (next - prev)))
                      (mpz_ln floats gmp (base + prev))))) [
                        | inl large ↦
                            rw (grows, owned, k, longer, log, large)
                              (ap
                                (λ (t : List (GapResult floats.Double)).
                                  record {
                                    offset_p1 = prev;
                                    offset_p2 = next;
                                    gap_length = u32 (next - prev);
                                    merit =
                                        floats.div (floats.of_nat (u32 (next - prev)))
                                          (mpz_ln floats gmp (base + prev));
                                    verified = 0;
                                  }
                                  ∷ t)
                                e)
                        | inr small ↦ rw (grows, owned, k, longer, log, small) e
                      ]
          ]
    ]
  ]

  find_from-emit :
      (candidates : List (Bool × ℕ)) (prev : ℕ) (dist : GapDist)
      (stats : GapScanStats floats.Double)
      → AllShort candidates
      → (find_from floats gmp base merit_threshold owned_offset_limit candidates
          (some prev)
          dist
          stats).0
        ≡ emit_from floats gmp base owned_offset_limit merit_threshold prev (primes_of candidates)
  unfolding find_from
  find_from-emit [] prev dist stats short = unfold emit_from in refl
  find_from-emit ((false, offset) ∷ rest) prev dist stats short =
      find_from-emit rest prev dist stats short.1
  find_from-emit ((true, offset) ∷ rest) prev dist stats short =
      let found =
        pair_found floats gmp base merit_threshold owned_offset_limit prev offset dist stats in
      pair-emit prev offset (primes_of rest) dist stats
        (find_from floats gmp base merit_threshold owned_offset_limit rest (some offset) found.1
          found.2)
        short.0 (find_from-emit rest offset found.1 found.2 short.1)

  -- For a threshold above 0 and offsets of 32 bits, the loop of gap_detection_find reports the gaps
  -- that `halfclass_emit_chain` reports on the chain of the candidates that passed their test.
  pub find_from-emit_chain :
      (candidates : List (Bool × ℕ)) (dist : GapDist) (stats : GapScanStats floats.Double)
      → AllShort candidates
      → (find_from floats gmp base merit_threshold owned_offset_limit candidates none dist stats).0
        ≡ emit_chain floats gmp base (primes_of candidates) owned_offset_limit merit_threshold
  unfolding find_from emit_chain
  find_from-emit_chain [] dist stats short = refl
  find_from-emit_chain ((false, offset) ∷ rest) dist stats short =
      find_from-emit_chain rest dist stats short.1
  find_from-emit_chain ((true, offset) ∷ rest) dist stats short =
      find_from-emit rest offset dist stats short.1
