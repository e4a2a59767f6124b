-- ===== src/PowQ48/Certify.antt =====
-- The rejection certificate of new_src/pow_q48.c: a span that is certified cannot hold a gap that the
-- node accepts.
use native.Mathlib.Decide.{dec_le}
use native.Mathlib.Nat.{mod-lt, mod-le, mul-le-mul, le_refl}
use gap_miner_v.Prelude.{
  ℕ, suc, ◌+◌, ◌-◌, ◌*◌, ◌/◌, ◌%◌, ◌^◌, ◌≤◌, ◌<◌, ◌≡◌, ◌≢◌, refl, ◌∙◌, arith, List, some, false,
  ltb, leb, ◌==◌, if◌then◌else◌, u64, ltb-false, leb-false, lt→ltb, leb-true, ==_false,
}
use gap_miner_v.Prelude.Arith.{div-lt_of_lt-mul, div-mul-le}
use gap_miner_v.Gmp.{Gmp}
use gap_miner_v.PowQ48.Log2.{mpz_log2}
use gap_miner_v.PowQ48.Log2.Sound.{mpz_log2_lem}
use gap_miner_v.PowQ48.Bytes.{low64}
use gap_miner_v.PowQ48.Bytes.Laws.{low64-zero, low64-one}
use gap_miner_v.PowQ48.Merit.{
  reject, accept, log2e112, merit, min_gap_merit, cdiv_q, reject_bound, span_may_qualify, rand,
  difficulty, classify,
}

-- A gap below the rounded up quotient has a smaller product.
gap_below : (gap a c : ℕ) → 0 < c → gap < (a + (c - 1)) / c → gap * c < a
gap_below gap a c h l =
    omega (arith, div-mul-le (a + (c - 1)) c, mul-le-mul {n₁ = suc gap} l (le_refl c))

-- The bound of a certificate, at a minimal gap merit and a logarithm that are known.
abbrev bound_of : ℕ → ℕ → ℕ → ℕ
bound_of m target l =
    let bound = cdiv_q (l * (if leb m target then u64 (target - m + 1) else 0)) log2e112 in
    if ltb 0 l then (if ltb bound 2 then 2 else bound) else 0

module _ (g : Gmp) (start : ℕ) (pos : 0 < start) (l : ℕ) (log : mpz_log2 g start 64 ≡ some l) where
  start_test : (start == 0) ≡ false
  start_test = ground arith

  -- The value of `pow_q48_min_gap_merit`, at a logarithm that is known.
  min_gap_eq : min_gap_merit g start ≡ some (if ltb 0 l then low64 g (2 * log2e112 / l) 1 else 1)
  unfolding min_gap_merit
  min_gap_eq = rw (start_test, log) refl

  pub merit_eq :
      (end : ℕ)
      → start ≤ end
      → merit g start end ≡ some (if ltb 0 l then low64 g ((end - start) * log2e112 / l) 0 else 0)
  unfolding merit
  merit_eq end h = rw (start_test, ltb-false end start h, log) refl

  reject_bound_eq :
      (target m : ℕ)
      → target ≢ 0
      → min_gap_merit g start ≡ some m
      → reject_bound g start target ≡ some (bound_of m target l)
  unfolding reject_bound
  reject_bound_eq target m h e = rw (==_false target 0 h, start_test, e, log) refl

u64_le : (x : ℕ) → u64 x ≤ x
u64_le x = omega arith

bound_core :
    (a l span : ℕ)
    → 2 ≤ span
    → span < (if ltb 0 l then (if ltb (cdiv_q a log2e112) 2 then 2 else cdiv_q a log2e112) else 0)
    → (0 < l) × (span < cdiv_q a log2e112)
bound_core a l span two above = ground arith

-- What a bound above a span of at least 2 says of every gap within the span.
bound_above :
    (m target l gap span : ℕ)
    → 2 ≤ gap
    → gap ≤ span
    → span < bound_of m target l
    → (m ≤ target) × (0 < l) × (gap * log2e112 < l * (target - m + 1))
bound_above m target l gap span two within above = elim (dec_le m target) [
  | yes h ↦
      let core : (0 < l) × (gap * log2e112 < l * u64 (target - m + 1)) =
        below (u64 (target - m + 1)) (rw (leb-true m target h) at above) in
      (h, core.0, omega (arith, core.1, mul-le-mul (le_refl l) (u64_le (target - m + 1))))
  | no h ↦ absurd (omega (arith, below 0 (rw (leb-false m target (omega arith)) at above)))
]
  where
    below :
        (needed : ℕ)
        → span < (
            if ltb 0 l
            then (if ltb (cdiv_q (l * needed) log2e112) 2 then 2 else cdiv_q (l * needed) log2e112)
            else 0)
        → (0 < l) × (gap * log2e112 < l * needed)
    below needed h =
        let core : (0 < l) × (span < cdiv_q (l * needed) log2e112) =
          bound_core (l * needed) l span (omega arith) h in
        (core.0, gap_below gap (l * needed) log2e112 (omega arith) (omega (arith, core.1)))

-- A random part below the minimal gap merit cannot lift such a merit to the target.
lift_below :
    (q m target r : ℕ) → m ≤ target → 0 < m → q < target - m + 1 → u64 (q % 2 ^ 64 + r % m) < target
lift_below q m target r h pos below = omega (arith, mod-lt r pos, mod-le q (2 ^ 64))

min_gap_pos : (g : Gmp) (l : ℕ) → 0 < (if ltb 0 l then low64 g (2 * log2e112 / l) 1 else 1)
min_gap_pos g l = ground (arith, low64-one g (2 * log2e112 / l))

module _ (g : Gmp) (sha256 : List ℕ → List ℕ) (start end target : ℕ) where
  classify_eq :
      {q m : ℕ}
      → 0 < start
      → start ≤ end
      → target ≢ 0
      → 0 < m
      → merit g start end ≡ some q
      → min_gap_merit g start ≡ some m
      → classify g sha256 start end target
        ≡ some (if leb target (u64 (q + rand g sha256 start end % m)) then accept else reject)
  unfolding classify difficulty
  classify_eq {q} {m} pos h ne least eq em =
      rw
        (
          ==_false target 0 ne,
          ==_false start 0 (omega arith),
          ltb-false end start h,
          eq,
          em,
          ==_false m 0 (omega arith),
        )
        refl

-- `pow_q48_span_may_qualify` says no only with a bound above the span.
may_qualify_no :
    (g : Gmp) (start span target : ℕ)
    → span_may_qualify g start span target ≡ some false
    → (target ≢ 0) × (start ≢ 0) × ((b : ℕ) → reject_bound g start target ≡ some b → span < b)
unfolding span_may_qualify
may_qualify_no g start span target h = (ground arith, ground arith, λ b e. ground arith)

-- A span that `pow_q48_span_may_qualify` rules out holds no gap that the node accepts: each gap of
-- at least 2 within it has the verdict `reject`, whatever the hash gives.
pub span_may_qualify-reject :
    (g : Gmp) (sha256 : List ℕ → List ℕ) (start end span target : ℕ)
    → g.sizeinbase2 start + 64 < 2 ^ 32
    → start + 2 ≤ end
    → end - start ≤ span
    → span_may_qualify g start span target ≡ some false
    → classify g sha256 start end target ≡ some reject
span_may_qualify-reject g sha256 start end span target fits two within no_gap =
    let (ne, nz, above) = may_qualify_no g start span target no_gap in
    let pos : 0 < start = omega arith in
    let (l, log, lo, hi, below) = mpz_log2_lem g start 64 pos fits in
    let m = if ltb 0 l then low64 g (2 * log2e112 / l) 1 else 1 in
    let em : min_gap_merit g start ≡ some m = min_gap_eq g start pos l log in
    let (m_le, l_pos, product) =
      bound_above m target l (end - start) span (omega arith) within
        (above (bound_of m target l) (reject_bound_eq g start pos l log target m ne em)) in
    let q = (end - start) * log2e112 / l in
    let eq : merit g start end ≡ some (q % 2 ^ 64) =
      merit_eq g start pos l log end (omega arith) ∙ rw (lt→ltb 0 l l_pos, low64-zero g q) refl in
    let lifted =
      lift_below q m target (rand g sha256 start end) m_le (min_gap_pos g l)
        (div-lt_of_lt-mul ((end - start) * log2e112) (target - m + 1) l product) in
    classify_eq g sha256 start end target pos (omega arith) ne (min_gap_pos g l) eq em
    ∙ rw (leb-false target (u64 (q % 2 ^ 64 + rand g sha256 start end % m)) lifted) refl
