-- ===== src/PowQ48/Merit.antt =====
-- The exact quantities of new_src/pow_q48.c and the verdicts built on them. `none` stands for a
-- logarithm loop that does not end, which `Log2.Sound` excludes.
use Prim.Native.Nat.{bit_xor}
use gap_miner_v.Prelude.{
  ℕ, ◌+◌, ◌-◌, ◌*◌, ◌/◌, ◌%◌, ◌^◌, Bool, true, false, not, ◌||◌, Option, none, some, List, ◌++◌,
  take, drop, length, ltb, leb, ◌==◌, if◌then◌else◌, u64, uint64_max,
}
use gap_miner_v.Gmp.{Gmp}
use gap_miner_v.PowQ48.Log2.{mpz_log2}
use gap_miner_v.PowQ48.Bytes.{or_bytes, low64, le_bytes}

-- log2(e) * 2^112, `Q48_LOG2E112_HEX`.
abbrev pub log2e112 : ℕ
log2e112 = 0x171547652b82fe1777d0ffda0d23a

abbrev pub q48_one : ℕ
q48_one = 2 ^ 48

pub data Verdict : Type 0 where
  unknown reject accept : Verdict

infixl 5 ◌>>=◌
abbrev pub ◌>>=◌ : {A B : Type 0} → Option A → (A → Option B) → Option B
none >>= f = none
some a >>= f = f a

-- `mpz_cdiv_q`, the quotient rounded up.
abbrev pub cdiv_q : ℕ → ℕ → ℕ
cdiv_q n d = (n + (d - 1)) / d

module _ (g : Gmp) where
  unfoldable pub merit : ℕ → ℕ → Option ℕ
  merit start end = if start == 0 || ltb end start then some 0 else do
    log2_start ← mpz_log2 g start 64
    some (if ltb 0 log2_start then low64 g ((end - start) * log2e112 / log2_start) 0 else 0)

  unfoldable pub min_gap_merit : ℕ → Option ℕ
  min_gap_merit start = if start == 0 then some 1 else do
    log2_start ← mpz_log2 g start 64
    some (if ltb 0 log2_start then low64 g (2 * log2e112 / log2_start) 1 else 1)

  unfoldable pub target_size : ℕ → ℕ → Option ℕ
  target_size start target_q48 = if start == 0 || target_q48 == 0 then some 0 else do
    log2_start ← mpz_log2 g start 64
    some (if ltb 0 log2_start then low64 g (log2_start * target_q48 / log2e112) 0 else 0)

  unfoldable pub reject_bound : ℕ → ℕ → Option ℕ
  reject_bound start target_q48 = if target_q48 == 0 || start == 0 then some 0 else do
    min_gap ← min_gap_merit start
    let needed = if leb min_gap target_q48 then u64 (target_q48 - min_gap + 1) else 0
    log2_start ← mpz_log2 g start 64
    let bound = cdiv_q (log2_start * needed) log2e112
    some (if ltb 0 log2_start then (if ltb bound 2 then 2 else bound) else 0)

  unfoldable pub span_rejected : ℕ → ℕ → Bool
  span_rejected span bound =
      if bound == 0 then false else if span == uint64_max then false else ltb span bound

  unfoldable pub span_may_qualify : ℕ → ℕ → ℕ → Option Bool
  unfolding span_rejected
  span_may_qualify start span target_q48 =
      if target_q48 == 0 || start == 0
      then some true
      else if span == uint64_max
      then some true
      else do bound ← reject_bound start target_q48; some (not (span_rejected span bound))

  module _ (sha256 : List ℕ → List ℕ) where
    -- The i-th little endian 64-bit word of a digest.
    pub word : List ℕ → ℕ → ℕ
    word digest i = or_bytes 0 (take 8 (drop (i * 8) digest)) 0

    unfoldable pub rand : ℕ → ℕ → ℕ
    unfolding word
    rand start end =
        if start == 0 || end == 0
        then 0
        else (let bs = le_bytes g start in
            let be = le_bytes g end in
            if length bs + length be == 0
            then 0
            else (let second = sha256 (sha256 (bs ++ be)) in
                bit_xor (bit_xor (bit_xor (word second 0) (word second 1)) (word second 2))
                  (word second 3)))

    unfoldable pub difficulty : ℕ → ℕ → Option ℕ
    difficulty start end = if start == 0 || ltb end start then some 0 else do
      reached ← merit start end
      least ← min_gap_merit start
      let min_gap = if least == 0 then 1 else least
      some (u64 (reached + rand start end % min_gap))

    unfoldable pub classify : ℕ → ℕ → ℕ → Option Verdict
    classify start end target_q48 =
        if target_q48 == 0
        then some unknown
        else if start == 0 || ltb end start
        then some unknown
        else do
          reached ← difficulty start end
          some (if leb target_q48 reached then accept else reject)

    unfoldable pub accepts : ℕ → ℕ → ℕ → Option Bool
    accepts start end target_q48 = do
      verdict ← classify start end target_q48
      some (elim verdict [ accept ↦ true | _ ↦ false ])
