-- ===== src/GapDetection.antt =====
-- new_src/gap_detection.c: the scan of tested candidates for gaps, and the counters of
-- new_src/gap_dist.c that it feeds. The arithmetic of double is an argument.
pub mod Model
use gap_miner_v.Prelude.{
  ℕ, zero, suc, ◌+◌, ◌-◌, ◌/◌, ◌^◌, Bool, true, false, not, ◌&&◌, Option, none, some, List, [], ◌∷◌,
  ltb, leb, ◌==◌, u32, get_or, set, replicate, if◌then◌else◌,
}
use gap_miner_v.Gmp.{Gmp}

-- The numbers of type double and what libm computes with them.
pub record Floats : Type 1 where
  pub Double : Type 0
  pub zero_double : Double
  pub ln_two : Double
  pub of_nat : ℕ → Double
  pub le : Double → Double → Bool
  pub lt : Double → Double → Bool
  pub add : Double → Double → Double
  pub mul : Double → Double → Double
  pub div : Double → Double → Double
  pub log : Double → Double
  pub log2 : Double → Double

abbrev pub gap_dist_buckets : ℕ
gap_dist_buckets = 512

-- The global variables of gap_dist.c that the scan reads or writes.
pub record GapDist : Type 0 where
  pub hist : List ℕ
  pub enabled : Bool
  pub excl_lo : ℕ
  pub excl_hi : ℕ

unfoldable pub set_enabled : GapDist → ℕ → GapDist
set_enabled dist enabled = record {
  hist = dist.hist;
  enabled = not (enabled == 0);
  excl_lo = dist.excl_lo;
  excl_hi = dist.excl_hi;
}

unfoldable pub set_excluded : GapDist → ℕ → ℕ → GapDist
set_excluded dist lo hi = record {
  hist = dist.hist;
  enabled = dist.enabled;
  excl_lo = if leb hi lo then 0 else lo;
  excl_hi = if leb hi lo then 0 else hi;
}

unfoldable pub offset_excluded : GapDist → ℕ → Bool
offset_excluded dist offset =
    ltb dist.excl_lo dist.excl_hi && (leb dist.excl_lo offset && ltb offset dist.excl_hi)

unfoldable pub accumulate : GapDist → ℕ → GapDist
accumulate dist gap_length =
    let index =
      if leb gap_dist_buckets (gap_length / 2) then gap_dist_buckets - 1 else gap_length / 2 in
    if not dist.enabled then dist else if gap_length == 0 then dist else record {
      hist = set dist.hist index (get_or dist.hist index 0 + 1);
      enabled = dist.enabled;
      excl_lo = dist.excl_lo;
      excl_hi = dist.excl_hi;
    }

unfoldable pub sum_counts : List ℕ → ℕ
sum_counts [] = 0
sum_counts (count ∷ hist) = count + sum_counts hist

unfoldable pub total : GapDist → ℕ
unfolding sum_counts
total dist = sum_counts dist.hist

unfoldable pub reset : GapDist → GapDist
reset dist = record {
  hist = replicate gap_dist_buckets 0;
  enabled = dist.enabled;
  excl_lo = dist.excl_lo;
  excl_hi = dist.excl_hi;
}

-- `struct gap_result`, with what a double is.
pub record GapResult (M : Type 0) : Type 0 where
  pub offset_p1 : ℕ
  pub offset_p2 : ℕ
  pub gap_length : ℕ
  pub merit : M
  pub verified : ℕ

-- `struct gap_scan_stats`
pub record GapScanStats (M : Type 0) : Type 0 where
  pub euler_pairs : ℕ
  pub max_gap_length : ℕ
  pub max_merit : M

module _ (floats : Floats) (gmp : Gmp) where
  -- The natural logarithm from the 53 leading bits.
  unfoldable pub mpz_ln : ℕ → floats.Double
  mpz_ln x =
      let bits = gmp.sizeinbase2 x in
      if x == 0
      then floats.zero_double
      else if leb bits 53
      then floats.log (floats.of_nat x)
      else floats.mul
          (floats.add (floats.log2 (floats.of_nat (x / 2 ^ (bits - 53))))
            (floats.of_nat (bits - 53)))
          floats.ln_two

  unfoldable pub compute_merit : ℕ → ℕ → floats.Double
  unfolding mpz_ln
  compute_merit gap_length gap_start =
      let log_start = mpz_ln gap_start in
      if gap_length == 0
      then floats.zero_double
      else if floats.le log_start floats.zero_double
      then floats.zero_double
      else floats.div (floats.of_nat gap_length) log_start

  abbrev pub Found : Type 0
  Found = Option (GapResult floats.Double) × GapDist × GapScanStats floats.Double

  unfoldable pub with_pair :
      GapScanStats floats.Double → ℕ → floats.Double → GapScanStats floats.Double
  with_pair stats gap_length merit = record {
    euler_pairs = stats.euler_pairs + 1;
    max_gap_length =
        if ltb stats.max_gap_length gap_length then gap_length else stats.max_gap_length;
    max_merit = if floats.lt stats.max_merit merit then merit else stats.max_merit;
  }

  -- What the loop does with a prime behind the previous one.
  unfoldable pub pair_found :
      ℕ → floats.Double → ℕ → ℕ → ℕ → GapDist → GapScanStats floats.Double → Found
  unfolding offset_excluded accumulate mpz_ln with_pair
  pair_found base merit_threshold owned_offset_limit p1 p2 dist stats =
      let gap_length = u32 (p2 - p1) in
      let counted =
        if not (offset_excluded dist p1) && not (offset_excluded dist p2)
        then accumulate dist gap_length
        else dist in
      let log_actual = mpz_ln (base + p1) in
      let merit = floats.div (floats.of_nat gap_length) log_actual in
      let nothing : Found = (none, dist, stats) in
      let only_counted : Found = (none, counted, stats) in
      let gap : Option (GapResult floats.Double) =
        if floats.le merit_threshold merit
        then some (record {
          offset_p1 = p1;
          offset_p2 = p2;
          gap_length = gap_length;
          merit = merit;
          verified = 0;
        })
        else none in
      let measured : Found = (gap, counted, with_pair stats gap_length merit) in
      if not (ltb p1 p2)
      then nothing
      else if not (ltb p1 owned_offset_limit)
      then only_counted
      else if floats.le log_actual floats.zero_double
      then only_counted
      else measured

  abbrev pub Scanned : Type 0
  Scanned = List (GapResult floats.Double) × GapDist × GapScanStats floats.Double

  abbrev pub with_gap : Option (GapResult floats.Double) → Scanned → Scanned
  with_gap none scanned = scanned
  with_gap (some gap) scanned = (gap ∷ scanned.0, scanned.1, scanned.2)

  -- The loop over the candidates, each with its test; the previous prime is absent at first.
  unfoldable pub find_from :
      ℕ
      → floats.Double
      → ℕ
      → List (Bool × ℕ)
      → Option ℕ
      → GapDist
      → GapScanStats floats.Double
      → Scanned
  unfolding pair_found
  find_from base merit_threshold owned_offset_limit [] previous dist stats = ([], dist, stats)
  find_from base merit_threshold owned_offset_limit ((false, offset) ∷ rest) previous dist stats =
      find_from base merit_threshold owned_offset_limit rest previous dist stats
  find_from base merit_threshold owned_offset_limit ((true, offset) ∷ rest) none dist stats =
      find_from base merit_threshold owned_offset_limit rest (some offset) dist stats
  find_from base merit_threshold owned_offset_limit ((true, offset) ∷ rest) (some p1) dist stats =
      let found = pair_found base merit_threshold owned_offset_limit p1 offset dist stats in
      with_gap found.0
        (find_from base merit_threshold owned_offset_limit rest (some offset) found.1 found.2)

  -- `none` is the 0 of a call without candidates.
  unfoldable pub find : ℕ → floats.Double → ℕ → List (Bool × ℕ) → GapDist → Option Scanned
  unfolding find_from
  find base merit_threshold owned_offset_limit [] dist = none
  find base merit_threshold owned_offset_limit (candidate ∷ rest) dist = some (
      find_from base merit_threshold owned_offset_limit (candidate ∷ rest) none dist
        (record { euler_pairs = 0; max_gap_length = 0; max_merit = floats.zero_double }))
