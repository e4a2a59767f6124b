-- ===== src/LimbCache.antt =====
-- The candidates of a window in new_src/worker_gpu.c: the limb cache of a worker, which moves from one
-- candidate to the next by their distance, and the loop over the candidates that are tested with it.
pub mod Tracks
pub mod Scan
mod Tests
use gap_miner_v.Prelude.{
  ℕ, zero, suc, ◌+◌, ◌-◌, ◌*◌, Bool, true, false, ◌&&◌, Option, none, some, List, [], ◌∷◌, ltb, leb,
  ◌==◌, get_or, replicate, take, if◌then◌else◌,
}
use gap_miner_v.Gmp.{Gmp}
use gap_miner_v.Primality.Limbs.{max_limbs}
use gap_miner_v.Primality.Window.{euler_test_nlimbs}
use gap_miner_v.Primality.Adapters.{limbs_effective_nl, limbs_add_u64, limbs_export}
use gap_miner_v.Primality.Big.{euler_quick_probable_prime}

-- `struct worker_limb_cache`
pub record LimbCache : Type 0 where
  pub limbs : List ℕ
  pub nlimbs : ℕ
  pub last_offset : ℕ
  pub valid : Bool

-- `worker_limb_cache_reset`
unfoldable pub cache_reset : LimbCache → LimbCache
cache_reset cache = record { limbs = cache.limbs; nlimbs = 0; last_offset = 0; valid = false }

-- The loop's arrays and counters.
pub record CandidateScan : Type 0 where
  pub is_prime : List Bool
  pub owned_candidate_count : ℕ
  pub euler_pass_count : ℕ

-- The counters of an owned candidate, and the end at the first prime behind the owned window.
unfoldable pub scan_step : Bool → ℕ → ℕ → CandidateScan → CandidateScan
scan_step mark offset owned_window_size rest =
    let passed = if mark then 1 else 0 in
    let owned : CandidateScan = record {
      is_prime = mark ∷ rest.is_prime;
      owned_candidate_count = 1 + rest.owned_candidate_count;
      euler_pass_count = passed + rest.euler_pass_count;
    } in
    let closing : CandidateScan = record {
      is_prime = mark ∷ [];
      owned_candidate_count = 0;
      euler_pass_count = 0;
    } in
    let halo : CandidateScan = record {
      is_prime = mark ∷ rest.is_prime;
      owned_candidate_count = rest.owned_candidate_count;
      euler_pass_count = rest.euler_pass_count;
    } in
    if ltb offset owned_window_size then owned else if mark then closing else halo

-- GMP, the builtins, and the environment: whether the limb path is on, and the window's size.
module _ (gmp : Gmp) (mpz_export : ℕ → List ℕ) (clzll ctz : ℕ → ℕ) (enabled : Bool)
    (win_bits : ℕ) where
  -- The part of `worker_limb_cache_euler` behind the fast path, with the limbs as it left them.
  unfoldable pub cache_refill : List ℕ → ℕ → ℕ → LimbCache × Bool
  unfolding limbs_export euler_test_nlimbs euler_quick_probable_prime
  cache_refill limbs base offset =
      let scratch = base + offset in
      let exported = limbs_export gmp mpz_export scratch max_limbs in
      let failed : LimbCache × Bool = (
        record { limbs = limbs; nlimbs = 0; last_offset = offset; valid = false },
        euler_quick_probable_prime scratch,
      ) in
      let stored : LimbCache × Bool = (
        record { limbs = exported.1; nlimbs = exported.0; last_offset = offset; valid = true },
        euler_test_nlimbs clzll ctz win_bits (take exported.0 exported.1) exported.0,
      ) in
      if exported.0 == 0 then failed else stored

  -- `worker_limb_cache_euler`
  unfoldable pub cache_euler : LimbCache → ℕ → ℕ → LimbCache × Bool
  unfolding cache_refill limbs_add_u64 limbs_effective_nl euler_test_nlimbs
      euler_quick_probable_prime
  cache_euler cache base offset =
      let delta = offset - cache.last_offset in
      let same : List ℕ × Bool = (cache.limbs, true) in
      let added = if delta == 0 then same else limbs_add_u64 cache.limbs delta in
      let nlimbs = limbs_effective_nl added.0 max_limbs in
      let quick : LimbCache × Bool = (cache, euler_quick_probable_prime (base + offset)) in
      let moved : LimbCache × Bool = (
        record { limbs = added.0; nlimbs = nlimbs; last_offset = offset; valid = cache.valid },
        euler_test_nlimbs clzll ctz win_bits (take nlimbs added.0) nlimbs,
      ) in
      let refilled = cache_refill added.0 base offset in
      let fresh = cache_refill cache.limbs base offset in
      if enabled
      then (if cache.valid && leb cache.last_offset offset
          then (if added.1 then moved else refilled)
          else fresh)
      else quick

  -- The loop over the candidates of `worker_process_window`, from candidate `i` on. `gpu_prime` may be
  -- absent.
  unfoldable pub scan_candidates :
      Option (List Bool) → LimbCache → ℕ → ℕ → ℕ → List ℕ → CandidateScan
  unfolding cache_euler scan_step
  scan_candidates gpu_prime cache base owned_window_size i [] = record {
    is_prime = [];
    owned_candidate_count = 0;
    euler_pass_count = 0;
  }
  scan_candidates (some gpu) cache base owned_window_size i (offset ∷ offsets) =
      let mark = get_or gpu i false in
      let rest = scan_candidates (some gpu) cache base owned_window_size (i + 1) offsets in
      scan_step mark offset owned_window_size rest
  scan_candidates none cache base owned_window_size i (offset ∷ offsets) =
      let tested = cache_euler cache base offset in
      let rest = scan_candidates none tested.0 base owned_window_size (i + 1) offsets in
      scan_step tested.1 offset owned_window_size rest
