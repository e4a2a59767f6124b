-- ===== src/Sieve/Window.antt =====
-- A window of new_src/sieve_core.c from its table of primes to its candidates.
use gap_miner_v.Prelude.{
  ℕ, suc, ◌+◌, ◌-◌, ◌/◌, ◌%◌, ◌^◌, ◌≤◌, ◌<◌, ◌≡◌, ◌∙◌, refl, ap, arith, Bool, true, false, ◌||◌,
  some, List, ◌∷◌, map, length, ltb, u64, uint32_max,
}
use gap_miner_v.Sieve.{
  SievePrime, SieveCore, new_entry, init, init_window, prepare_base_mod_p, first_residue,
  candidates, run_from_cached_base, run_odd_only, with_residues, run_impl,
}
use gap_miner_v.Sieve.Odd.{AllReady, first_odd_offset, parity_of, run_odd_only_lem}
use gap_miner_v.Sieve.Table.{primes_from, primes_up_to_lem}
use gap_miner_v.Sieve.Rough.{
  rough_offsets, ready_entry, count_primes-map, prepare_from-map, primes_from-AllReady, table,
  rough-start,
}

abbrev core_of : ℕ → ℕ → List SievePrime → Bool → SieveCore
core_of size limit primes valid = record {
  interval_size = size;
  bitmap_words = u64 (size + 63) / 64;
  candidate_capacity = size;
  small_primes = primes;
  prime_limit = limit;
  base_mod_p_valid = valid;
}

primes_from-head :
    (limit : ℕ) → 2 ≤ limit → primes_from (limit - 1) 2 ≡ 2 ∷ primes_from (limit - 2) 3
primes_from-head limit two = let e : limit - 1 ≡ suc (limit - 2) = omega arith in rw e refl

init-some :
    (size limit p : ℕ) (primes : List ℕ)
    → init size (p ∷ primes) limit ≡ some (core_of size limit (map new_entry (p ∷ primes)) false)
unfolding init
init-some size limit p primes = refl

init_window-some :
    (size limit : ℕ)
    → 2 ≤ size
    → 2 ≤ limit
    → limit < 2 ^ 32
    → init_window size limit
      ≡ some (core_of size limit (map new_entry (primes_from (limit - 1) 2)) false)
unfolding init_window
init_window-some size limit large two small =
    let guard : (ltb size 2 || (ltb limit 2 || ltb uint32_max limit)) ≡ false = ground arith in
    rw (guard, primes_up_to_lem limit two small, primes_from-head limit two)
      (init-some size limit 2 (primes_from (limit - 2) 3))

prepare-core :
    (size limit base : ℕ) (primes : List ℕ)
    → prepare_base_mod_p (core_of size limit (map new_entry primes) false) base
      ≡ core_of size limit (map (ready_entry base) primes) true
unfolding prepare_base_mod_p with_residues
prepare-core size limit base primes =
    rw (count_primes-map primes, prepare_from-map base (length primes) 0 primes (omega arith)) refl

run-core :
    (size limit : ℕ) (primes : List SievePrime) (base_offset : ℕ)
    → run_from_cached_base (core_of size limit primes true) base_offset
      ≡ run_odd_only (core_of size limit primes true) 0 base_offset true
unfolding run_from_cached_base run_impl
run-core size limit primes base_offset = refl

-- Of a window that `sieve_core_init_window` sets up, prepared for a base, a run at an even offset of 64
-- bits lists the offsets of the odd numbers that no number from 2 up to the limit divides. The window
-- has from 2 to 2 ^ 33 - 2 offsets, up to which the count of candidates fits into its 32 bits, and the limit
-- is from 2 to UINT32_MAX.
pub window_candidates :
    (size limit base base_offset : ℕ)
    → 2 ≤ size
    → size + 2 ≤ 2 ^ 33
    → 2 ≤ limit
    → limit ≤ uint32_max
    → base_offset < 2 ^ 64
    → base_offset % 2 ≡ 0
    → (sc : SieveCore) × (init_window size limit ≡ some sc)
      × (run_from_cached_base (prepare_base_mod_p sc base) base_offset
          ≡ candidates (rough_offsets limit (base + base_offset) size 0))
window_candidates size limit base base_offset large small two bound word even = (
  core_of size limit (map new_entry (primes_from (limit - 1) 2)) false,
  init_window-some size limit large two (omega arith),
  rw
      (
        prepare-core size limit base (primes_from (limit - 1) 2),
        run-core size limit (map (ready_entry base) (primes_from (limit - 1) 2)) base_offset,
      )
      listed,
)
  where
    ready : AllReady true 0 base (map (ready_entry base) (primes_from (limit - 1) 2))
    ready = primes_from-AllReady base (limit - 1) 2 (omega arith) (omega arith)

    head : first_residue (map (ready_entry base) (primes_from (limit - 1) 2)) ≡ base % 2
    head = rw (primes_from-head limit two) refl

    first : ℕ
    first = first_odd_offset (parity_of true (map (ready_entry base) (primes_from (limit - 1) 2)))

    aligned : (base + base_offset + first) % 2 ≡ 1
    aligned = rw head (ground arith)

    listed :
        run_odd_only
          (core_of size limit (map (ready_entry base) (primes_from (limit - 1) 2)) true)
          0
          base_offset
          true
        ≡ candidates (rough_offsets limit (base + base_offset) size 0)
    listed =
        run_odd_only_lem (core_of size limit (table limit base two) true) base 0 base_offset true
          refl ready word large small
        ∙ ap candidates (
            rough-start limit base two (base + base_offset) size first (omega arith) (ground arith)
              aligned)
