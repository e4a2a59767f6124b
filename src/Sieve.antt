-- ===== src/Sieve.antt =====
-- new_src/sieve_core.c: the sieve of a window of offsets behind a base. The bitmap's bits are a list
-- of Bools, one for each offset or odd offset, and the arrays of primes, reciprocals and residues,
-- which have one length, are one list. The path without AVX2 is modelled.
pub mod FastMod
pub mod Odd
pub mod Table
pub mod Rough
pub mod Window
mod Tests
use gap_miner_v.Prelude.{
  ℕ, zero, suc, ◌+◌, ◌-◌, ◌*◌, ◌/◌, ◌%◌, ◌^◌, Bool, true, false, not, ◌&&◌, ◌||◌, Option, none,
  some, List, [], ◌∷◌, map, ltb, leb, ◌==◌, u32, u64, uint32_max, uint64_max, length, take, drop,
  replicate, get_or, if◌then◌else◌,
}
use gap_miner_v.Marks.{mark_from, list_free}

-- What the arrays `small_primes`, `inv_p` and `base_mod_p` hold at one index.
pub record SievePrime : Type 0 where
  pub prime : ℕ
  pub inv_p : ℕ
  pub base_mod_p : ℕ

-- `struct sieve_core`, less the buffers that every run writes anew.
pub record SieveCore : Type 0 where
  pub interval_size : ℕ
  pub bitmap_words : ℕ
  pub candidate_capacity : ℕ
  pub small_primes : List SievePrime
  pub prime_limit : ℕ
  pub base_mod_p_valid : Bool

-- `x` modulo `p`, with `inv_p` the reciprocal of `p`; the subtraction wraps.
unfoldable pub sieve_fast_mod : ℕ → ℕ → ℕ → ℕ
sieve_fast_mod x p inv_p =
    let q = u64 (x * inv_p / 2 ^ 64) in
    let r = u64 (x + 2 ^ 64 - u64 (q * p)) in if leb p r then r - p else r

-- The first odd slot that `p` divides.
unfoldable pub odd_slot : ℕ → ℕ → ℕ → ℕ → ℕ → ℕ
unfolding sieve_fast_mod
odd_slot base_mod base_offset first_odd_offset p inv_p =
    let sum = u64 (base_mod + sieve_fast_mod base_offset p inv_p) in
    let reduced = if leb p sum then sum - p else sum in
    let shifted = u64 (reduced + first_odd_offset % p) in
    let remainder = if leb p shifted then shifted - p else shifted in
    let inverse_two = u64 (p + 1) / 2 in
    let t = if remainder == 0 then 0 else p - remainder in
    sieve_fast_mod (u64 (t * inverse_two)) p inv_p

-- `use_cache ? sc->base_mod_p[i] : mpz_fdiv_ui(base, p)`
unfoldable pub residue_of : Bool → ℕ → SievePrime → ℕ
residue_of use_cache base entry = if use_cache then entry.base_mod_p else base % entry.prime

-- The marks of one prime after the other on the odd slots.
unfoldable pub mark_odd_slots : Bool → ℕ → ℕ → ℕ → ℕ → ℕ → List SievePrime → List Bool → List Bool
unfolding odd_slot residue_of
mark_odd_slots use_cache base base_offset first odd_count limit [] bitmap = bitmap
mark_odd_slots use_cache base base_offset first odd_count limit (entry ∷ primes) bitmap =
    mark_odd_slots use_cache base base_offset first odd_count limit primes (
      if ltb entry.prime 3 || ltb limit entry.prime
      then bitmap
      else mark_from odd_count entry.prime
          (odd_slot (residue_of use_cache base entry) base_offset first entry.prime entry.inv_p)
          odd_count bitmap)

-- What the array holds up to its count of 32 bits. When the count wraps, the writing starts anew at the
-- array's start, so that the last candidates are left.
unfoldable pub counted : List ℕ → List ℕ
counted written = drop (length written - u32 (length written)) written

-- The offsets of the slots that are left, from `slot` on, in the order in which they are written.
unfoldable pub free_slots : ℕ → ℕ → ℕ → List Bool → List ℕ
free_slots zero slot first_odd_offset bitmap = []
free_slots (suc left) slot first_odd_offset bitmap =
    let rest = free_slots left (slot + 1) first_odd_offset bitmap in
    if get_or bitmap slot false then rest else u64 (first_odd_offset + 2 * slot) ∷ rest

unfoldable pub extract_odd_candidates : ℕ → ℕ → List Bool → List ℕ
unfolding counted free_slots
extract_odd_candidates odd_count first_odd_offset bitmap =
    counted (free_slots odd_count 0 first_odd_offset bitmap)

-- `none` is the 0 of a run without candidates.
abbrev pub candidates : List ℕ → Option (List ℕ)
candidates [] = none
candidates (x ∷ xs) = some (x ∷ xs)

abbrev pub first_residue : List SievePrime → ℕ
first_residue [] = 0
first_residue (entry ∷ primes) = entry.base_mod_p

unfoldable pub run_odd_only : SieveCore → ℕ → ℕ → Bool → Option (List ℕ)
unfolding mark_odd_slots extract_odd_candidates
run_odd_only sc base base_offset use_cache =
    let base_parity = if use_cache then first_residue sc.small_primes % 2 else 0 in
    let first = if base_parity == 0 then 1 else 0 in
    let odd_count = u64 (sc.interval_size - first + 1) / 2 in
    let bitmap =
      mark_odd_slots use_cache base base_offset first odd_count sc.prime_limit sc.small_primes
        (replicate odd_count false) in
    if use_cache && not sc.base_mod_p_valid
    then none
    else if leb sc.interval_size first
    then none
    else candidates (extract_odd_candidates odd_count first bitmap)

-- The marks on all offsets, up to the first prime above the limit.
unfoldable pub mark_offsets : Bool → ℕ → ℕ → ℕ → ℕ → List SievePrime → List Bool → List Bool
unfolding sieve_fast_mod
mark_offsets use_cache base base_offset size limit [] bitmap = bitmap
mark_offsets use_cache base base_offset size limit (entry ∷ primes) bitmap =
    let p = entry.prime in
    let sum = u64 (entry.base_mod_p + sieve_fast_mod base_offset p entry.inv_p) in
    let reduced = if leb p sum then sum - p else sum in
    let remainder = if use_cache then reduced else base % p in
    let start = if remainder == 0 then 0 else p - remainder in
    let rest =
      mark_offsets use_cache base base_offset size limit primes
        (mark_from size p start size bitmap) in
    if leb p limit then rest else bitmap

unfoldable pub run_impl : SieveCore → ℕ → ℕ → Bool → Option (List ℕ)
unfolding run_odd_only mark_offsets counted
run_impl sc base base_offset use_cache =
    let starts_with_two : Bool = elim sc.small_primes [
      | [] ↦ false
      | entry ∷ primes ↦ entry.prime == 2
    ] in
    let bitmap =
      mark_offsets use_cache base base_offset sc.interval_size sc.prime_limit sc.small_primes
        (replicate sc.interval_size false) in
    if use_cache && not sc.base_mod_p_valid
    then none
    else if use_cache || leb 3 base
    then (if not use_cache && not starts_with_two
        then none
        else run_odd_only sc base base_offset use_cache)
    else if ltb sc.candidate_capacity sc.interval_size
    then none
    else candidates (counted (list_free sc.interval_size 0 bitmap))

unfoldable pub run : SieveCore → ℕ → Option (List ℕ)
unfolding run_impl
run sc base = run_impl sc base 0 false

unfoldable pub run_from_cached_base : SieveCore → ℕ → Option (List ℕ)
unfolding run_impl
run_from_cached_base sc base_offset = run_impl sc 0 base_offset true

-- The marks of the large primes come in `premarked`, of `premarked_words` words; the first
-- `split_index` primes are marked here.
unfoldable pub run_from_cached_base_hybrid : SieveCore → ℕ → List Bool → ℕ → ℕ → Option (List ℕ)
unfolding mark_odd_slots extract_odd_candidates
run_from_cached_base_hybrid sc base_offset premarked premarked_words split_index =
    let first = if first_residue sc.small_primes % 2 == 0 then 1 else 0 in
    let odd_count = u64 (sc.interval_size - first + 1) / 2 in
    let words = u64 (odd_count + 63) / 64 in
    let bitmap =
      mark_odd_slots true 0 base_offset first odd_count sc.prime_limit
        (take split_index sc.small_primes) (take odd_count premarked) in
    if not sc.base_mod_p_valid
    then none
    else if leb sc.interval_size first
    then none
    else if (words == 0) || (ltb premarked_words words || ltb sc.bitmap_words words)
    then none
    else if ltb sc.candidate_capacity sc.interval_size
    then none
    else candidates (extract_odd_candidates odd_count first bitmap)

-- The residues of a base for the primes from index `start` up to `end`, the first entry having
-- index `i`.
unfoldable pub prepare_from : ℕ → ℕ → ℕ → ℕ → List SievePrime → List SievePrime
prepare_from base start end i [] = []
prepare_from base start end i (entry ∷ primes) =
    (if leb start i && ltb i end
      then record { prime = entry.prime; inv_p = entry.inv_p; base_mod_p = base % entry.prime }
      else entry)
    ∷ prepare_from base start end (i + 1) primes

abbrev pub count_primes : List SievePrime → ℕ
count_primes [] = 0
count_primes (entry ∷ primes) = suc (count_primes primes)

unfoldable pub with_residues : SieveCore → ℕ → ℕ → ℕ → SieveCore
unfolding prepare_from
with_residues sc base start end = record {
  interval_size = sc.interval_size;
  bitmap_words = sc.bitmap_words;
  candidate_capacity = sc.candidate_capacity;
  small_primes = prepare_from base start end 0 sc.small_primes;
  prime_limit = sc.prime_limit;
  base_mod_p_valid = true;
}

unfoldable pub prepare_base_mod_p : SieveCore → ℕ → SieveCore
unfolding with_residues
prepare_base_mod_p sc base = with_residues sc base 0 (count_primes sc.small_primes)

unfoldable pub prepare_base_mod_p_range : SieveCore → ℕ → ℕ → ℕ → Option SieveCore
unfolding with_residues
prepare_base_mod_p_range sc base start end =
    if leb end start || ltb (count_primes sc.small_primes) end
    then none
    else some (with_residues sc base start end)

-- The entry of a prime before any base is known.
unfoldable pub new_entry : ℕ → SievePrime
new_entry p = record { prime = p; inv_p = if leb 3 p then uint64_max / p else 0; base_mod_p = 0 }

unfoldable pub init : ℕ → List ℕ → ℕ → Option SieveCore
unfolding new_entry
init interval_size [] prime_limit = none
init interval_size (p ∷ primes) prime_limit = some (record {
  interval_size = interval_size;
  bitmap_words = u64 (interval_size + 63) / 64;
  candidate_capacity = interval_size;
  small_primes = map new_entry (p ∷ primes);
  prime_limit = prime_limit;
  base_mod_p_valid = false;
})

-- `for (factor = 2; factor <= prime_limit / factor; factor++)`, with fuel.
unfoldable pub mark_factors : ℕ → ℕ → ℕ → List Bool → List Bool
mark_factors zero factor prime_limit composite = composite
mark_factors (suc fuel) factor prime_limit composite =
    let marked =
      if get_or composite factor false
      then composite
      else mark_from (prime_limit + 1) factor (factor * factor) (prime_limit + 1) composite in
    let rest = mark_factors fuel (factor + 1) prime_limit marked in
    if leb factor (prime_limit / factor) then rest else composite

unfoldable pub primes_up_to : ℕ → List ℕ
unfolding mark_factors
primes_up_to prime_limit =
    list_free (prime_limit - 1) 2
      (mark_factors prime_limit 2 prime_limit (replicate (prime_limit + 1) false))

unfoldable pub init_window : ℕ → ℕ → Option SieveCore
unfolding primes_up_to init
init_window interval_size prime_limit =
    if ltb interval_size 2 || (ltb prime_limit 2 || ltb uint32_max prime_limit)
    then none
    else init interval_size (primes_up_to prime_limit) prime_limit
