-- ===== src/CrtSet.antt =====
-- new_src/crt_set.c: the primes of a primorial, and the offset whose window keeps the fewest
-- candidates. The bitmap's bits are a list of Bools; the file format and the floating point average
-- are left out. GMP's random numbers are an argument.
pub mod Best
mod Tests
use gap_miner_v.Prelude.{
  ℕ, zero, suc, ◌+◌, ◌-◌, ◌*◌, ◌%◌, ◌^◌, Bool, true, false, ◌||◌, Option, none, some, List, [], ◌∷◌,
  ltb, leb, ◌==◌, uint64_max, length, take, replicate, get_or, if◌then◌else◌,
}
use gap_miner_v.Marks.{mark_from, count_free, list_free}

abbrev pub crt_prime_limit : ℕ
crt_prime_limit = 10000

-- `for (f = 2; f * f < CRT_PRIME_LIMIT; f++)`, with `left` rounds to go.
unfoldable pub mark_composites : ℕ → ℕ → List Bool → List Bool
mark_composites zero f composite = composite
mark_composites (suc left) f composite = mark_composites left (f + 1) (
    if get_or composite f false
    then composite
    else mark_from crt_prime_limit f (f * f) crt_prime_limit composite)

-- The cache of primes: 98 rounds, since 100 * 100 is the limit, and at most 2048 primes.
unfoldable pub generate_primes : List ℕ
unfolding mark_composites
generate_primes =
    take 2048
      (list_free (crt_prime_limit - 2) 2 (mark_composites 98 2 (replicate crt_prime_limit false)))

-- How many primes have a product below the limit, the primes multiplied so far being `product`.
unfoldable pub primes_below : List ℕ → ℕ → ℕ → ℕ
primes_below [] product limit = 0
primes_below (p ∷ primes) product limit =
    let more = suc (primes_below primes (product * p) limit) in
    if leb limit (product * p) then 0 else more

unfoldable pub primes_for_shift : List ℕ → ℕ → ℕ
unfolding primes_below
primes_for_shift cache shift = primes_below cache 1 (2 ^ shift)

-- `struct crt_set`, less what is computed for the display.
pub record CrtSet : Type 0 where
  pub shift : ℕ
  pub size : ℕ
  pub primes : List ℕ
  pub primorial : ℕ
  pub offset : ℕ
  pub bitmap : List Bool
  pub n_candidates : ℕ

unfoldable pub product_of : List ℕ → ℕ
product_of [] = 1
product_of (p ∷ primes) = p * product_of primes

-- The marks of one prime after the other.
unfoldable pub sieve : List ℕ → ℕ → ℕ → List Bool → List Bool
sieve [] offset size bitmap = bitmap
sieve (p ∷ primes) offset size bitmap =
    sieve primes offset size (mark_from size p ((p - offset % p) % p) size bitmap)

unfoldable pub resieve : CrtSet → CrtSet
unfolding sieve
resieve cs =
    let bitmap = sieve cs.primes cs.offset cs.size (replicate cs.size false) in
    record {
      shift = cs.shift;
      size = cs.size;
      primes = cs.primes;
      primorial = cs.primorial;
      offset = cs.offset;
      bitmap = bitmap;
      n_candidates = count_free cs.size 0 bitmap 0;
    }

unfoldable pub set_offset : CrtSet → ℕ → CrtSet
set_offset cs offset = record {
  shift = cs.shift;
  size = cs.size;
  primes = cs.primes;
  primorial = cs.primorial;
  offset = offset;
  bitmap = cs.bitmap;
  n_candidates = cs.n_candidates;
}

-- `none` is the 0 that `crt_set_init` returns.
unfoldable pub init : List ℕ → ℕ → ℕ → ℕ → Option CrtSet
unfolding product_of resieve
init cache shift size n_primes =
    if ltb shift 14 || (ltb size 2 || (n_primes == 0))
    then none
    else if ltb (length cache) n_primes
    then none
    else some (
        resieve (record {
          shift = shift;
          size = size;
          primes = take n_primes cache;
          primorial = product_of (take n_primes cache);
          offset = 0;
          bitmap = replicate size false;
          n_candidates = 0;
        }))

-- The loop over the trials: the offsets that `mpz_urandomm` draws, and the best one so far.
unfoldable pub search_from : CrtSet → List ℕ → ℕ → ℕ → ℕ
unfolding resieve set_offset
search_from cs [] best_survivors best = best
search_from cs (candidate ∷ drawn) best_survivors best =
    let s = (resieve (set_offset cs candidate)).n_candidates in
    if ltb s best_survivors
    then search_from cs drawn s candidate
    else search_from cs drawn best_survivors best

-- `none` is the -1 of a search without trials; the number of trials is the length of the list.
unfoldable pub search_offset : CrtSet → List ℕ → Option CrtSet
unfolding search_from
search_offset cs [] = none
search_offset cs (candidate ∷ drawn) =
    some (resieve (set_offset cs (search_from cs (candidate ∷ drawn) uint64_max cs.offset)))
