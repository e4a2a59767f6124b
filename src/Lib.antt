-- ===== src/Lib.antt =====
-- gap_miner_v: a verification library for GapMiner V2, the Gapcoin prime-gap miner.
--
-- Gapcoin asks for a prime that starts a large gap: the node hashes a block header to a 256-bit
-- number, shifts it to make room for an adder, and accepts a start whose gap to the next prime has
-- enough merit. The miner takes a block template from a node, hashes headers over nonces, sieves and
-- tests numbers behind each hash, and submits the block. Each module models functions of the C
-- sources under new_src/ as functions on numbers, lists and records.
--
-- Parts and files:
--   PowQ48*       new_src/pow_q48.c, pow_q48.h: the integer logarithm (q48_mpz_log2), merit, target
--                 size, difficulty, verdicts, and the certificate that a span cannot qualify
--                 (pow_q48_span_may_qualify), which the miner asks before it tests a candidate.
--   Covering*     new_src/gap_target.c and new_src/covering.c: residue classes that cover the offsets
--                 of a gap. Covering/Target is gap_target_build and gap_target_check, Covering/Cover
--                 the marking, counting and scores, Covering/Sweep the greedy pass and local_sweep,
--                 Covering/Polish the refinement run_polish.
--   GapcoinWork*  new_src/gapcoin_work.c: Encode the byte and hex formats, Coinbase the coinbase
--                 transaction and the merkle root, Work the hashed header and the search of nonces,
--                 Submission the block that is submitted.
--   CrtSet*       new_src/crt_set.c: the primes of a primorial, the sieve of an offset's window
--                 (crt_set_resieve) and the search of the offset with the fewest candidates.
--   CrtRuntime*   new_src/crt_runtime.c: the alignment of a base to a covering (align_base, with its
--                 congruences in CrtRuntime/Align) and the template of the odd offsets that are left
--                 (its marks in CrtRuntime/Template, its survivors in CrtRuntime/Survivors). The
--                 primes of a runtime are not 0: the source divides by them.
--   Sieve*        new_src/sieve_core.c: the table of primes, the reciprocals and residues, and the
--                 runs over a window. Sieve/FastMod the remainders and first slots, Sieve/Odd the
--                 odd-only run, Sieve/Table the table, Sieve/Rough and Sieve/Window the whole.
--   GapDetection* new_src/gap_detection.c and gap_dist.c: the scan of tested candidates for gaps, its
--                 merits and the histogram. GapDetection/Model is an instance of the arithmetic.
--   HalfClass*    new_src/halfclass.c: the classes modulo 60 (HalfClass/Classes), the chains that are
--                 reported (HalfClass/Chain), the hidden primes of an interval (HalfClass/Hidden) and
--                 the resolution of a gap (HalfClass/Resolve).
--   Primality*    new_src/primality_limbs.c: the probable prime tests. Primality/Word the tests of a
--                 64-bit number with Montgomery products, Primality/Exact those with 128-bit
--                 products, Primality/Limbs the numbers of several limbs and their Montgomery
--                 product (Limbs/Montmul), Primality/Window the Fermat and Euler tests on them,
--                 with a window over the exponent's bits, and Primality/Adapters the export of GMP
--                 numbers and the increments. Primality/Big has the tests of primality_euler.c and
--                 primality_fermat.c and the strong test of primality_bpsw.c, Primality/Builtins an
--                 instance of the compiler's builtins.
--   LimbCache*    new_src/worker_gpu.c: the limb cache of a worker (worker_limb_cache_euler) and the
--                 loop of worker_process_window over a window's candidates.
--   Primes*       Euclid's lemma, trial division, the binomial theorem and Fermat's little theorem.
--   AtomicNonce*  new_src/atomic_nonce.c: the lock-free allocator of header nonces for the workers.
--                 AtomicNonce/Claims has what they claim, AtomicNonce/Progress a worker alone.
--   Marks*        the loop over an array of marks that the sieves share.
--   Gmp*          what the program takes from GMP beyond integer arithmetic, with a model.
--   Prelude*      tests, lists, casts, arithmetic and bits that the parts share.
--
-- How the parts meet: GapcoinWork.Work writes the header that PowQ48.Bytes reads the difficulty
-- from; AtomicNonce gives out the nonces that hash_nonce tries; the candidates of Sieve, with
-- their tests, are what GapDetection scans, and HalfClass calls its merit and reports the same
-- records; LimbCache tests the candidates with the Euler tests of Primality.Window, by their
-- distances, or with those of Primality.Big; Covering.Target tests the bases of CRT searches with a primality test that is a
-- parameter.
--
-- Conventions: a number is a native natural number, and a cast to uintN_t is a remainder by 2 ^
-- N. Subtraction stops at 0; where the source subtracts unsigned numbers, its guards keep it
-- above, or the wrap is written out. An mpz_t is the number that it stands for: all numbers of
-- the modelled code are at least 0. A function that returns 0 or -1 for a failure returns none.
-- The allocator is assumed to give memory, and the NULL guards of pointer arguments have no
-- counterpart. SHA-256, GMP's primality test and its export of words, the compiler's counts of zero bits,
-- modular inverses, random numbers and the arithmetic of double are arguments of the functions that call them.
--
-- Fuel: the loops of q48_mpz_log2 run on the number of bits that are left; the merkle loop runs
-- on the number of hashes, the nonce search on the number of nonces that are left, and the loops
-- over arrays on the number of their rounds; encode_height and a 64-bit nAdd have at most 4 and
-- 8 bytes; the loops that shift a word to the right run 32 or 64 times, the window loop once for
-- each bit of the exponent, and the split of n - 1 in miller_rabin_base2 n times at most.
--
-- Not modelled: threads, devices, sockets, files, JSON and logging (main.c, gap_hunt.c,
-- the rest of worker_gpu.c, gpu/, miner_farm.c, stratum.c, gapcoin_rpc.c), floating point merits and
-- densities, the annealing and evolution of coverings (covering_optimize,
-- covering_optimize_evolution), the files of CRT sets, the assembly of primality_limbs.c and its
-- separate square for other processors, the Lucas test of primality_bpsw.c, the vector path of
-- sieve_core.c, and the sieves of the remaining sources.
pub mod Prelude
pub mod Gmp
pub mod Primes
pub mod PowQ48
pub mod Marks
pub mod Covering
pub mod GapcoinWork
pub mod AtomicNonce
pub mod CrtSet
pub mod CrtRuntime
pub mod Sieve
pub mod GapDetection
pub mod HalfClass
pub mod Primality
pub mod LimbCache
