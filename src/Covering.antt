-- ===== src/Covering.antt =====
-- new_src/covering.c and new_src/gap_target.c: residue classes that cover the offsets of a gap.
-- The arrays `primes` and `residues` of one length are a list of pairs. The allocator is assumed to
-- give memory, and the `NULL` guards of pointer arguments have no counterpart.
pub mod Target
pub mod Cover
pub mod Sweep
pub mod Polish
mod Tests
