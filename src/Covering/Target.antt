-- ===== src/Covering/Target.antt =====
-- new_src/gap_target.c: the uncovered offsets of a gap, and the test of a base against them.
pub mod Laws
pub mod Sound
use gap_miner_v.Prelude.{
  ℕ, zero, suc, ◌+◌, ◌-◌, ◌*◌, ◌/◌, ◌%◌, Bool, true, false, Option, none, some, List, [], ◌∷◌, ltb,
  ◌==◌, u64, length, replicate, if◌then◌else◌,
}
use gap_miner_v.Marks.{mark_from, count_free, list_free}

-- A prime with its residue.
abbrev pub Residue : Type 0
Residue = ℕ × ℕ

pub record GapTarget : Type 0 where
  pub survivors : List ℕ
  pub n_survivors : ℕ
  pub gap_size : ℕ

-- The loop of `gap_target_build` over the primes: `j` is covered iff `(r + j) % p == 0`.
unfoldable pub cover_all : List Residue → ℕ → List Bool → List Bool
cover_all [] gap_size composite = composite
cover_all ((p, residue) ∷ rest) gap_size composite =
    let r = residue % p in
    cover_all rest gap_size (mark_from gap_size p ((p - r) % p) gap_size composite)

-- `none` is the 0 that `gap_target_build` returns.
unfoldable pub build : ℕ → List Residue → Option GapTarget
build gap_size primes =
    if ltb gap_size 2
    then none
    else if length primes == 0
    then none
    else (let composite = cover_all primes gap_size (replicate gap_size false) in
        let survivors = list_free (gap_size - 1) 1 composite in
        some
          (record { survivors = survivors; n_survivors = length survivors; gap_size = gap_size }))

module _ (is_prime : ℕ → Bool) where
  -- The loop of `gap_target_check`: any survivor that is prime makes the base invalid.
  unfoldable pub none_prime : ℕ → List ℕ → Bool
  none_prime base [] = true
  none_prime base (s ∷ survivors) =
      let rest = none_prime base survivors in if is_prime (base + s) then false else rest

  unfoldable pub check : GapTarget → ℕ → Bool
  unfolding none_prime
  check gt base = if is_prime base then none_prime base gt.survivors else false

module _ (inverse : ℕ → ℕ → ℕ) where
  -- The loop of `crt_solve`; `inverse a p` is what `mpz_invert` leaves for `a` modulo `p`.
  unfoldable pub crt_terms : List Residue → ℕ → ℕ → ℕ
  crt_terms [] primorial x = x
  crt_terms ((p, r) ∷ rest) primorial x =
      let mi = primorial / p in
      crt_terms rest primorial ((x + mi * r * inverse (mi % p) p) % primorial)

  -- `none` is the -1 of `crt_solve`.
  unfoldable pub crt_solve : List Residue → ℕ → Option ℕ
  unfolding crt_terms
  crt_solve primes primorial =
      if length primes == 0 then none else some (crt_terms primes primorial 0)
