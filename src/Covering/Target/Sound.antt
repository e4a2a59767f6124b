-- ===== src/Covering/Target/Sound.antt =====
-- `gap_target_build` against the reference, and what a passed `gap_target_check` proves.
use mathlib.Core.Path.{subst}
use native.Mathlib.Decide.{dec_lt}
use native.Mathlib.Nat.{mod-add-mod}
use gap_miner_v.Prelude.{
  ℕ, zero, suc, ◌+◌, ◌-◌, ◌%◌, ◌≤◌, ◌<◌, ◌≡◌, refl, arith, Bool, true, false, ◌||◌, ◌⊎◌, some, none,
  List, [], ◌∷◌, ltb, ◌==◌, length, if◌then◌else◌, Bool-cases, inl, inr,
}
use gap_miner_v.Covering.Target.{Residue, GapTarget, build, none_prime, check}
use gap_miner_v.Covering.Target.Laws.{covered_by, AllFit, uncovered, list_free-cover_all}

-- `gap_target_build` fails exactly without primes or on a gap below 2; otherwise its survivors are
-- the offsets from 1 below the gap that no residue class covers, in order, with their number.
pub build_lem :
    (gap_size : ℕ) (ps : List Residue)
    → AllFit gap_size ps
    → build gap_size ps ≡ (
        if ltb gap_size 2 || (length ps == 0)
        then none
        else some (record {
          survivors = uncovered ps (gap_size - 1) 1;
          n_survivors = length (uncovered ps (gap_size - 1) 1);
          gap_size = gap_size;
        }))
unfolding build
build_lem gap_size ps fit = elim (Bool-cases (ltb gap_size 2)) [
  | inl small ↦ rw small refl
  | inr large ↦
      rw (large, list_free-cover_all ps gap_size (gap_size - 1) 1 fit (ground arith)) (ground arith)
]

build_survivors :
    (gap_size : ℕ) (ps : List Residue) {gt : GapTarget}
    → AllFit gap_size ps
    → build gap_size ps ≡ some gt
    → gt.survivors ≡ uncovered ps (gap_size - 1) 1
build_survivors gap_size ps fit made = ground (arith, build_lem gap_size ps fit)

-- Each prime of the list divides the base minus its residue.
abbrev pub Aligned : ℕ → List Residue → Type 0
Aligned base [] = Unit {0}
Aligned base ((p, r) ∷ rest) = (base % p ≡ r % p) × Aligned base rest

abbrev pub has_divisor : List Residue → ℕ → Bool
has_divisor [] n = false
has_divisor ((p, r) ∷ rest) n = (n % p == 0) || has_divisor rest n

pub covered_by-has_divisor :
    (ps : List Residue) (base j : ℕ) → Aligned base ps → covered_by ps j ≡ has_divisor ps (base + j)
covered_by-has_divisor [] base j al = refl
covered_by-has_divisor ((p, r) ∷ ps) base j al =
    let e : (r + j) % p ≡ (base + j) % p =
      rw (← mod-add-mod r p j, ← al.0) (mod-add-mod base p j) in
    rw (e, covered_by-has_divisor ps base j al.1) refl

module _ (is_prime : ℕ → Bool) where
  uncovered_split :
      (ps : List Residue) (base left i : ℕ)
      → none_prime is_prime base (uncovered ps (suc left) i) ≡ true
      → ((covered_by ps i ≡ true) ⊎ (is_prime (base + i) ≡ false))
        × (none_prime is_prime base (uncovered ps left (i + 1)) ≡ true)
  unfolding none_prime
  uncovered_split ps base left i h = elim (Bool-cases (covered_by ps i)) [
    | inl c ↦ (
      inl c,
      subst
          (λ b.
            none_prime is_prime base
              (if b then uncovered ps left (i + 1) else i ∷ uncovered ps left (i + 1))
            ≡ true)
          c h,
    )
    | inr f ↦ open_offset (
        subst
          (λ b.
            none_prime is_prime base
              (if b then uncovered ps left (i + 1) else i ∷ uncovered ps left (i + 1))
            ≡ true)
          f h)
  ]
    where
      open_offset :
          none_prime is_prime base (i ∷ uncovered ps left (i + 1)) ≡ true
          → ((covered_by ps i ≡ true) ⊎ (is_prime (base + i) ≡ false))
            × (none_prime is_prime base (uncovered ps left (i + 1)) ≡ true)
      open_offset k = ground arith

  none_prime-uncovered :
      (ps : List Residue) (base left i j : ℕ)
      → none_prime is_prime base (uncovered ps left i) ≡ true
      → i ≤ j
      → j < i + left
      → (covered_by ps j ≡ true) ⊎ (is_prime (base + j) ≡ false)
  none_prime-uncovered ps base zero i j h lo hi = absurd (omega arith)
  none_prime-uncovered ps base (suc left) i j h lo hi =
      let (here, rest) = uncovered_split ps base left i h in
      elim (dec_lt i j) [
        | yes far ↦ none_prime-uncovered ps base left (i + 1) j rest (omega arith) (omega arith)
        | no near ↦
            subst (λ k. (covered_by ps k ≡ true) ⊎ (is_prime (base + k) ≡ false)) (omega arith) here
      ]

  -- A base that passes `gap_target_check` for aligned residues is a probable prime, and every offset
  -- up to the gap size gives a number that a prime of the list divides, or that the test rejects.
  pub check_sound :
      (gap_size : ℕ) (ps : List Residue) (base : ℕ) {gt : GapTarget}
      → AllFit gap_size ps
      → Aligned base ps
      → build gap_size ps ≡ some gt
      → check is_prime gt base ≡ true
      → (is_prime base ≡ true)
        × ((j : ℕ)
            → 1 ≤ j
            → j < gap_size
            → (has_divisor ps (base + j) ≡ true) ⊎ (is_prime (base + j) ≡ false))
  unfolding check
  check_sound gap_size ps base {gt} fit al made passed = (
    ground arith,
    λ j lo hi.
        rw (← covered_by-has_divisor ps base j al)
          (none_prime-uncovered ps base (gap_size - 1) 1 j free lo (omega arith)),
  )
    where
      free : none_prime is_prime base (uncovered ps (gap_size - 1) 1) ≡ true
      free =
          subst (λ l. none_prime is_prime base l ≡ true) (build_survivors gap_size ps fit made)
            (ground arith)
