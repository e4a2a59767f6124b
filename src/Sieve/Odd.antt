-- ===== src/Sieve/Odd.antt =====
-- The odd-only run of new_src/sieve_core.c lists the offsets of the odd numbers without a small factor.
use mathlib.Core.Bool.{true≢false}
use gap_miner_v.Prelude.{
  ℕ, drop, zero, suc, ◌+◌, ◌-◌, ◌*◌, ◌/◌, ◌%◌, ◌^◌, ◌≤◌, ◌<◌, ◌≡◌, ◌∙◌, ◌⊎◌, refl, sym, ap, arith,
  Bool, true, false, not, ◌&&◌, ◌||◌, List, [], ◌∷◌, ltb, leb, ◌==◌, u32, u64, uint64_max, get_or,
  length, replicate, length-replicate, lt→ltb, if◌then◌else◌, Bool-cases, inl, inr,
}
use gap_miner_v.Prelude.Mod.{mod-difference, difference-mod}
use native.Mathlib.Nat.{mod-eq_of_lt}
use gap_miner_v.Marks.{mark_from, hits}
use gap_miner_v.Marks.Loops.{get_or-mark_from, length-mark_from}
use gap_miner_v.Sieve.{
  SievePrime, SieveCore, odd_slot, residue_of, mark_odd_slots, counted, free_slots,
  extract_odd_candidates, candidates, first_residue, run_odd_only,
}
use gap_miner_v.Sieve.FastMod.{odd_slot_lem}

-- A prime is not used for odd slots, or is odd with its reciprocal; its residue is that of the base.
abbrev pub IsReady : Bool → ℕ → ℕ → SievePrime → Type 0
IsReady use_cache given base entry =
    ((entry.prime < 3)
      ⊎ ((entry.prime % 2 ≡ 1)
          × (3 ≤ entry.prime)
          × (entry.prime ≤ 2 ^ 32)
          × (entry.inv_p ≡ uint64_max / entry.prime)))
    × (residue_of use_cache given entry ≡ base % entry.prime)

abbrev pub AllReady : Bool → ℕ → ℕ → List SievePrime → Type 0
AllReady use_cache given base [] = Unit {0}
AllReady use_cache given base (entry ∷ primes) =
    IsReady use_cache given base entry × AllReady use_cache given base primes

-- A prime from 3 up to the limit divides `v`.
abbrev pub has_factor : ℕ → List SievePrime → ℕ → Bool
has_factor limit [] v = false
has_factor limit (entry ∷ primes) v =
    (not (ltb entry.prime 3 || ltb limit entry.prime) && (v % entry.prime == 0))
    || has_factor limit primes v

-- The offsets `first + 2 * slot`, for `left` slots, behind `base` that have no factor.
abbrev pub without_factor : ℕ → List SievePrime → ℕ → ℕ → ℕ → ℕ → List ℕ
without_factor limit primes base first zero slot = []
without_factor limit primes base first (suc left) slot =
    let rest = without_factor limit primes base first left (slot + 1) in
    if has_factor limit primes (base + first + 2 * slot) then rest else (first + 2 * slot) ∷ rest

hits-residue : (p j n i : ℕ) → 0 < p → j < p → hits p j n i ≡ (ltb i n && (i % p == j))
hits-residue p j n i pos h = ground (arith, forth, back)
  where
    forth : j ≤ i → (i - j) % p ≡ 0 → i % p ≡ j
    forth l e = mod-difference i j p l e ∙ mod-eq_of_lt h

    back : j ≤ i → i % p ≡ j → (i - j) % p ≡ 0
    back l e = difference-mod i j p l (e ∙ sym (mod-eq_of_lt h))

merge : (s f r b : Bool) → ((s && r) || ((s && f) || b)) ≡ ((s && (f || r)) || b)
merge s f r b = ground arith

unused : (p limit : ℕ) → p < 3 → (ltb p 3 || ltb limit p) ≡ false → ⊥
unused p limit h e =
    let k : (ltb p 3 || ltb limit p) ≡ true = ground arith in true≢false (sym k ∙ e)

module _ (use_cache : Bool) (given base base_offset first n limit : ℕ) (word : base_offset < 2 ^ 64)
    (bit : first ≤ 1) (fits : n ≤ 2 ^ 62) where
  value : ℕ → ℕ
  value i = base + base_offset + first + 2 * i

  one_prime :
      (p : ℕ) (bitmap : List Bool) (i : ℕ)
      → p % 2 ≡ 1
      → 3 ≤ p
      → p ≤ 2 ^ 32
      → n ≤ length bitmap
      → get_or
          (mark_from n p (odd_slot (base % p) base_offset first p (uint64_max / p)) n bitmap)
          i
          false
        ≡ ((ltb i n && (value i % p == 0)) || get_or bitmap i false)
  unfolding value
  one_prime p bitmap i odd large small len =
      let slots = odd_slot_lem p odd large small base base_offset first word bit in
      let s = odd_slot (base % p) base_offset first p (uint64_max / p) in
      get_or-mark_from n p s n bitmap i (omega arith) (omega arith) len (omega arith)
      ∙ rw (hits-residue p s n i (omega arith) slots.0, slots.1 i) refl

  -- The marks are those of the slots with a factor.
  get_or-mark_odd_slots :
      (primes : List SievePrime) (bitmap : List Bool) (i : ℕ)
      → AllReady use_cache given base primes
      → n ≤ length bitmap
      → get_or (mark_odd_slots use_cache given base_offset first n limit primes bitmap) i false
        ≡ ((ltb i n && has_factor limit primes (value i)) || get_or bitmap i false)
  unfolding mark_odd_slots value
  get_or-mark_odd_slots [] bitmap i ready len = ground arith
  get_or-mark_odd_slots (entry ∷ primes) bitmap i ready len =
      elim (Bool-cases (ltb entry.prime 3 || ltb limit entry.prime)) [
        | inl skipped ↦ rw skipped (get_or-mark_odd_slots primes bitmap i ready.1 len)
        | inr used ↦ elim ready.0.0 [
          | inl little ↦ absurd (unused entry.prime limit little used)
          | inr good ↦
              let marked =
                mark_from n entry.prime
                  (odd_slot (base % entry.prime) base_offset first entry.prime
                    (uint64_max / entry.prime))
                  n bitmap in
              rw (used, ready.0.1, good.3)
                (get_or-mark_odd_slots primes marked i ready.1 (
                    omega (
                      arith,
                      length-mark_from n entry.prime
                          (odd_slot (base % entry.prime) base_offset first entry.prime
                            (uint64_max / entry.prime))
                          n bitmap,
                    ))
                  ∙ rw (one_prime entry.prime bitmap i good.0 good.1 good.2 len) (
                      merge (ltb i n) (value i % entry.prime == 0)
                        (has_factor limit primes (value i)) (get_or bitmap i false)))
        ]
      ]

  free_slots-without_factor :
      (primes : List SievePrime) (bitmap : List Bool) (left slot : ℕ)
      → slot + left ≡ n
      → ((i : ℕ) → i < n → get_or bitmap i false ≡ has_factor limit primes (value i))
      → free_slots left slot first bitmap
        ≡ without_factor limit primes (base + base_offset) first left slot
  unfolding free_slots value
  free_slots-without_factor primes bitmap zero slot e marks = refl
  free_slots-without_factor primes bitmap (suc left) slot e marks =
      let room : u64 (first + 2 * slot) ≡ first + 2 * slot = omega arith in
      rw
        (
          marks slot (omega arith),
          room,
          free_slots-without_factor primes bitmap left (slot + 1) (omega arith) marks,
        )
        refl

pub or-false : (b : Bool) → (b || false) ≡ b
or-false b = ground arith

pub get_or-replicate : (n i : ℕ) → get_or (replicate n false) i false ≡ false
get_or-replicate zero i = refl
get_or-replicate (suc n) zero = refl
get_or-replicate (suc n) (suc i) = get_or-replicate n i

length-free_slots :
    (left slot first : ℕ) (bitmap : List Bool) → length (free_slots left slot first bitmap) ≤ left
unfolding free_slots
length-free_slots zero slot first bitmap = omega arith
length-free_slots (suc left) slot first bitmap =
    ground (arith, length-free_slots left (slot + 1) first bitmap)

-- Up to 2 ^ 32 - 1 slots the count does not wrap.
extract_odd_candidates-free_slots :
    (odd_count first : ℕ) (bitmap : List Bool)
    → odd_count < 2 ^ 32
    → extract_odd_candidates odd_count first bitmap ≡ free_slots odd_count 0 first bitmap
unfolding extract_odd_candidates counted
extract_odd_candidates-free_slots odd_count first bitmap few =
    let written = free_slots odd_count 0 first bitmap in
    let none : length written - u32 (length written) ≡ 0 =
      omega (arith, length-free_slots odd_count 0 first bitmap) in
    ap (λ (t : ℕ). drop t written) none

-- The offset of the first odd number from an even or odd base on.
abbrev pub first_odd_offset : ℕ → ℕ
first_odd_offset parity = if parity == 0 then 1 else 0

abbrev pub parity_of : Bool → List SievePrime → ℕ
parity_of use_cache primes = if use_cache then first_residue primes % 2 else 0

-- For a window below 2 ^ 33 - 1 offsets, the run lists the offsets, in steps of two from the first odd one on, without a factor.
pub run_odd_only_lem :
    (sc : SieveCore) (base given base_offset : ℕ) (use_cache : Bool)
    → (use_cache && not sc.base_mod_p_valid) ≡ false
    → AllReady use_cache given base sc.small_primes
    → base_offset < 2 ^ 64
    → 2 ≤ sc.interval_size
    → sc.interval_size + 2 ≤ 2 ^ 33
    → let first = first_odd_offset (parity_of use_cache sc.small_primes) in
      run_odd_only sc given base_offset use_cache
      ≡ candidates (
          without_factor sc.prime_limit sc.small_primes
            (base + base_offset)
            first
            ((sc.interval_size - first + 1) / 2)
            0)
unfolding run_odd_only value
run_odd_only_lem sc base given base_offset use_cache valid ready word large small =
    rw (valid, longer, word_count)
      (ap candidates (
        extract_odd_candidates-free_slots n first bitmap few
        ∙ free_slots-without_factor use_cache given base base_offset first n sc.prime_limit word bit
            fits sc.small_primes bitmap n 0 (omega arith) marks))
  where
    first : ℕ
    first = first_odd_offset (parity_of use_cache sc.small_primes)

    n : ℕ
    n = (sc.interval_size - first + 1) / 2

    bit : first ≤ 1
    bit = ground arith

    fits : n ≤ 2 ^ 62
    fits = omega arith

    few : n < 2 ^ 32
    few = ground arith

    longer : leb sc.interval_size first ≡ false
    longer = ground (arith, bit)

    word_count : u64 (sc.interval_size - first + 1) ≡ sc.interval_size - first + 1
    word_count = omega arith

    bitmap : List Bool
    bitmap =
        mark_odd_slots use_cache given base_offset first n sc.prime_limit sc.small_primes
          (replicate n false)

    marks :
        (i : ℕ)
        → i < n
        → get_or bitmap i false
          ≡ has_factor sc.prime_limit sc.small_primes (base + base_offset + first + 2 * i)
    marks i below =
        get_or-mark_odd_slots use_cache given base base_offset first n sc.prime_limit word bit fits
          sc.small_primes (replicate n false) i ready (omega (arith, length-replicate n false))
        ∙ rw (get_or-replicate n i, lt→ltb i n below)
            (or-false
              (has_factor sc.prime_limit sc.small_primes (base + base_offset + first + 2 * i)))
