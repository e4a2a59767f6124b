-- ===== src/CrtRuntime.antt =====
-- new_src/crt_runtime.c: the alignment of a base to a covering, and the template of its odd offsets.
-- The template's bits are a list of Bools, one for each slot; the file's reading and the allocator
-- are left out. `mpz_invert` is an argument. No prime is 0: the source divides by them.
pub mod Align
pub mod Template
pub mod Survivors
mod Tests
use gap_miner_v.Prelude.{
  ℕ, zero, suc, ◌+◌, ◌-◌, ◌*◌, ◌/◌, ◌%◌, ◌^◌, Bool, true, false, Option, none, some, List, [], ◌∷◌,
  ltb, ◌==◌, u64, replicate, get_or, set, if◌then◌else◌,
}
use gap_miner_v.Covering.Target.{Residue}

-- `struct crt_runtime`, less the fields that only a display reads; a prime with its offset.
pub record CrtRuntime : Type 0 where
  pub primes : List Residue
  pub window : ℕ
  pub adj : ℕ
  pub template : List Bool
  pub n_survivors : ℕ

-- `for (; t < window; t += 2 * p) mark_slot(bits, (t - 1) / 2)`, with fuel.
unfoldable pub mark_odd : ℕ → ℕ → ℕ → ℕ → List Bool → List Bool
mark_odd zero p t window bits = bits
mark_odd (suc fuel) p t window bits =
    let rest = mark_odd fuel p (u64 (t + 2 * p)) window (set bits ((t - 1) / 2) true) in
    if ltb t window then rest else bits

-- The first odd offset above 0 in the class of `o + adj`.
unfoldable pub first_odd : ℕ → ℕ → ℕ → ℕ
first_odd p o adj =
    let r = u64 (o + adj) % p in
    let t = if r == 0 then p else r in if t % 2 == 0 then u64 (t + p) else t

unfoldable pub mark_template : List Residue → ℕ → ℕ → List Bool → List Bool
unfolding mark_odd first_odd
mark_template [] adj window bits = bits
mark_template ((p, o) ∷ primes) adj window bits =
    mark_template primes adj window
      (if p == 2 then bits else mark_odd window p (first_odd p o adj) window bits)

-- The slots that are left, from slot `s` on.
unfoldable pub count_slots : ℕ → ℕ → List Bool → ℕ
count_slots zero s bits = 0
count_slots (suc left) s bits =
    let rest = count_slots left (s + 1) bits in if get_or bits s false then rest else suc rest

unfoldable pub list_slots : ℕ → ℕ → List Bool → List ℕ
list_slots zero s bits = []
list_slots (suc left) s bits =
    let rest = list_slots left (s + 1) bits in
    if get_or bits s false then rest else u64 (2 * s + 1) ∷ rest

unfoldable pub survivors : CrtRuntime → List ℕ
unfolding list_slots
survivors rt = list_slots (rt.window / 2) 0 rt.template

module _ (inverse : ℕ → ℕ → ℕ) where
  -- The loop of `align_base`: the solution so far, and the product `m` of the primes so far.
  unfoldable pub align_from : List Residue → ℕ → ℕ → ℕ → ℕ
  align_from [] base0 nadd0 m = nadd0
  align_from ((p, o) ∷ primes) base0 nadd0 m =
      let sum = u64 (base0 % p + o) % p in
      let target_r = if sum == 0 then 0 else p - sum in
      let diff = u64 (target_r + p - nadd0 % p) % p in
      let k = u64 (diff * inverse (m % p) p) % p in
      let skipped = align_from primes base0 nadd0 m in
      let solved = align_from primes base0 (nadd0 + k * m) (m * p) in
      if o == 0 then skipped else solved

  unfoldable pub align_base : CrtRuntime → ℕ → ℕ
  unfolding align_from
  align_base rt base0 = align_from rt.primes base0 0 1

  -- The big endian bytes of a hash as a number.
  unfoldable pub hash_value : List ℕ → ℕ → ℕ
  hash_value [] value = value
  hash_value (b ∷ h256) value = hash_value h256 (value * 2 ^ 8 + b)

  unfoldable pub align : List ℕ → ℕ → CrtRuntime → ℕ
  unfolding hash_value align_base
  align h256 shift rt = align_base rt (hash_value h256 0 * 2 ^ shift)

  -- `none` is the 0 that `crt_runtime_build_template` returns.
  unfoldable pub build_template : CrtRuntime → Option CrtRuntime
  unfolding align_base mark_template count_slots
  build_template rt =
      let adj = align_base rt 0 % 2 in
      let bits = mark_template rt.primes adj rt.window (replicate (rt.window / 2) false) in
      if ltb rt.window 2
      then none
      else some (record {
        primes = rt.primes;
        window = rt.window;
        adj = adj;
        template = bits;
        n_survivors = count_slots (rt.window / 2) 0 bits;
      })

  unfoldable pub set_window : CrtRuntime → ℕ → Option CrtRuntime
  unfolding build_template
  set_window rt window =
      if ltb window 2
      then none
      else build_template (record {
        primes = rt.primes;
        window = window;
        adj = rt.adj;
        template = rt.template;
        n_survivors = rt.n_survivors;
      })
