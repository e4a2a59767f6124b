-- ===== src/HalfClass.antt =====
-- new_src/halfclass.c: the scan of half or a quarter of the residue classes modulo 60, and the
-- resolution of a gap of visible primes in the hidden classes. The bits of a map are a list of
-- Bools. `mpz_probab_prime_p` is an argument.
pub mod Table
pub mod Classes
pub mod Emit
pub mod Chain
pub mod Hidden
pub mod Resolve
mod Tests
use gap_miner_v.Prelude.{
  ℕ, zero, suc, ◌+◌, ◌-◌, ◌*◌, ◌/◌, ◌%◌, ◌^◌, Bool, true, false, not, ◌&&◌, ◌||◌, Option, none,
  some, List, [], ◌∷◌, ◌++◌, map, ltb, leb, ◌==◌, u32, u64, take, replicate, get_or, set,
  if◌then◌else◌,
}
use gap_miner_v.Marks.{mark_from}

-- `1 << v` for each of the classes; they are different, so that `|=` adds.
unfoldable pub class_mask60 : List ℕ → ℕ
class_mask60 [] = 0
class_mask60 (v ∷ vals) = 2 ^ v + class_mask60 vals

unfoldable pub visible_mask : Bool → ℕ
unfolding class_mask60
visible_mask quarter =
    if quarter
    then class_mask60 (1 ∷ 7 ∷ 11 ∷ 13 ∷ [])
    else class_mask60 (1 ∷ 7 ∷ 11 ∷ 13 ∷ 17 ∷ 19 ∷ 23 ∷ 29 ∷ [])

unfoldable pub hidden_mask : Bool → ℕ
unfolding class_mask60
hidden_mask quarter =
    if quarter
    then class_mask60 (17 ∷ 19 ∷ 23 ∷ 29 ∷ 31 ∷ 37 ∷ 41 ∷ 43 ∷ 47 ∷ 49 ∷ 53 ∷ 59 ∷ [])
    else class_mask60 (31 ∷ 37 ∷ 41 ∷ 43 ∷ 47 ∷ 49 ∷ 53 ∷ 59 ∷ [])

-- `(mask >> v) & 1`
unfoldable pub in_mask : ℕ → ℕ → Bool
in_mask mask v = mask / 2 ^ v % 2 == 1

-- The loop over the bytes of the hash.
unfoldable pub hash_mod60 : List ℕ → ℕ → ℕ
hash_mod60 [] r = r
hash_mod60 (byte ∷ h256) r = hash_mod60 h256 (u32 (u64 (u64 (r * 256) + byte) % 60))

-- `while (e)`, with fuel: 32 rounds shift every bit out.
unfoldable pub power_mod60 : ℕ → ℕ → ℕ → ℕ → ℕ
power_mod60 zero e p2 b = p2
power_mod60 (suc fuel) e p2 b =
    let rest =
      power_mod60 fuel (e / 2) (if e % 2 == 1 then u32 (u64 (p2 * b) % 60) else p2)
        (u32 (u64 (b * b) % 60)) in
    if e == 0 then p2 else rest

unfoldable pub base_mod60 : List ℕ → ℕ → ℕ → ℕ
unfolding hash_mod60 power_mod60
base_mod60 h256 shift window_start =
    u32 (u64 (u64 (hash_mod60 h256 0 * power_mod60 32 shift 1 2) + window_start % 60) % 60)

unfoldable pub class_of : ℕ → ℕ → ℕ
class_of base offset = u32 (u64 (base + offset % 60) % 60)

unfoldable pub offset_visible : Bool → ℕ → ℕ → Bool
unfolding visible_mask in_mask class_of
offset_visible quarter base offset = in_mask (visible_mask quarter) (class_of base offset)

unfoldable pub filter_offsets_region : Bool → ℕ → List ℕ → ℕ → List ℕ
unfolding visible_mask in_mask class_of
filter_offsets_region quarter base [] region_start = []
filter_offsets_region quarter base (offset ∷ offsets) region_start =
    let rest = filter_offsets_region quarter base offsets region_start in
    if ltb offset region_start
    then offset ∷ rest
    else if in_mask (visible_mask quarter) (class_of base offset)
    then offset ∷ rest
    else rest

unfoldable pub filter_offsets : Bool → ℕ → List ℕ → List ℕ
unfolding filter_offsets_region
filter_offsets quarter base offsets = filter_offsets_region quarter base offsets 0

-- The absolute offset of a template's start, at or above 0, or below it.
pub data TemplateStart : Type 0 where
  from : ℕ → TemplateStart
  before : ℕ → TemplateStart

-- `struct halfclass_tpl`
pub record HalfclassTpl : Type 0 where
  pub bits : List Bool
  pub words : ℕ
  pub base_off : TemplateStart
  pub window : ℕ

-- `off_abs - base_off`, with 0 for what is negative: both are refused.
abbrev pub template_offset : TemplateStart → ℕ → ℕ
template_offset (from base_off) off_abs = off_abs - base_off
template_offset (before base_off) off_abs = off_abs + base_off

-- `none` is the null pointer.
unfoldable pub tpl_composite : Option HalfclassTpl → ℕ → Bool
tpl_composite none off_abs = false
tpl_composite (some tpl) off_abs =
    let t = template_offset tpl.base_off off_abs in
    let slot = (t - 1) / 2 in
    if (t == 0) || leb tpl.window t
    then false
    else if t % 2 == 0
    then true
    else if leb (tpl.words * 8) (slot / 8)
    then false
    else get_or tpl.bits slot false

-- The marks of the multiples of the primes behind `bsub`.
unfoldable pub mark_multiples : List ℕ → ℕ → ℕ → List Bool → List Bool
mark_multiples [] bsub interval bits = bits
mark_multiples (p ∷ primes) bsub interval bits =
    let first = if bsub % p == 0 then 0 else p - bsub % p in
    mark_multiples primes bsub interval
      (if leb interval first then bits else mark_from interval p first interval bits)

-- `for (; off < interval; off++)`, with `left` offsets to go.
unfoldable pub collect_from : Bool → ℕ → ℕ → Option HalfclassTpl → List Bool → ℕ → ℕ → List ℕ
unfolding hidden_mask in_mask class_of tpl_composite
collect_from quarter sub_mod60 abs_delta tpl bits zero off = []
collect_from quarter sub_mod60 abs_delta tpl bits (suc left) off =
    let rest = collect_from quarter sub_mod60 abs_delta tpl bits left (off + 1) in
    if not (in_mask (hidden_mask quarter) (class_of sub_mod60 off))
    then rest
    else if get_or bits off false
    then rest
    else if tpl_composite tpl (abs_delta + off)
    then rest
    else off ∷ rest

-- An interval above 2 ^ 22 has no bits, so that nothing is marked.
unfoldable pub collect_hidden_candidates :
    Bool → List ℕ → ℕ → ℕ → ℕ → ℕ → Option HalfclassTpl → ℕ → List ℕ
unfolding mark_multiples collect_from
collect_hidden_candidates quarter primes bsub interval sub_mod60 abs_delta tpl sieve_cap =
    let bits =
      if leb interval (2 ^ 22)
      then mark_multiples (take sieve_cap primes) bsub interval (replicate interval false)
      else [] in
    if interval == 0 then [] else collect_from quarter sub_mod60 abs_delta tpl bits interval 0

-- The candidates that pass the test.
unfoldable pub passing : (ℕ → Bool) → ℕ → List ℕ → List ℕ
passing test bsub [] = []
passing test bsub (off ∷ offsets) =
    let rest = passing test bsub offsets in if test (bsub + off) then off ∷ rest else rest

unfoldable pub collect_hidden :
    (ℕ → ℕ → Bool) → Bool → List ℕ → ℕ → ℕ → ℕ → ℕ → Option HalfclassTpl → ℕ → ℕ → List ℕ
unfolding passing
collect_hidden probab_prime quarter primes bsub interval sub_mod60 abs_delta tpl mr_reps sieve_cap =
    passing (probab_prime mr_reps) bsub
      (collect_hidden_candidates quarter primes bsub interval sub_mod60 abs_delta tpl sieve_cap)
