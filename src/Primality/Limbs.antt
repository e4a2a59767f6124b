-- ===== src/Primality/Limbs.antt =====
-- Numbers of several limbs in new_src/primality_limbs.c, little endian lists of 64-bit words:
-- comparison, subtraction and doubling modulo n.
mod Tests
pub mod Value
pub mod Reduce
pub mod Double
pub mod Radix
pub mod Montmul
use gap_miner_v.Prelude.{
  ℕ, zero, suc, ◌+◌, ◌-◌, ◌*◌, ◌/◌, ◌%◌, ◌^◌, Bool, true, false, ◌||◌, not, List, [], ◌∷◌, ltb,
  ◌==◌, u64, get_or, set, replicate, if◌then◌else◌,
}
use gap_miner_v.Primality.Word.{sub64}

abbrev pub max_limbs : ℕ
max_limbs = 20

-- `for (i = nl - 1; i >= 0; i--)`, with the limbs below `i` to go.
unfoldable pub gte_below : ℕ → List ℕ → List ℕ → Bool
gte_below zero a b = true
gte_below (suc i) a b =
    let rest = gte_below i a b in
    if ltb (get_or b i 0) (get_or a i 0)
    then true
    else if ltb (get_or a i 0) (get_or b i 0)
    then false
    else rest

unfoldable pub cpu_gte_n : List ℕ → List ℕ → ℕ → Bool
unfolding gte_below
cpu_gte_n a b nl = gte_below nl a b

-- The loop over the limbs of two numbers of one length, from the lowest on.
unfoldable pub sub_from : List ℕ → List ℕ → ℕ → List ℕ
unfolding sub64
sub_from [] bl borrow = []
sub_from (ai ∷ al) [] borrow = []
sub_from (ai ∷ al) (bi ∷ bl) borrow =
    let d = sub64 ai bi in
    let b1 = if ltb ai bi then 1 else 0 in
    let d2 = sub64 d borrow in
    let b2 = if ltb d borrow then 1 else 0 in d2 ∷ sub_from al bl (b1 + b2)

unfoldable pub cpu_sub_n : List ℕ → List ℕ → List ℕ
unfolding sub_from
cpu_sub_n a b = sub_from a b 0

-- The shift by one bit: the new limbs and the carry. `|` adds, since the lowest bit is 0.
unfoldable pub double_from : List ℕ → ℕ → List ℕ × ℕ
double_from [] carry = ([], carry)
double_from (v ∷ al) carry =
    let rest = double_from al (v / 2 ^ 63) in ((u64 (v * 2) + carry) ∷ rest.0, rest.1)

unfoldable pub cpu_moddbl_n : List ℕ → List ℕ → ℕ → List ℕ
unfolding double_from cpu_gte_n cpu_sub_n
cpu_moddbl_n a n nl =
    let (doubled, carry) = double_from a 0 in
    if not (carry == 0) || cpu_gte_n doubled n nl then cpu_sub_n doubled n else doubled

-- `for (i = 0; i < remaining; i++) cpu_moddbl_n(r, n, nl)`
unfoldable pub double_times : ℕ → List ℕ → List ℕ → ℕ → List ℕ
double_times zero r n nl = r
double_times (suc remaining) r n nl = double_times remaining (cpu_moddbl_n r n nl) n nl

-- `__builtin_clzll` is an argument.
unfoldable pub cpu_rmodn_n : (ℕ → ℕ) → List ℕ → ℕ → List ℕ
unfolding double_times
cpu_rmodn_n clzll n nl =
    let top_limb = nl - 1 in
    let top_bit_in_limb = 63 - clzll (get_or n top_limb 0) in
    let topbit = top_limb * 64 + top_bit_in_limb in
    double_times (64 * nl - topbit) (set (replicate nl 0) top_limb (2 ^ top_bit_in_limb)) n nl
