-- ===== src/Primality/Window.antt =====
-- The tests of numbers of several limbs in new_src/primality_limbs.c: powers of 2 in Montgomery form with
-- a sliding window over the exponent's bits. The product of the dispatch macro is the portable one.
pub mod Bits
pub mod Reads
pub mod Domain
pub mod Loop
pub mod Exponent
pub mod Power
pub mod Compare
pub mod Accept
pub mod Prime
pub mod Precomp
mod Tests
use gap_miner_v.Prelude.{
  ℕ, zero, suc, ◌+◌, ◌-◌, ◌*◌, ◌/◌, ◌%◌, ◌^◌, Bool, true, false, ◌||◌, List, [], ◌∷◌, ltb, leb,
  ◌==◌, u32, u64, get_or, set, replicate, if◌then◌else◌,
}
use Prim.Native.Nat.{bit_or, bit_and}
use gap_miner_v.Primality.Word.{sub64, mont_ninv}
use gap_miner_v.Primality.Exact.{fermat_u64_exact, euler_u64}
use gap_miner_v.Primality.Limbs.{max_limbs, cpu_sub_n, cpu_moddbl_n, cpu_rmodn_n}
use gap_miner_v.Primality.Limbs.Montmul.{cpu_montmul_n}

unfoldable pub get_bits4 : List ℕ → ℕ → ℕ
get_bits4 e bit =
    let limb = bit / 64 in
    let off = bit % 64 in
    let w = bit_and (u32 (get_or e limb 0 / 2 ^ off)) 0x0f in
    let high = bit_and (u32 (u64 (get_or e (limb + 1) 0 * 2 ^ (64 - off)))) 0x0f in
    if ltb 60 off then (if ltb (limb + 1) max_limbs then bit_or w high else w) else w

-- `for (k = 0; k < win_bits; k++)`, with `count` rounds to go.
unfoldable pub bits_from : List ℕ → ℕ → ℕ → ℕ → ℕ → ℕ → ℕ
bits_from e bit_lo nlimbs zero k w = w
bits_from e bit_lo nlimbs (suc count) k w =
    let b = bit_lo + k in
    let limb = b / 64 in
    let bit = get_or e limb 0 / 2 ^ (b % 64) % 2 in
    let rest = bits_from e bit_lo nlimbs count (k + 1) (bit_or w (u32 (bit * 2 ^ k))) in
    if leb nlimbs limb then w else rest

unfoldable pub get_bits_w : List ℕ → ℕ → ℕ → ℕ → ℕ
unfolding bits_from
get_bits_w e bit_lo win_bits nlimbs = bits_from e bit_lo nlimbs win_bits 0 0

-- `while (top > 0 && a[top] == 0) top--`
unfoldable pub find_top : ℕ → List ℕ → ℕ
find_top zero a = zero
find_top (suc top) a =
    let rest = find_top top a in if get_or a (suc top) 0 == 0 then rest else suc top

unfoldable pub find_msb_n : (ℕ → ℕ) → List ℕ → ℕ → ℕ
unfolding find_top
find_msb_n clzll a nlimbs =
    let top = find_top (nlimbs - 1) a in top * 64 + 63 - clzll (get_or a top 0)

-- `k` squarings.
unfoldable pub sqr_times : (List ℕ → List ℕ → List ℕ) → ℕ → List ℕ → List ℕ
sqr_times mul zero res = res
sqr_times mul (suc k) res = sqr_times mul k (mul res res)

unfoldable pub one_bit : (List ℕ → List ℕ → List ℕ) → List ℕ → List ℕ → ℕ → List ℕ → List ℕ
one_bit mul base_m e bit res =
    let squared = mul res res in
    if get_or e (bit / 64) 0 / 2 ^ (bit % 64) % 2 == 1 then mul squared base_m else squared

-- The branches on the window's bits `w`.
unfoldable pub one_window :
    (List ℕ → List ℕ → List ℕ) → (ℕ → ℕ) → List (List ℕ) → ℕ → ℕ → List ℕ → List ℕ
unfolding sqr_times
one_window mul ctz win win_bits w res =
    let z = ctz w in
    let odd = mul (sqr_times mul (win_bits - z) res) (get_or win (w / 2 ^ z / 2) []) in
    if w == 0 then sqr_times mul win_bits res else sqr_times mul z odd

-- `while (bit >= 0)`, with fuel, for `left` = `bit + 1`.
unfoldable pub window_loop :
    (List ℕ → List ℕ → List ℕ)
    → (ℕ → ℕ)
    → ℕ
    → (ℕ → ℕ)
    → List ℕ
    → List ℕ
    → List (List ℕ)
    → ℕ
    → ℕ
    → List ℕ
    → List ℕ
unfolding one_bit one_window
window_loop mul ctz win_bits bits_at e base_m win zero left res = res
window_loop mul ctz win_bits bits_at e base_m win (suc fuel) left res =
    let bit = left - 1 in
    let single = ltb bit (win_bits - 1) in
    let rest =
      window_loop mul ctz win_bits bits_at e base_m win fuel
        (if single then left - 1 else left - win_bits)
        (if single
          then one_bit mul base_m e bit res
          else one_window mul ctz win win_bits (bits_at (bit - (win_bits - 1))) res) in
    if left == 0 then res else rest

-- `win[0] = last` and `win[i] = win[i - 1] * base2_m`, for `count` entries.
unfoldable pub odd_powers : (List ℕ → List ℕ → List ℕ) → List ℕ → ℕ → List ℕ → List (List ℕ)
odd_powers mul base2_m zero last = []
odd_powers mul base2_m (suc count) last = last ∷ odd_powers mul base2_m count (mul last base2_m)

-- `e[0] -= 1`
unfoldable pub minus_one : List ℕ → List ℕ
unfolding sub64
minus_one n = set n 0 (sub64 (get_or n 0 0) 1)

-- `e[i] = (e[i] >> 1) | (e[i + 1] << 63)` below the top limb, `e[nl - 1] >>= 1`.
unfoldable pub halve_limbs : List ℕ → List ℕ
halve_limbs [] = []
halve_limbs (x ∷ []) = x / 2 ∷ []
halve_limbs (x ∷ y ∷ e) = bit_or (x / 2) (u64 (y * 2 ^ 63)) ∷ halve_limbs (y ∷ e)

unfoldable pub all_zero : List ℕ → Bool
all_zero [] = true
all_zero (x ∷ l) = let rest = all_zero l in if x == 0 then rest else false

-- `res[0] == 1` and the other limbs are 0.
unfoldable pub is_one : List ℕ → Bool
unfolding all_zero
is_one [] = false
is_one (x ∷ l) = if x == 1 then all_zero l else false

unfoldable pub same_limbs : List ℕ → List ℕ → Bool
same_limbs [] b = true
same_limbs (x ∷ a) [] = false
same_limbs (x ∷ a) (y ∷ b) = let rest = same_limbs a b in if x == y then rest else false

-- 1 in `nl` limbs.
unfoldable pub one_limbs : ℕ → List ℕ
one_limbs nl = set (replicate nl 0) 0 1

-- The power of 2 with the exponent `e` modulo `n`: the common part of the tests, up to the product with 1
-- that leaves the Montgomery form.
unfoldable pub pow2_window : (ℕ → ℕ) → (ℕ → ℕ) → ℕ → (ℕ → ℕ) → List ℕ → List ℕ → ℕ → List ℕ
unfolding window_loop odd_powers find_msb_n one_limbs
pow2_window clzll ctz win_bits bits_at e n nl =
    let ninv = mont_ninv (get_or n 0 0) in
    let mul : List ℕ → List ℕ → List ℕ = λ a b. cpu_montmul_n a b n ninv nl in
    let base_m = cpu_moddbl_n (cpu_rmodn_n clzll n nl) n nl in
    let win = odd_powers mul (mul base_m base_m) (2 ^ (win_bits - 1)) base_m in
    let msb = find_msb_n clzll e nl in
    mul (window_loop mul ctz win_bits bits_at e base_m win msb msb base_m) (one_limbs nl)

unfoldable pub euler_accepts : List ℕ → List ℕ → Bool
unfolding is_one same_limbs
euler_accepts res nm1 = if is_one res then true else same_limbs res nm1

-- `fermat_test_cpu_nlimbs_##NL`
unfoldable pub fermat_test_exact : (ℕ → ℕ) → (ℕ → ℕ) → List ℕ → ℕ → Bool
unfolding get_bits4 minus_one pow2_window is_one
fermat_test_exact clzll ctz n nl =
    let e = minus_one n in
    if get_or n 0 0 % 2 == 0
    then false
    else if nl == 1
    then fermat_u64_exact (get_or n 0 0)
    else is_one (pow2_window clzll ctz 4 (get_bits4 e) e n nl)

-- `euler_test_cpu_nlimbs_##NL`
unfoldable pub euler_test_exact : (ℕ → ℕ) → (ℕ → ℕ) → List ℕ → ℕ → Bool
unfolding get_bits4 minus_one halve_limbs pow2_window euler_accepts cpu_sub_n one_limbs
euler_test_exact clzll ctz n nl =
    let e = halve_limbs (minus_one n) in
    if get_or n 0 0 % 2 == 0
    then false
    else if nl == 1
    then euler_u64 (get_or n 0 0)
    else euler_accepts (pow2_window clzll ctz 4 (get_bits4 e) e n nl) (cpu_sub_n n (one_limbs nl))

unfoldable pub window_size : ℕ → ℕ
window_size win_bits = if ltb win_bits 3 || ltb 5 win_bits then 4 else win_bits

unfoldable pub fermat_test_dynwin : (ℕ → ℕ) → (ℕ → ℕ) → List ℕ → ℕ → ℕ → Bool
unfolding get_bits_w minus_one pow2_window is_one window_size
fermat_test_dynwin clzll ctz n nl win_bits =
    let e = minus_one n in
    let size = window_size win_bits in
    if (nl == 0) || ltb max_limbs nl
    then false
    else if nl == 1
    then fermat_u64_exact (get_or n 0 0)
    else if get_or n 0 0 % 2 == 0
    then false
    else is_one (pow2_window clzll ctz size (λ bit. get_bits_w e bit size nl) e n nl)

unfoldable pub euler_test_dynwin : (ℕ → ℕ) → (ℕ → ℕ) → List ℕ → ℕ → ℕ → Bool
unfolding get_bits_w minus_one halve_limbs pow2_window euler_accepts window_size cpu_sub_n one_limbs
euler_test_dynwin clzll ctz n nl win_bits =
    let e = halve_limbs (minus_one n) in
    let size = window_size win_bits in
    if (nl == 0) || ltb max_limbs nl
    then false
    else if nl == 1
    then euler_u64 (get_or n 0 0)
    else if get_or n 0 0 % 2 == 0
    then false
    else euler_accepts (pow2_window clzll ctz size (λ bit. get_bits_w e bit size nl) e n nl)
        (cpu_sub_n n (one_limbs nl))

-- `win_bits` is what `cpu_window_bits_for_nlimbs` reads from the environment.
unfoldable pub fermat_test_nlimbs : (ℕ → ℕ) → (ℕ → ℕ) → ℕ → List ℕ → ℕ → Bool
unfolding fermat_test_exact fermat_test_dynwin
fermat_test_nlimbs clzll ctz win_bits n nl =
    if (nl == 0) || ltb max_limbs nl
    then false
    else if nl == 1
    then fermat_u64_exact (get_or n 0 0)
    else if win_bits == 4
    then fermat_test_exact clzll ctz n nl
    else fermat_test_dynwin clzll ctz n nl win_bits

unfoldable pub euler_test_nlimbs : (ℕ → ℕ) → (ℕ → ℕ) → ℕ → List ℕ → ℕ → Bool
unfolding euler_test_exact euler_test_dynwin
euler_test_nlimbs clzll ctz win_bits n nl =
    if (nl == 0) || ltb max_limbs nl
    then false
    else if nl == 1
    then euler_u64 (get_or n 0 0)
    else if win_bits == 4
    then euler_test_exact clzll ctz n nl
    else euler_test_dynwin clzll ctz n nl win_bits
