-- ===== src/Primality/Word.antt =====
-- The tests of a 64-bit number in new_src/primality_limbs.c: Montgomery products on one word, the
-- strong test, and the two tests that it serves.
pub mod Montgomery
pub mod Strong
pub mod Powers
pub mod Rabin
use gap_miner_v.Prelude.{
  ℕ, zero, suc, ◌+◌, ◌-◌, ◌*◌, ◌/◌, ◌%◌, ◌^◌, Bool, true, false, ◌||◌, List, [], ◌∷◌, ltb, leb,
  ◌==◌, u64, if◌then◌else◌,
}

-- `a - b` on `uint64_t`.
unfoldable pub sub64 : ℕ → ℕ → ℕ
sub64 a b = u64 (a + 2 ^ 64 - u64 b)

-- `x *= 2 - n * x`
unfoldable pub newton : ℕ → ℕ → ℕ
newton n x = u64 (x * sub64 2 (n * x))

unfoldable pub mont_ninv : ℕ → ℕ
unfolding newton sub64
mont_ninv n = sub64 0 (newton n (newton n (newton n (newton n (newton n (newton n 1))))))

unfoldable pub mont_mul : ℕ → ℕ → ℕ → ℕ → ℕ
unfolding sub64
mont_mul a b n np =
    let ab = a * b in
    let ab_lo = u64 ab in
    let ab_hi = u64 (ab / 2 ^ 64) in
    let m = u64 (ab_lo * np) in
    let mn = m * n in
    let mn_lo = u64 mn in
    let mn_hi = u64 (mn / 2 ^ 64) in
    let carry = if ltb (u64 (ab_lo + mn_lo)) ab_lo then 1 else 0 in
    let u = u64 (ab_hi + mn_hi + carry) in if leb n u then u - n else u

unfoldable pub mont_r2 : ℕ → ℕ
unfolding sub64
mont_r2 n = let r = sub64 0 n % n in (r * r) % n

-- `while (e)` of `strong_mrt`, with fuel: 64 rounds shift every bit out.
unfoldable pub power_loop : ℕ → ℕ → ℕ → ℕ → ℕ → ℕ → ℕ
power_loop zero n np e x b = x
power_loop (suc fuel) n np e x b =
    let rest =
      power_loop fuel n np (e / 2) (if e % 2 == 1 then mont_mul x b n np else x)
        (mont_mul b b n np) in
    if e == 0 then x else rest

-- `for (r = 1; r < s; r++)`, with `rounds` to go.
unfoldable pub square_loop : ℕ → ℕ → ℕ → ℕ → ℕ → Bool
square_loop zero n np nm1_m x = false
square_loop (suc rounds) n np nm1_m x =
    let squared = mont_mul x x n np in
    let rest = square_loop rounds n np nm1_m squared in if squared == nm1_m then true else rest

unfoldable pub strong_mrt : ℕ → ℕ → ℕ → ℕ → ℕ → ℕ → Bool
unfolding power_loop square_loop
strong_mrt n a np r2 d s =
    let one_m = mont_mul 1 r2 n np in
    let nm1_m = mont_mul (n - 1) r2 n np in
    let b = mont_mul (a % n) r2 n np in
    let x = power_loop 64 n np d one_m b in
    if (x == one_m) || (x == nm1_m) then true else square_loop (s - 1) n np nm1_m x

-- `while (!(d & 1)) { d >>= 1; s++; }`, with fuel.
unfoldable pub split_even : ℕ → ℕ → ℕ → ℕ × ℕ
split_even zero d s = (d, s)
split_even (suc fuel) d s =
    let rest = split_even fuel (d / 2) (s + 1) in
    let done : ℕ × ℕ = (d, s) in if d % 2 == 1 then done else rest

abbrev pub small_primes : List ℕ
small_primes = 5 ∷ 7 ∷ 11 ∷ 13 ∷ 17 ∷ 19 ∷ 23 ∷ 29 ∷ 31 ∷ 37 ∷ []

abbrev pub bases : List ℕ
bases = 2 ∷ 325 ∷ 9375 ∷ 28178 ∷ 450775 ∷ 9780504 ∷ 1795265022 ∷ []

-- The loop over the bases.
unfoldable pub all_bases : ℕ → ℕ → ℕ → ℕ → ℕ → List ℕ → Bool
all_bases n np r2 d s [] = true
all_bases n np r2 d s (base ∷ rest) =
    let more = all_bases n np r2 d s rest in
    let a = base % n in if a == 0 then more else if strong_mrt n a np r2 d s then more else false

-- The rest of `primality_miller_rabin_u64` behind the loop over the small primes.
unfoldable pub rabin_tail : ℕ → Bool
unfolding split_even all_bases
rabin_tail n =
    let (d, s) = split_even 64 (n - 1) 0 in all_bases n (mont_ninv n) (mont_r2 n) d s bases

-- The loop over the small primes.
unfoldable pub trial : ℕ → List ℕ → Bool
trial n [] = rabin_tail n
trial n (p ∷ rest) =
    let more = trial n rest in if n == p then true else if n % p == 0 then false else more

unfoldable pub miller_rabin_u64 : ℕ → Bool
unfolding trial rabin_tail
miller_rabin_u64 n =
    if ltb n 2
    then false
    else if (n == 2) || (n == 3)
    then true
    else if (n % 2 == 0) || (n % 3 == 0)
    then false
    else trial n small_primes

unfoldable pub fast_fermat_u64 : ℕ → Bool
unfolding split_even
fast_fermat_u64 n =
    if ltb n 4
    then leb 2 n
    else if n % 2 == 0
    then false
    else (let (d, s) = split_even 64 (n - 1) 0 in
        if strong_mrt n 2 (mont_ninv n) (mont_r2 n) d s
        then strong_mrt n 3 (mont_ninv n) (mont_r2 n) d s
        else false)
