-- ===== src/Primality/Limbs/Montmul.antt =====
-- The Montgomery product of numbers of several limbs, cpu_mac and cpu_montmul_n of
-- new_src/primality_limbs.c.
pub mod Row
pub mod Buffer
pub mod Product
use gap_miner_v.Prelude.{
  ℕ, zero, suc, ◌+◌, ◌*◌, ◌/◌, ◌%◌, ◌^◌, Bool, true, false, ◌||◌, not, List, [], ◌∷◌, ltb, ◌==◌,
  u64, get_or, set, replicate, take, if◌then◌else◌,
}
use gap_miner_v.Primality.Limbs.{cpu_gte_n, cpu_sub_n}

-- The sum in `*acc` and the high word that is returned.
unfoldable pub cpu_mac : ℕ → ℕ → ℕ → ℕ → ℕ × ℕ
cpu_mac acc a b carry =
    let p = (a * b + carry) % 2 ^ 128 in
    let lo = u64 p in
    let hi = u64 (p / 2 ^ 64) in
    let out = u64 (acc + lo) in (out, u64 (hi + (if ltb out acc then 1 else 0)))

-- `t[nl] += c; t[nl + 1] += (t[nl] < old)`, on the limbs of `t` from `nl` on.
unfoldable pub add_carry : List ℕ → ℕ → List ℕ
add_carry [] c = []
add_carry (old ∷ []) c = u64 (old + c) ∷ []
add_carry (old ∷ next ∷ tl) c =
    let top = u64 (old + c) in top ∷ u64 (next + (if ltb top old then 1 else 0)) ∷ tl

-- `for (j = 0; j < nl; j++) c = cpu_mac(&t[j], x, b[j], c)` for the limbs `b[j]` to go, and the carry's
-- addition behind the loop.
unfoldable pub mac_row : ℕ → List ℕ → List ℕ → ℕ → List ℕ
unfolding cpu_mac add_carry
mac_row x [] t c = add_carry t c
mac_row x (bj ∷ bl) [] c = []
mac_row x (bj ∷ bl) (tj ∷ tl) c = let mac = cpu_mac tj x bj c in mac.0 ∷ mac_row x bl tl mac.1

-- `t++`
unfoldable pub advance : List ℕ → List ℕ
advance [] = []
advance (t0 ∷ tl) = tl

-- `for (i = 0; i < nl; i++)`, for the limbs `a[i]` to go.
unfoldable pub montmul_loop : List ℕ → List ℕ → List ℕ → ℕ → ℕ → List ℕ → List ℕ
unfolding mac_row advance
montmul_loop [] b n ninv nl t = t
montmul_loop (ai ∷ al) b n ninv nl t =
    let summed = mac_row ai b t 0 in
    let m = u64 (get_or summed 0 0 * ninv) in
    let cleared = mac_row m n summed 0 in
    montmul_loop al b n ninv nl (set (advance cleared) (nl + 1) 0)

-- `if (t[nl] || cpu_gte_n(t, n, nl))` and its branches.
unfoldable pub montmul_end : List ℕ → List ℕ → ℕ → List ℕ
unfolding cpu_gte_n cpu_sub_n
montmul_end t n nl =
    let low = take nl t in
    if not (get_or t nl 0 == 0) || cpu_gte_n low n nl then cpu_sub_n low n else low

-- The array `tbuf` has `2 * max_limbs + 4` words; the first `2 * nl + 4`, which are cleared, are used. The
-- source does not define what happens for more than `max_limbs` limbs.
unfoldable pub cpu_montmul_n : List ℕ → List ℕ → List ℕ → ℕ → ℕ → List ℕ
unfolding montmul_loop montmul_end
cpu_montmul_n a b n ninv nl =
    montmul_end (montmul_loop a b n ninv nl (replicate (2 * nl + 4) 0)) n nl
