-- ===== src/Primality/Limbs/Montmul/Product.antt =====
-- What cpu_montmul_n of new_src/primality_limbs.c computes.
use mathlib.Core.Path.{subst}
use native.Mathlib.Nat.{mod-lt, mul-le-mul, le_refl}
use gap_miner_v.Prelude.{
  ℕ, suc, ◌+◌, ◌-◌, ◌*◌, ◌%◌, ◌^◌, ◌≤◌, ◌<◌, ◌≡◌, ◌∙◌, ◌⊎◌, inl, inr, sym, ap, arith, List, [], ◌∷◌,
  u64, get_or, set, replicate, take, length, length-set, length-replicate,
}
use gap_miner_v.Prelude.Mod.{mul-mod_left, mod-eq_of_multiples}
use gap_miner_v.Primality.Limbs.{max_limbs}
use gap_miner_v.Primality.Limbs.Value.{value, AllWords, weight, value-lt, take_limb}
use gap_miner_v.Primality.Limbs.Reduce.{subtract_once}
use gap_miner_v.Primality.Limbs.Radix.{value-replicate, replicate-AllWords, weight-power}
use gap_miner_v.Primality.Word.{mont_ninv}
use gap_miner_v.Primality.Word.Montgomery.{mont_ninv_lem}
use gap_miner_v.Primality.Limbs.Montmul.{mac_row, advance, montmul_loop, montmul_end, cpu_montmul_n}
use gap_miner_v.Primality.Limbs.Montmul.Buffer.{
  clear_limb, value-take, take-AllWords, length-take_of_le, advance_lem, low_limb, low_clears,
  at_most_one,
}
use gap_miner_v.Primality.Limbs.Montmul.Row.{mac_row_lem}

-- A pass over the limbs of `a`, by what the buffer stands for: its 2 ^ 64 fold is the buffer before it, a
-- multiple of `b` and one of `n`.
module _ (b n : List ℕ) (ninv nl : ℕ) (hb : AllWords b) (hn : AllWords n) (lb : length b ≡ nl)
    (ln : length n ≡ nl) (inv : (get_or n 0 0 * ninv) % 2 ^ 64 ≡ 2 ^ 64 - 1) where
  b_lt : value b < weight nl
  b_lt = subst (λ (k : ℕ). value b < weight k) lb (value-lt b hb)

  n_lt : value n < weight nl
  n_lt = subst (λ (k : ℕ). value n < weight k) ln (value-lt n hn)

  scaled_le : (x v : ℕ) → x < 2 ^ 64 → x * v ≤ (2 ^ 64 - 1) * v
  scaled_le x v h = let p : x ≤ 2 ^ 64 - 1 = omega arith in mul-le-mul p (le_refl v)

  -- The buffer between two rounds.
  abbrev Fits : List ℕ → ℕ → Type 0
  Fits t room = AllWords t × (nl + 2 + room ≤ length t) × (value t < value n + value b)

  abbrev next_of : ℕ → List ℕ → List ℕ
  next_of ai t =
      let summed = mac_row ai b t 0 in
      set (advance (mac_row (u64 (get_or summed 0 0 * ninv)) n summed 0)) (nl + 1) 0

  round :
      (ai : ℕ) (t : List ℕ) (room : ℕ)
      → ai < 2 ^ 64
      → Fits t (suc room)
      → Fits (next_of ai t) room
        × ((m : ℕ) × (2 ^ 64 * value (next_of ai t) ≡ value t + ai * value b + m * value n))
  round ai t room hai fits =
      let first =
        mac_row_lem ai b t 0 hai hb fits.0 (omega arith)
          (rw lb (let l = fits.1 in omega (arith, l)))
          (rw lb (omega (arith, b_lt, n_lt, scaled_le ai (value b) hai, large))) in
      let summed = mac_row ai b t 0 in
      let ef = first.2 in
      let m = u64 (get_or summed 0 0 * ninv) in
      let hm : m < 2 ^ 64 = omega arith in
      let total : value summed + m * value n + 0 < 2 ^ 128 * weight nl =
        omega
          (arith, ef, b_lt, n_lt, scaled_le ai (value b) hai, scaled_le m (value n) hm, large) in
      let size : nl + 2 + suc room ≤ length summed = rw first.1 fits.1 in
      let second =
        mac_row_lem m n summed 0 hm hn first.0 (omega arith) (rw ln (omega (arith, size)))
          (rw ln total) in
      let cleared = mac_row m n summed 0 in
      let es = second.2 in
      let low : value cleared % 2 ^ 64 ≡ 0 =
        let c = low_clears (value summed) (get_or n 0 0) (value n) ninv (low_limb n hn) inv in
        ap (λ (z : ℕ). z % 2 ^ 64) {x = value cleared} {y = value summed + m * value n}
          (omega (arith, es))
        ∙ rw (low_limb summed first.0) c in
      let moved = advance_lem cleared second.0 low in
      let em = moved.2 in
      let below : value (advance cleared) < value n + value b =
        omega (arith, em, es, ef, scaled_le ai (value b) hai, scaled_le m (value n) hm, large) in
      let e : nl + 1 ≡ suc nl = omega arith in
      let top : value (advance cleared) < weight (nl + 1) =
        rw e (omega (arith, below, b_lt, n_lt)) in
      let last = clear_limb (advance cleared) (nl + 1) top moved.0 in
      let el = last.1 in
      (
        (
          last.0,
          rw (length-set (advance cleared) (nl + 1) 0, moved.1, second.1) (omega (arith, size)),
          omega (arith, el, below),
        ),
        (m, omega (arith, el, em, es, ef)),
      )
    where
      large : value t < value n + value b
      large = fits.2

  -- The whole loop: `weight` of the rounds' limbs times the result is the product and a multiple of `n`.
  montmul_loop_lem :
      (a t : List ℕ)
      → AllWords a
      → Fits t (length a)
      → Fits (montmul_loop a b n ninv nl t) 0
        × ((q : ℕ) × (weight (length a) * value (montmul_loop a b n ninv nl t)
              ≡ value t + value a * value b + q * value n))
  unfolding montmul_loop
  montmul_loop_lem [] t ha fits = (fits, (0, omega arith))
  montmul_loop_lem (ai ∷ al) t ha fits =
      let one = round ai t (length al) ha.0 fits in
      let rest = montmul_loop_lem al (next_of ai t) ha.1 one.0 in
      let m = one.1.0 in
      let e = one.1.1 in
      let q = rest.1.0 in let f = rest.1.1 in (rest.0, (m + 2 ^ 64 * q, omega (arith, e, f)))

  start-Fits : (0 < value b) ⊎ (0 < value n) → Fits (replicate (2 * nl + 4) 0) nl
  start-Fits some = (
    replicate-AllWords (2 * nl + 4),
    rw (length-replicate {A = ℕ} (2 * nl + 4) 0) (omega arith),
    elim some [
      | inl h ↦ omega (arith, h, value-replicate (2 * nl + 4))
      | inr h ↦ omega (arith, h, value-replicate (2 * nl + 4))
    ],
  )

  montmul_end_lem :
      (t : List ℕ)
      → Fits t 0
      → value b ≤ value n
      → let r = montmul_end t n nl in AllWords r × (length r ≡ nl) × (value r ≡ value t % value n)
  unfolding montmul_end
  montmul_end_lem t fits le =
      let v = fits.2 in
      let e : nl + 1 ≡ suc nl = omega arith in
      let split : value t ≡ value (take nl t) + weight nl * get_or t nl 0 =
        sym (value-take t (suc nl) (omega (arith, v, b_lt, n_lt))) ∙ take_limb nl t in
      let bit : get_or t nl 0 ≤ 1 =
        at_most_one (weight nl) (get_or t nl 0) (omega (arith, split, v, b_lt, n_lt)) in
      subtract_once (take nl t) n nl (get_or t nl 0) (value t) (take-AllWords t nl fits.0) hn
        (length-take_of_le t nl (let l = fits.1 in omega (arith, l))) ln bit (sym split)
        (omega (arith, v, le))

-- For three numbers of `nl` limbs, up to the 20 that the buffer is made for, the third odd and above the
-- second, and the inverse of `mont_ninv`, `cpu_montmul_n` gives `nl` limbs of a number below the third whose 2 ^ (64 * nl) fold is the product of
-- the first two modulo the third.
pub cpu_montmul_n_lem :
    (a b n : List ℕ) (nl : ℕ)
    → nl ≤ max_limbs
    → AllWords a
    → AllWords b
    → AllWords n
    → length a ≡ nl
    → length b ≡ nl
    → length n ≡ nl
    → value b < value n
    → value n % 2 ≡ 1
    → let r = cpu_montmul_n a b n (mont_ninv (get_or n 0 0)) nl in
      AllWords r
      × (length r ≡ nl)
      × (value r < value n)
      × ((value r * 2 ^ (64 * nl)) % value n ≡ (value a * value b) % value n)
unfolding cpu_montmul_n
cpu_montmul_n_lem a b n nl few ha hb hn la lb ln below odd =
    let ninv = mont_ninv (get_or n 0 0) in
    let inv = mont_ninv_lem (get_or n 0 0) (omega (arith, low_limb n hn)) in
    let zeros : List ℕ = replicate (2 * nl + 4) 0 in
    let start = start-Fits b n ninv nl hb hn lb ln inv (inr (omega (arith, below))) in
    let loop = montmul_loop_lem b n ninv nl hb hn lb ln inv a zeros ha (rw la start) in
    let t = montmul_loop a b n ninv nl zeros in
    let q = loop.1.0 in
    let size : weight (length a) ≡ 2 ^ (64 * nl) = ap weight la ∙ weight-power nl in
    let sum : value t * 2 ^ (64 * nl) + 0 * value n ≡ value a * value b + q * value n =
      let e = loop.1.1 in
      omega (arith, e, value-replicate (2 * nl + 4), ap (λ (w : ℕ). w * value t) size) in
    let last = montmul_end_lem b n ninv nl hb hn lb ln inv t loop.0 (omega (arith, below)) in
    (
      last.0,
      last.1,
      rw last.2 (mod-lt (value t) (omega (arith, below))),
      rw last.2 (
          mul-mod_left (value t) (2 ^ (64 * nl)) (value n)
          ∙ mod-eq_of_multiples (value t * 2 ^ (64 * nl)) (value a * value b) 0 q (value n) sum),
    )
