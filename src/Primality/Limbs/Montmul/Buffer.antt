-- ===== src/Primality/Limbs/Montmul/Buffer.antt =====
-- The buffer of cpu_montmul_n in new_src/primality_limbs.c: a limb is dropped, a limb is cleared.
use gap_miner_v.Prelude.{
  ℕ, zero, suc, ◌+◌, ◌-◌, ◌*◌, ◌%◌, ◌^◌, ◌≤◌, ◌<◌, ◌≡◌, ◌∙◌, refl, sym, ap, arith, List, [], ◌∷◌,
  u64, get_or, set, take, length,
}
use gap_miner_v.Prelude.Mod.{mul-mod, mul-mod_left}
use gap_miner_v.Primality.Limbs.Value.{value, AllWords, weight}
use gap_miner_v.Primality.Limbs.Montmul.{advance}

-- A limb beyond the value is 0 already.
pub clear_limb :
    (t : List ℕ) (k : ℕ)
    → value t < weight k
    → AllWords t
    → AllWords (set t k 0) × (value (set t k 0) ≡ value t)
clear_limb [] k h ht = (tt, refl)
clear_limb (x ∷ tl) zero h ht = ((omega arith, ht.1), omega (arith, h))
clear_limb (x ∷ tl) (suc k) h ht =
    let small : x + 2 ^ 64 * value tl < 2 ^ 64 * weight k = h in
    let rest = clear_limb tl k (omega (arith, small)) ht.1 in
    ((ht.0, rest.0), omega (arith, rest.1))

pub value-take : (t : List ℕ) (k : ℕ) → value t < weight k → value (take k t) ≡ value t
value-take [] zero h = refl
value-take [] (suc k) h = refl
value-take (x ∷ tl) zero h = omega (arith, h)
value-take (x ∷ tl) (suc k) h =
    let small : x + 2 ^ 64 * value tl < 2 ^ 64 * weight k = h in
    omega (arith, value-take tl k (omega (arith, small)))

pub take-AllWords : (t : List ℕ) (k : ℕ) → AllWords t → AllWords (take k t)
take-AllWords [] zero h = tt
take-AllWords [] (suc k) h = tt
take-AllWords (x ∷ tl) zero h = tt
take-AllWords (x ∷ tl) (suc k) h = (h.0, take-AllWords tl k h.1)

pub length-take_of_le : (t : List ℕ) (k : ℕ) → k ≤ length t → length (take k t) ≡ k
length-take_of_le [] zero h = refl
length-take_of_le [] (suc k) h = absurd (omega arith)
length-take_of_le (x ∷ tl) zero h = refl
length-take_of_le (x ∷ tl) (suc k) h = ap suc (length-take_of_le tl k (omega arith))

-- Without the lowest limb, a multiple of 2 ^ 64 is divided.
pub advance_lem :
    (t : List ℕ)
    → AllWords t
    → value t % 2 ^ 64 ≡ 0
    → AllWords (advance t)
      × (length (advance t) ≡ length t - 1)
      × (2 ^ 64 * value (advance t) ≡ value t)
unfolding advance
advance_lem [] h e = (tt, refl, refl)
advance_lem (x ∷ tl) h e = (h.1, omega arith, let l = h.0 in omega (arith, e, l))

pub low_limb : (t : List ℕ) → AllWords t → get_or t 0 0 ≡ value t % 2 ^ 64
low_limb [] h = refl
low_limb (x ∷ tl) h = let l = h.0 in omega (arith, l)

-- The multiple of `n` clears the lowest limb.
pub low_clears :
    (v n0 vn ninv : ℕ)
    → n0 ≡ vn % 2 ^ 64
    → (n0 * ninv) % 2 ^ 64 ≡ 2 ^ 64 - 1
    → (v + u64 (v % 2 ^ 64 * ninv) * vn) % 2 ^ 64 ≡ 0
low_clears v n0 vn ninv e inv =
    let w = 2 ^ 64 in
    let full : n0 % w ≡ vn % w = omega (arith, e) in
    let low : u64 (v % w * ninv) % w ≡ (v * ninv) % w = omega (arith, mul-mod_left v ninv w) in
    let turn : v * ninv * vn ≡ v * (vn * ninv) = omega arith in
    let step : (u64 (v % w * ninv) * vn) % w ≡ (v * (w - 1)) % w =
      mul-mod (u64 (v % w * ninv)) vn (v * ninv) vn w low refl
      ∙ (ap (λ (t : ℕ). t % w) turn
          ∙ mul-mod v (vn * ninv) v (w - 1) w refl
              (mul-mod vn ninv n0 ninv w (sym full) refl ∙ (inv ∙ refl))) in
    omega (arith, step)

pub at_most_one : (w x : ℕ) → w * x < 2 * w → x ≤ 1
at_most_one w zero h = omega arith
at_most_one w (suc zero) h = omega arith
at_most_one w (suc (suc x)) h = absurd (omega (arith, h))
