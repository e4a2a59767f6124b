-- ===== src/Primality/Builtins.antt =====
-- Instances of what new_src/primality_limbs.c takes from the compiler and from GMP, computed digit by
-- digit: they show that the documented laws can hold, and run the examples.
use native.Mathlib.Nat.{pow-suc, div-div-eq-div-mul, le_refl}
use native.Mathlib.Decide.{dec_lt}
use gap_miner_v.Prelude.{
  ℕ, zero, suc, ◌+◌, ◌-◌, ◌*◌, ◌/◌, ◌%◌, ◌^◌, ◌≤◌, ◌<◌, ◌≡◌, ◌∙◌, refl, sym, ap, arith, List, [],
  ◌∷◌, ◌==◌, length, if◌then◌else◌, Bool-cases, inl, inr,
}
use gap_miner_v.Prelude.Arith.{pow_add, pow-pos}
use gap_miner_v.Gmp.Model.{model}
use gap_miner_v.Primality.Limbs.Value.{value, AllWords}
use gap_miner_v.Primality.Window.Loop.{CountsTrailing}
use gap_miner_v.Primality.Window.Exponent.{LeadingZeros}
use gap_miner_v.Primality.Adapters.Export.{ExportsWords}

abbrev pub leading_zeros : ℕ → ℕ
leading_zeros x = 64 - model.sizeinbase2 x

unfoldable pub trailing_go : ℕ → ℕ → ℕ
trailing_go zero w = 0
trailing_go (suc fuel) w =
    let more = suc (trailing_go fuel (w / 2)) in if w % 2 == 1 then 0 else more

abbrev pub trailing_zeros : ℕ → ℕ
trailing_zeros w = trailing_go 32 w

unfoldable pub words_go : ℕ → ℕ → List ℕ
words_go zero n = []
words_go (suc f) n = let more = n % 2 ^ 64 ∷ words_go f (n / 2 ^ 64) in if n == 0 then [] else more

abbrev pub export_words : ℕ → List ℕ
export_words n = words_go n n

bits-le : (x s : ℕ) → x < 2 ^ 64 → 2 ^ s ≤ 2 * x → s ≤ 64
bits-le x s h l = elim (dec_lt 64 s) [
  | no small ↦ omega arith
  | yes more ↦
      let e : s ≡ 65 + (s - 65) = omega arith in
      absurd (omega (arith, ap (λ (t : ℕ). 2 ^ t) e, pow_add 2 65 (s - 65), pow-pos (s - 65)))
]

count_fits :
    (x s : ℕ)
    → 0 < x
    → x < 2 ^ 64
    → x < 2 ^ s
    → 2 ^ s ≤ 2 * x
    → (64 - s ≤ 63) × (2 ^ (63 - (64 - s)) ≤ x) × (x < 2 ^ (64 - (64 - s)))
count_fits x zero pos h upper lower = absurd (omega arith)
count_fits x (suc s) pos h upper lower =
    let small : suc s ≤ 64 = bits-le x (suc s) h lower in
    let low : 63 - (64 - suc s) ≡ s = omega (arith, small) in
    let high : 64 - (64 - suc s) ≡ suc s = omega (arith, small) in
    (omega arith, rw low (omega (arith, pow-suc 2 s)), rw high upper)

leading_zeros_lem :
    (x : ℕ)
    → 0 < x
    → x < 2 ^ 64
    → (leading_zeros x ≤ 63) × (2 ^ (63 - leading_zeros x) ≤ x) × (x < 2 ^ (64 - leading_zeros x))
leading_zeros_lem x pos h =
    count_fits x (model.sizeinbase2 x) pos h (model.sizeinbase2_upper x)
      (model.sizeinbase2_lower x pos)

pub leading_zeros-LeadingZeros : LeadingZeros leading_zeros
leading_zeros-LeadingZeros = (
  λ x pos h. ((leading_zeros_lem x pos h).0, (leading_zeros_lem x pos h).1),
  λ x pos h. (leading_zeros_lem x pos h).2,
)

trailing_go_lem :
    (fuel w : ℕ)
    → 0 < w
    → w < 2 ^ fuel
    → (w ≡ 2 ^ trailing_go fuel w * (w / 2 ^ trailing_go fuel w))
      × (w / 2 ^ trailing_go fuel w % 2 ≡ 1)
unfolding trailing_go
trailing_go_lem zero w pos h = absurd (omega arith)
trailing_go_lem (suc fuel) w pos h = elim (Bool-cases (w % 2 == 1)) [
  | inl odd ↦ rw odd (omega arith, ground arith)
  | inr even ↦
      let z = trailing_go fuel (w / 2) in
      let twice : w ≡ 2 * (w / 2) = ground arith in
      let rest =
        trailing_go_lem fuel (w / 2) (omega (arith, twice))
          (omega (arith, twice, pow-suc 2 fuel)) in
      let deep : w / 2 ^ suc z ≡ w / 2 / 2 ^ z =
        ap (λ (t : ℕ). w / t) {x = 2 ^ suc z} {y = 2 * 2 ^ z} (omega (arith, pow-suc 2 z))
        ∙ sym (div-div-eq-div-mul w 2 (2 ^ z)) in
      let e = rest.0 in
      rw (even, deep)
        (omega (arith, twice, e, ap (λ (t : ℕ). t * (w / 2 / 2 ^ z)) (pow-suc 2 z)), rest.1)
]

pub trailing_zeros-CountsTrailing : CountsTrailing trailing_zeros
trailing_zeros-CountsTrailing w pos h =
    let lem = trailing_go_lem 32 w pos h in
    let odd = lem.1 in
    let half : w / 2 ^ trailing_zeros w ≡ 2 * (w / 2 ^ trailing_zeros w / 2) + 1 =
      omega (arith, odd) in
    lem.0 ∙ ap (λ (t : ℕ). 2 ^ trailing_zeros w * t) half

words_go-zero : (f n : ℕ) → n ≡ 0 → length (words_go f n) ≡ 0
unfolding words_go
words_go-zero zero n h = refl
words_go-zero (suc f) n h = rw h refl

words_go_lem :
    (f n : ℕ)
    → n ≤ f
    → AllWords (words_go f n)
      × (value (words_go f n) ≡ n)
      × (0 < n → 2 ^ (64 * length (words_go f n)) ≤ 2 ^ 64 * n)
unfolding words_go
words_go_lem zero n h = (tt, omega arith, λ pos. absurd (omega arith))
words_go_lem (suc f) n h = elim (Bool-cases (n == 0)) [
  | inl none ↦ rw none (tt, ground arith, λ pos. absurd (ground arith))
  | inr some ↦
      let rest = words_go_lem f (n / 2 ^ 64) (ground arith) in
      let v = rest.1 in
      let k = length (words_go f (n / 2 ^ 64)) in
      let e : 64 * suc k ≡ 64 + 64 * k = omega arith in
      let p : 2 ^ (64 * suc k) ≡ 2 ^ 64 * 2 ^ (64 * k) =
        ap (λ (t : ℕ). 2 ^ t) e ∙ pow_add 2 64 (64 * k) in
      rw some (
        (omega arith, rest.0),
        omega (arith, v),
        λ pos. elim (dec_lt 0 (n / 2 ^ 64)) [
          | yes more ↦ let m = rest.2 more in omega (arith, p, m)
          | no last ↦
              let z : k ≡ 0 = words_go-zero f (n / 2 ^ 64) (omega arith) in
              let one : 2 ^ (64 * suc k) ≡ 2 ^ 64 = ap (λ (t : ℕ). 2 ^ (64 * suc t)) z in
              omega (arith, one)
        ],
      )
]

pub export_words-ExportsWords : ExportsWords export_words
export_words-ExportsWords x = words_go_lem x x (le_refl x)
