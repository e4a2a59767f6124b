-- ===== src/Primality/Window/Loop.antt =====
-- The window loop of new_src/primality_limbs.c raises to the exponent, for any product of limbs that adds
-- the exponents of what it multiplies.
use mathlib.Core.Path.{subst}
use native.Mathlib.Nat.{
  div-div-eq-div-mul, div-add-mod', pow-suc, mod-lt, mul-le-mul, le_refl, pow-le-pow_right,
}
use native.Mathlib.Decide.{dec_lt}
use gap_miner_v.Prelude.{
  ℕ, zero, suc, ◌+◌, ◌-◌, ◌*◌, ◌/◌, ◌%◌, ◌^◌, ◌≤◌, ◌<◌, ◌≡◌, ◌∙◌, sym, ap, arith, List, [], ltb,
  ◌==◌, get_or, Bool-cases, inl, inr,
}
use gap_miner_v.Prelude.Arith.{pow_add, pow-pos}
use gap_miner_v.Primality.Limbs.Value.{value, AllWords}
use gap_miner_v.Primality.Window.{sqr_times, one_bit, one_window, window_loop, odd_powers}
use gap_miner_v.Primality.Window.Bits.{bit_at}

-- `__builtin_ctz` counts the zero bits below the lowest set bit of a number that is not 0.
abbrev pub CountsTrailing : (ℕ → ℕ) → Type 0
CountsTrailing ctz = (w : ℕ) → 0 < w → w < 2 ^ 32 → w ≡ 2 ^ ctz w * (2 * (w / 2 ^ ctz w / 2) + 1)

module _ (Holds : List ℕ → ℕ → Type 0) (mul : List ℕ → List ℕ → List ℕ)
    (mul-Holds : (a b : List ℕ) (j k : ℕ) → Holds a j → Holds b k → Holds (mul a b) (j + k)) where
  sqr_times_lem :
      (k : ℕ) (res : List ℕ) (j : ℕ) → Holds res j → Holds (sqr_times mul k res) (j * 2 ^ k)
  unfolding sqr_times
  sqr_times_lem zero res j h = subst (λ (t : ℕ). Holds res t) {x = j} (omega arith) h
  sqr_times_lem (suc k) res j h =
      subst (λ (t : ℕ). Holds (sqr_times mul k (mul res res)) t)
        (omega (arith, ap (λ (t : ℕ). j * t) (pow-suc 2 k)))
        (sqr_times_lem k (mul res res) (j + j) (mul-Holds res res j j h h))

  pub odd_powers_lem :
      (base2_m : List ℕ) (count : ℕ) (last : List ℕ) (j i : ℕ)
      → Holds base2_m 2
      → Holds last j
      → i < count
      → Holds (get_or (odd_powers mul base2_m count last) i []) (j + 2 * i)
  unfolding odd_powers
  odd_powers_lem base2_m zero last j i hb hl l = absurd (omega arith)
  odd_powers_lem base2_m (suc count) last j zero hb hl l =
      subst (λ (t : ℕ). Holds last t) {x = j} (omega arith) hl
  odd_powers_lem base2_m (suc count) last j (suc i) hb hl l =
      subst (λ (t : ℕ). Holds (get_or (odd_powers mul base2_m count (mul last base2_m)) i []) t)
        {x = j + 2 + 2 * i} (omega arith)
        (odd_powers_lem base2_m count (mul last base2_m) (j + 2) i hb
          (mul-Holds last base2_m j 2 hl hb) (omega arith))

  module _ (ctz : ℕ → ℕ) (win_bits : ℕ) (bits_at : ℕ → ℕ) (e base_m : List ℕ) (win : List (List ℕ))
      (room : ℕ) (counts : CountsTrailing ctz) (size : 1 ≤ win_bits) (fits : win_bits ≤ 31)
      (he : AllWords e) (base : Holds base_m 1)
      (powers : (i : ℕ) → i < 2 ^ (win_bits - 1) → Holds (get_or win i []) (1 + 2 * i))
      (reads : (bit : ℕ)
        → bit + win_bits ≤ room
        → bits_at bit ≡ value e / 2 ^ bit % 2 ^ win_bits) where
    one_bit_lem :
        (bit : ℕ) (res : List ℕ)
        → Holds res (value e / 2 ^ suc bit)
        → Holds (one_bit mul base_m e bit res) (value e / 2 ^ bit)
    unfolding one_bit
    one_bit_lem bit res h =
        let q = value e / 2 ^ suc bit in
        let half : value e / 2 ^ bit / 2 ≡ q =
          div-div-eq-div-mul (value e) (2 ^ bit) 2
          ∙ ap (λ (t : ℕ). value e / t) (omega (arith, pow-suc 2 bit)) in
        let here = bit_at e bit he in
        let squared = mul-Holds res res q q h h in
        elim (Bool-cases (get_or e (bit / 64) 0 / 2 ^ (bit % 64) % 2 == 1)) [
          | inl one ↦
              let odd : value e / 2 ^ bit % 2 ≡ 1 = ground (arith, here) in
              rw one (
                subst (λ (t : ℕ). Holds (mul (mul res res) base_m) t) {x = q + q + 1}
                  (omega (arith, half, odd))
                  (mul-Holds (mul res res) base_m (q + q) 1 squared base))
          | inr no_one ↦
              let even : value e / 2 ^ bit % 2 ≡ 0 = ground (arith, here) in
              rw no_one (
                subst (λ (t : ℕ). Holds (mul res res) t) {x = q + q} (omega (arith, half, even))
                  squared)
        ]

    -- The window's bits are an odd number with zeros behind it.
    window_shape :
        (w : ℕ)
        → 0 < w
        → w < 2 ^ win_bits
        → (w / 2 ^ ctz w / 2 < 2 ^ (win_bits - 1))
          × ((q : ℕ)
              → (q * 2 ^ (win_bits - ctz w) + (1 + 2 * (w / 2 ^ ctz w / 2))) * 2 ^ ctz w
                ≡ q * 2 ^ win_bits + w)
    window_shape w pos small =
        let l : win_bits ≤ 32 = omega arith in
        let word : 2 ^ win_bits ≤ 2 ^ 32 = pow-le-pow_right (omega arith) l in
        let z = ctz w in
        let i = w / 2 ^ z / 2 in
        let e : w ≡ 2 ^ z * (2 * i + 1) = counts w pos (omega (arith, word)) in
        let least : 1 * (2 * i + 1) ≤ 2 ^ z * (2 * i + 1) =
          let p = pow-pos z in
          let k : 1 ≤ 2 ^ z = omega (arith, p) in mul-le-mul k (le_refl (2 * i + 1)) in
        let split : 2 ^ win_bits ≡ 2 * 2 ^ (win_bits - 1) =
          ap (λ (t : ℕ). 2 ^ t) {x = win_bits} {y = suc (win_bits - 1)} (omega arith)
          ∙ omega (arith, pow-suc 2 (win_bits - 1)) in
        let short : z ≤ win_bits = elim (dec_lt win_bits z) [
          | no k ↦ omega arith
          | yes k ↦
              let up : win_bits ≤ z = omega arith in
              let more : 2 ^ win_bits ≤ 2 ^ z = pow-le-pow_right (omega arith) up in
              let larger : 2 ^ z * 1 ≤ 2 ^ z * (2 * i + 1) =
                let k : 1 ≤ 2 * i + 1 = omega arith in mul-le-mul (le_refl (2 ^ z)) k in
              absurd (omega (arith, more, larger, e))
        ] in
        let whole : 2 ^ (win_bits - z) * 2 ^ z ≡ 2 ^ win_bits =
          sym (pow_add 2 (win_bits - z) z) ∙ ap (λ (t : ℕ). 2 ^ t) (omega (arith, short)) in
        (omega (arith, least, e, split), λ q. omega (arith, e, ap (λ (t : ℕ). q * t) whole))

    one_window_lem :
        (w : ℕ) (res : List ℕ) (q : ℕ)
        → w < 2 ^ win_bits
        → Holds res q
        → Holds (one_window mul ctz win win_bits w res) (q * 2 ^ win_bits + w)
    unfolding one_window
    one_window_lem w res q small h = elim (Bool-cases (w == 0)) [
      | inl none ↦
          let z : w ≡ 0 = ground arith in
          rw none (
            subst (λ (t : ℕ). Holds (sqr_times mul win_bits res) t) (omega (arith, z))
              (sqr_times_lem win_bits res q h))
      | inr some ↦
          let pos : 0 < w = ground arith in
          let z = ctz w in
          let i = w / 2 ^ z / 2 in
          let shape = window_shape w pos small in
          rw some (
            subst
              (λ (t : ℕ).
                Holds (sqr_times mul z (mul (sqr_times mul (win_bits - z) res) (get_or win i [])))
                  t)
              (shape.1 q)
              (sqr_times_lem z (mul (sqr_times mul (win_bits - z) res) (get_or win i []))
                (q * 2 ^ (win_bits - z) + (1 + 2 * i))
                (mul-Holds (sqr_times mul (win_bits - z) res) (get_or win i [])
                  (q * 2 ^ (win_bits - z)) (1 + 2 * i) (sqr_times_lem (win_bits - z) res q h)
                  (powers i shape.0))))
    ]

    window_parts :
        (left : ℕ)
        → win_bits ≤ left
        → left ≤ room
        → (bits_at (left - win_bits) < 2 ^ win_bits)
          × (value e / 2 ^ left * 2 ^ win_bits + bits_at (left - win_bits)
              ≡ value e / 2 ^ (left - win_bits))
    window_parts left long l =
        let at = left - win_bits in
        let whole : at + win_bits ≡ left = omega arith in
        let read = reads at (omega arith) in
        let high : value e / 2 ^ at / 2 ^ win_bits ≡ value e / 2 ^ left =
          div-div-eq-div-mul (value e) (2 ^ at) (2 ^ win_bits)
          ∙ ap (λ (t : ℕ). value e / t)
              (sym (pow_add 2 at win_bits) ∙ ap (λ (t : ℕ). 2 ^ t) whole) in
        let low = mod-lt (value e / 2 ^ at) (pow-pos win_bits) in
        (
          omega (arith, read, low),
          omega (
            arith,
            read,
            ap (λ (t : ℕ). t * 2 ^ win_bits) high,
            div-add-mod' (value e / 2 ^ at) (2 ^ win_bits),
          ),
        )

    all_bits : (left : ℕ) → left ≡ 0 → value e / 2 ^ left ≡ value e
    all_bits left z = ap (λ (t : ℕ). value e / 2 ^ t) z ∙ omega arith

    -- The loop from bit `left - 1` down raises to the whole exponent; one round for each bit is enough.
    pub window_loop_lem :
        (fuel left : ℕ) (res : List ℕ)
        → left ≤ fuel
        → left ≤ room
        → Holds res (value e / 2 ^ left)
        → Holds (window_loop mul ctz win_bits bits_at e base_m win fuel left res) (value e)
    unfolding window_loop
    window_loop_lem zero left res h l hr =
        let z : left ≡ 0 = omega arith in subst (λ (t : ℕ). Holds res t) (all_bits left z) hr
    window_loop_lem (suc fuel) left res h l hr = elim (Bool-cases (left == 0)) [
      | inl done ↦
          let z : left ≡ 0 = ground arith in
          rw done (subst (λ (t : ℕ). Holds res t) (all_bits left z) hr)
      | inr more ↦
          let some : left ≡ suc (left - 1) = ground arith in
          elim (Bool-cases (ltb (left - 1) (win_bits - 1))) [
            | inl single ↦
                rw (more, single)
                  (window_loop_lem fuel (left - 1) (one_bit mul base_m e (left - 1) res)
                    (omega arith) (omega arith)
                    (one_bit_lem (left - 1) res
                      (subst (λ (t : ℕ). Holds res (value e / 2 ^ t)) some hr)))
            | inr several ↦
                let long : win_bits ≤ left = ground arith in
                let w = bits_at (left - win_bits) in
                let same : left - 1 - (win_bits - 1) ≡ left - win_bits = omega arith in
                let q = value e / 2 ^ left in
                let parts = window_parts left long l in
                rw (more, several, same)
                  (window_loop_lem fuel (left - win_bits) (one_window mul ctz win win_bits w res)
                    (omega arith) (omega arith)
                    (subst (λ (t : ℕ). Holds (one_window mul ctz win win_bits w res) t) parts.1
                      (one_window_lem w res q parts.0 hr)))
          ]
    ]
