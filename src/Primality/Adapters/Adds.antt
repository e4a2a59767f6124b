-- ===== src/Primality/Adapters/Adds.antt =====
-- `primality_limbs_add_u64` of new_src/primality_limbs.c adds, or reports that the limbs are too few.
use mathlib.Core.Path.{subst}
use native.Mathlib.Nat.{mod-eq_of_lt}
use gap_miner_v.Prelude.{
  ℕ, zero, suc, ◌+◌, ◌-◌, ◌*◌, ◌^◌, ◌≤◌, ◌<◌, ◌≡◌, ◌∙◌, refl, sym, ap, arith, List, [], ◌∷◌, ltb,
  ◌==◌, u64, length, Bool-cases, inl, inr, lt→ltb, ltb-false, ◌%◌,
}
use gap_miner_v.Prelude.Mod.{mod-eq_of_multiples}
use gap_miner_v.Primality.Limbs.Radix.{weight-power}
use gap_miner_v.Primality.Limbs.Value.{value, AllWords, weight, value-lt}
use gap_miner_v.Primality.Adapters.{carry_loop, limbs_add_u64}

carry_loop_lem :
    (limbs : List ℕ)
    → AllWords limbs
    → let r = carry_loop limbs in
      (r.1 ≤ 1)
      × AllWords r.0
      × (length r.0 ≡ length limbs)
      × (value r.0 + weight (length limbs) * r.1 ≡ value limbs + 1)
unfolding carry_loop
carry_loop_lem [] h = (omega arith, tt, refl, refl)
carry_loop_lem (old ∷ limbs) h =
    let rest = carry_loop_lem limbs h.1 in
    let w = h.0 in
    elim (Bool-cases (ltb (u64 (old + 1)) old)) [
      | inl more ↦
          let full : old ≡ 2 ^ 64 - 1 = ground arith in
          let e = rest.3 in
          rw more (rest.0, (omega arith, rest.1), ap suc rest.2, omega (arith, full, e))
      | inr done ↦
          let sum : u64 (old + 1) ≡ old + 1 = ground arith in
          rw done (omega arith, (omega arith, h.1), refl, omega (arith, sum))
    ]

-- What leaves the limbs by a carry is the weight behind them.
wraps : (w v c total : ℕ) → c ≤ 1 → v < w → v + w * c ≡ total → v ≡ total % w
wraps w v c total h l e =
    sym (mod-eq_of_lt l) ∙ mod-eq_of_multiples v total c 0 w (omega (arith, e))

fits : (w v c total : ℕ) → c ≤ 1 → v < w → v + w * c ≡ total → (c == 0) ≡ ltb total w
fits w v zero total h l e = sym (lt→ltb total w (omega (arith, e)))
fits w v (suc zero) total h l e = sym (ltb-false total w (omega (arith, e)))
fits w v (suc (suc c)) total h l e = absurd (omega arith)

-- The limbs and the carry of the addition.
add_parts :
    (old : ℕ) (limbs : List ℕ) (delta : ℕ)
    → AllWords (old ∷ limbs)
    → delta < 2 ^ 64
    → let r = limbs_add_u64 (old ∷ limbs) delta in
      (c : ℕ) × (c ≤ 1)
      × AllWords r.0
      × (length r.0 ≡ suc (length limbs))
      × (value r.0 + weight (suc (length limbs)) * c ≡ value (old ∷ limbs) + delta)
      × (r.1 ≡ (c == 0))
unfolding limbs_add_u64
add_parts old limbs delta h hd =
    let w = h.0 in
    elim (Bool-cases (delta == 0)) [
      | inl none ↦
          let z : delta ≡ 0 = ground arith in
          rw none (0, omega arith, h, refl, omega (arith, z), refl)
      | inr some ↦ elim (Bool-cases (ltb (u64 (old + delta)) old)) [
        | inl more ↦
            let rest = carry_loop_lem limbs h.1 in
            let sum : u64 (old + delta) + 2 ^ 64 ≡ old + delta = ground arith in
            let e = rest.3 in
            rw (some, more)
              (
                (carry_loop limbs).1,
                rest.0,
                (omega arith, rest.1),
                ap suc rest.2,
                omega (arith, sum, e),
                refl,
              )
        | inr done ↦
            let sum : u64 (old + delta) ≡ old + delta = ground arith in
            rw (some, done) (0, omega arith, (omega arith, h.1), refl, omega (arith, sum), refl)
      ]
    ]

-- For 64-bit limbs, at least one, and a 64-bit increment, `primality_limbs_add_u64` keeps the number of
-- limbs and their range, reports success exactly if the sum fits into the limbs, and leaves the sum in
-- them, without what does not fit.
pub limbs_add_u64_lem :
    (limbs : List ℕ) (delta : ℕ)
    → AllWords limbs
    → 0 < length limbs
    → delta < 2 ^ 64
    → let r = limbs_add_u64 limbs delta in
      AllWords r.0
      × (length r.0 ≡ length limbs)
      × (r.1 ≡ ltb (value limbs + delta) (2 ^ (64 * length limbs)))
      × (value r.0 ≡ (value limbs + delta) % 2 ^ (64 * length limbs))
limbs_add_u64_lem [] delta h pos hd = absurd (omega arith)
limbs_add_u64_lem (old ∷ limbs) delta h pos hd =
    let p = add_parts old limbs delta h hd in
    let r = limbs_add_u64 (old ∷ limbs) delta in
    let k = suc (length limbs) in
    let below : value r.0 < weight k =
      subst (λ (t : ℕ). value r.0 < weight t) p.3 (value-lt r.0 p.2) in
    let total = value (old ∷ limbs) + delta in
    (
      p.2,
      p.3,
      rw (sym (weight-power k)) (p.5 ∙ fits (weight k) (value r.0) p.0 total p.1 below p.4),
      rw (sym (weight-power k)) (wraps (weight k) (value r.0) p.0 total p.1 below p.4),
    )
