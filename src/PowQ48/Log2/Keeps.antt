-- ===== src/PowQ48/Log2/Keeps.antt =====
-- The invariant rules of the two loops of `q48_mpz_log2`.
use native.Mathlib.Decide.{dec_le}
use mathlib.Core.Path.{subst}
use gap_miner_v.Prelude.{
  ℕ, zero, suc, ◌+◌, ◌-◌, ◌/◌, ◌^◌, ◌≤◌, ◌<◌, ◌≡◌, sym, ◌∙◌, arith, some, Bool-cases, inl, inr,
}
use gap_miner_v.PowQ48.Log2.{Norm, below_two, square, normalize, add_bits}
use gap_miner_v.PowQ48.Log2.Total.{
  IsUnit, IsWide, normalize_step, normalize_stop, test_true, square-IsWide, normalize_round,
  add_bits_stop, add_bits_step,
}

some-inj : {a b : Norm} → some a ≡ some b → a ≡ b
some-inj h = cc

module _ (shift accuracy : ℕ) where
  module _ (Q : Norm → Type 0)
      (keep : (s : Norm)
        → s.bits ≤ accuracy
        → IsUnit shift accuracy s.n
        → Q s
        → Q (square shift accuracy s)) where
    pub normalize_keeps :
        (fuel : ℕ) (s t : Norm)
        → IsWide shift accuracy s.n
        → normalize shift accuracy fuel s ≡ some t
        → Q s
        → Q t
    normalize_keeps zero s t w h q = absurd (out_of_fuel h)
      where
        out_of_fuel : normalize shift accuracy zero s ≡ some t → ⊥
        out_of_fuel e = unfold normalize in cc
    normalize_keeps (suc fuel) s t w h q = elim (Bool-cases (below_two shift accuracy s)) [
      | inl e ↦
          let u : (s.bits ≤ accuracy) × IsUnit shift accuracy s.n =
            test_true shift accuracy s w e in
          normalize_keeps fuel (square shift accuracy s) t (square-IsWide shift accuracy s u.1)
            (sym (normalize_step shift accuracy fuel s e) ∙ h) (keep s u.0 u.1 q)
      | inr e ↦ subst Q (some-inj (sym (normalize_stop shift accuracy fuel s e) ∙ h)) q
    ]

  module _ (Q : Norm → ℕ → Type 0)
      (keep : (out : ℕ) (s : Norm)
        → s.bits ≤ accuracy
        → IsUnit shift accuracy s.n
        → Q s out
        → Q (square shift accuracy s) out)
      (halve : (out : ℕ) (s : Norm)
        → s.bits ≤ accuracy
        → IsUnit shift accuracy (s.n / 2)
        → Q s out
        → Q (record { n = s.n / 2; bits = s.bits }) (out + 2 ^ (accuracy - s.bits))) where
    -- At the end the invariant holds of the result, with too many bits.
    pub add_bits_keeps :
        (fuel : ℕ) (s : Norm) (out : ℕ)
        → accuracy < s.bits + fuel
        → s.bits ≤ accuracy
        → IsUnit shift accuracy s.n
        → Q s out
        → (r : ℕ) × (add_bits shift accuracy fuel s out ≡ some r)
          × ((t : Norm) × (accuracy < t.bits) × Q t r)
    add_bits_keeps zero s out h b u q = absurd (omega arith)
    add_bits_keeps (suc fuel) s out h b u q =
        let (t, runs, grows, normal) = normalize_round shift accuracy s b u in
        let q' : Q t out =
          normalize_keeps (λ k. Q k out) (λ k. keep out k) (accuracy + 2) s t (omega arith) runs
            q in
        elim (dec_le t.bits accuracy) [
          | yes l ↦
              let (r, rest, last) =
                add_bits_keeps fuel (record { n = t.n / 2; bits = t.bits })
                  (out + 2 ^ (accuracy - t.bits)) (omega arith) l (normal.digit l)
                  (halve out t l (normal.digit l) q') in
              (r, add_bits_step shift accuracy fuel s t out runs l ∙ rest, last)
          | no l ↦ (
            out,
            add_bits_stop shift accuracy fuel s t out runs (omega arith),
            (t, omega arith, q'),
          )
        ]
