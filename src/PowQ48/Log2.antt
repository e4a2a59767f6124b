-- ===== src/PowQ48/Log2.antt =====
-- `q48_mpz_log2` of new_src/pow_q48.c: a fixed-point binary logarithm by squaring and halving.
pub mod Total
pub mod Keeps
pub mod Sound
use gap_miner_v.Prelude.{
  ℕ, zero, suc, ◌+◌, ◌-◌, ◌*◌, ◌/◌, ◌^◌, Bool, true, false, ◌&&◌, Option, none, some, ltb, leb, u32,
  u64, if◌then◌else◌,
}
use gap_miner_v.Gmp.{Gmp}

-- What the two loops change.
pub record Norm : Type 0 where
  pub n : ℕ
  pub bits : ℕ

module _ (shift accuracy : ℕ) where
  -- The condition of the inner loop; `mpz_get_ui` gives the low 64 bits.
  abbrev pub below_two : Norm → Bool
  below_two s = ltb (u64 (s.n / 2 ^ shift)) 2 && leb s.bits accuracy

  abbrev pub square : Norm → Norm
  square s = record { n = s.n * s.n / 2 ^ shift; bits = s.bits + 1 }

  -- `while (mpz_get_ui(tmp) < 2 && bits <= accuracy)`; `none` is running out of fuel.
  pub normalize : ℕ → Norm → Option Norm
  normalize zero s = none
  normalize (suc fuel) s = elim (below_two s) [ true ↦ normalize fuel (square s) | false ↦ some s ]

  -- `for (;;)`: one fractional bit of the logarithm for each round that does not break.
  pub add_bits : ℕ → Norm → ℕ → Option ℕ
  add_bits zero s out = none
  add_bits (suc fuel) s out = elim (normalize (accuracy + 2) s) [
    | none ↦ none
    | some t ↦ elim (ltb accuracy t.bits) [
      | true ↦ some out
      | false ↦
          add_bits fuel (record { n = t.n / 2; bits = t.bits }) (out + 2 ^ (accuracy - t.bits))
    ]
  ]

unfoldable pub mpz_log2 : Gmp → ℕ → ℕ → Option ℕ
unfolding normalize add_bits
mpz_log2 g src accuracy =
    let whole = u64 (g.sizeinbase2 src - 1) in
    let shift = u32 (accuracy + u32 whole) in
    add_bits shift accuracy (accuracy + 2) (record { n = src * 2 ^ accuracy; bits = 0 })
      (whole * 2 ^ accuracy)
