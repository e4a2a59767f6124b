-- ===== src/Gmp.antt =====
-- What the program takes from GMP beyond integer arithmetic. An `mpz_t` is the integer that it
-- stands for: its sums, products, shifts and floor divisions are those of ℕ. A call with a
-- representation of its own is a field here, with the law that GMP's manual documents.
pub mod Model
use gap_miner_v.Prelude.{ℕ, zero, suc, ◌+◌, ◌-◌, ◌*◌, ◌^◌, ◌≤◌, ◌<◌, ◌≡◌, List, [], ◌∷◌, length}

-- The number that little endian bytes stand for.
abbrev pub le_value : List ℕ → ℕ
le_value [] = 0
le_value (b ∷ bs) = b + 256 * le_value bs

abbrev pub AllBytes : List ℕ → Type 0
AllBytes [] = Unit {0}
AllBytes (b ∷ bs) = (b < 256) × AllBytes bs

pub record Gmp : Type 0 where
  -- `mpz_sizeinbase(x, 2)`, exact for base 2.
  pub sizeinbase2 : ℕ → ℕ
  pub sizeinbase2_lower : (x : ℕ) → 0 < x → 2 ^ sizeinbase2 x ≤ 2 * x
  pub sizeinbase2_upper : (x : ℕ) → x < 2 ^ sizeinbase2 x
  -- `mpz_export(rop, &count, -1, 1, 0, 0, x)`: little endian bytes, no more than needed.
  pub export : ℕ → List ℕ
  pub export_bytes : (x : ℕ) → AllBytes (export x)
  pub export_value : (x : ℕ) → le_value (export x) ≡ x
  pub export_minimal : (x : ℕ) → 0 < x → 256 ^ length (export x) ≤ 256 * x
  pub export_zero : export 0 ≡ []
