-- ===== src/Gmp/Model.antt =====
-- An instance of the interface, computed digit by digit: it shows that the documented laws can hold,
-- and runs the examples.
use native.Mathlib.Nat.{pow-suc, le_refl}
use gap_miner_v.Prelude.{
  ℕ, zero, suc, ◌*◌, ◌/◌, ◌%◌, ◌^◌, ◌≤◌, ◌<◌, ◌≡◌, ◌⊎◌, refl, arith, List, [], ◌∷◌, length, ◌==◌,
  if◌then◌else◌, Bool-cases, inl, inr,
}
use gap_miner_v.Gmp.{Gmp, le_value, AllBytes}

unfoldable pub bits_go : ℕ → ℕ → ℕ
bits_go zero n = 0
bits_go (suc f) n = let more = suc (bits_go f (n / 2)) in if n == 0 then 0 else more

unfoldable pub bytes_go : ℕ → ℕ → List ℕ
bytes_go zero n = []
bytes_go (suc f) n = let more = n % 256 ∷ bytes_go f (n / 256) in if n == 0 then [] else more

pub bits_upper : (f n : ℕ) → n ≤ f → n < 2 ^ bits_go f n
unfolding bits_go
bits_upper zero n h = omega arith
bits_upper (suc f) n h = elim (Bool-cases (n == 0)) [
  | inl e ↦ rw e (ground arith)
  | inr e ↦ rw e (omega (arith, pow-suc 2 (bits_go f (n / 2)), bits_upper f (n / 2) half))
]
  where
    half : n / 2 ≤ f
    half = omega arith

zero_or_pos : (n : ℕ) → (n ≡ 0) ⊎ (0 < n)
zero_or_pos n = omega arith

pow-bits_zero : (f n : ℕ) → n ≡ 0 → 2 ^ bits_go f n ≡ 1
unfolding bits_go
pow-bits_zero zero n h = refl
pow-bits_zero (suc f) n h = rw h refl

pub bits_lower : (f n : ℕ) → n ≤ f → 0 < n → 2 ^ bits_go f n ≤ 2 * n
unfolding bits_go
bits_lower zero n h p = absurd (omega arith)
bits_lower (suc f) n h p = elim (Bool-cases (n == 0)) [
  | inl e ↦ absurd (ground arith)
  | inr e ↦ rw e (elim (zero_or_pos (n / 2)) [
    | inl z ↦ omega (arith, pow-suc 2 (bits_go f (n / 2)), pow-bits_zero f (n / 2) z)
    | inr q ↦ omega (arith, pow-suc 2 (bits_go f (n / 2)), bits_lower f (n / 2) (omega arith) q)
  ])
]

pub bytes_bytes : (f n : ℕ) → AllBytes (bytes_go f n)
unfolding bytes_go
bytes_bytes zero n = tt
bytes_bytes (suc f) n = elim (Bool-cases (n == 0)) [
  | inl e ↦ rw e tt
  | inr e ↦ rw e (omega arith, bytes_bytes f (n / 256))
]

pub bytes_value : (f n : ℕ) → n ≤ f → le_value (bytes_go f n) ≡ n
unfolding bytes_go
bytes_value zero n h = omega arith
bytes_value (suc f) n h = elim (Bool-cases (n == 0)) [
  | inl e ↦ rw e (ground arith)
  | inr e ↦ rw e (omega (arith, bytes_value f (n / 256) small))
]
  where
    small : n / 256 ≤ f
    small = omega arith

abbrev len : ℕ → ℕ → ℕ
len f n = length (bytes_go f (n / 256))

pow-bytes_zero : (f n : ℕ) → n ≡ 0 → 256 ^ length (bytes_go f n) ≡ 1
unfolding bytes_go
pow-bytes_zero zero n h = refl
pow-bytes_zero (suc f) n h = rw h refl

pub bytes_minimal : (f n : ℕ) → n ≤ f → 0 < n → 256 ^ length (bytes_go f n) ≤ 256 * n
unfolding bytes_go
bytes_minimal zero n h p = absurd (omega arith)
bytes_minimal (suc f) n h p = elim (Bool-cases (n == 0)) [
  | inl e ↦ absurd (ground arith)
  | inr e ↦ rw e (elim (zero_or_pos (n / 256)) [
    | inl z ↦ omega (arith, pow-suc 256 (len f n), pow-bytes_zero f (n / 256) z)
    | inr q ↦ omega (arith, pow-suc 256 (len f n), bytes_minimal f (n / 256) (omega arith) q)
  ])
]

pub bytes_go_zero : bytes_go 0 0 ≡ []
unfolding bytes_go
bytes_go_zero = refl

-- GMP, digit by digit.
abbrev pub model : Gmp
model = record {
  sizeinbase2 = λ x. bits_go x x;
  sizeinbase2_lower = λ x p. bits_lower x x (le_refl x) p;
  sizeinbase2_upper = λ x. bits_upper x x (le_refl x);
  export = λ x. bytes_go x x;
  export_bytes = λ x. bytes_bytes x x;
  export_value = λ x. bytes_value x x (le_refl x);
  export_minimal = λ x p. bytes_minimal x x (le_refl x) p;
  export_zero = bytes_go_zero;
}

runs : (model.sizeinbase2 (2 ^ 300) ≡ 301) × (model.export 0x1234 ≡ 0x34 ∷ 0x12 ∷ [])
unfolding bits_go bytes_go
runs = (refl, refl)
