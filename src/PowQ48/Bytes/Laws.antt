-- ===== src/PowQ48/Bytes/Laws.antt =====
-- What the byte loops compute: remainders, and little endian values.
use Prim.Native.Nat.{bit_or}
use native.Mathlib.Decide.{dec_le}
use native.Mathlib.Nat.{pow-le-pow_right, mul-le-mul, mod-eq_of_lt, le_refl}
use gap_miner_v.Prelude.{
  ℕ, zero, suc, ◌+◌, ◌*◌, ◌%◌, ◌^◌, ◌≤◌, ◌<◌, ◌≡◌, refl, ap, ◌∙◌, arith, List, [], ◌∷◌, u64,
  replicate, length, if◌then◌else◌, ◌==◌, suc-==-zero,
}
use gap_miner_v.Prelude.Arith.{pow_add}
use gap_miner_v.Prelude.Bits.{bit_or_low}
use gap_miner_v.Gmp.{Gmp, le_value, AllBytes}
use gap_miner_v.PowQ48.Bytes.{or_bytes, init_bytes, overwrite, low64}

small_place : (i b : ℕ) → i < 8 → b < 256 → b * 2 ^ (8 * i) < 2 ^ 64
small_place i b h hb =
    let top : 2 ^ (8 * i) ≤ 2 ^ 56 =
      pow-le-pow_right {n = 2} (omega arith) {j = 56} (omega arith) in
    let digit : b ≤ 255 = omega arith in omega (arith, mul-le-mul digit top)

or_byte :
    (i b r : ℕ)
    → i < 8
    → b < 256
    → r < 2 ^ (8 * i)
    → bit_or r (u64 (b * 2 ^ (8 * i))) ≡ b * 2 ^ (8 * i) + r
or_byte i b r h hb hr = rw (mod-eq_of_lt (small_place i b h hb)) (bit_or_low (8 * i) b r hr)

next_place : (i : ℕ) → 2 ^ (8 * (i + 1)) ≡ 2 ^ (8 * i) * 256
next_place i = let e : 8 * (i + 1) ≡ 8 * i + 8 = omega arith in rw (e, pow_add 2 (8 * i) 8) refl

-- Bytes joined by `|` at their places are summed.
pub or_bytes_lem :
    (i : ℕ) (bs : List ℕ) (r : ℕ)
    → i + length bs ≤ 8
    → AllBytes bs
    → r < 2 ^ (8 * i)
    → or_bytes i bs r ≡ r + 2 ^ (8 * i) * le_value bs
unfolding or_bytes
or_bytes_lem i [] r h ok hr = omega arith
or_bytes_lem i (b ∷ bs) r h ok hr = rw (or_byte i b r (omega arith) ok.0 hr) (
    or_bytes_lem (i + 1) bs (b * 2 ^ (8 * i) + r) (omega arith) ok.1 fits
    ∙ rw (next_place i) (omega arith))
  where
    digit : b < 256 → b ≤ 255
    digit l = omega arith

    fits : b * 2 ^ (8 * i) + r < 2 ^ (8 * (i + 1))
    fits = omega (
      arith,
      next_place i,
      hr,
      mul-le-mul {n₁ = b} {n₂ = 255} (digit ok.0) (le_refl (2 ^ (8 * i))),
    )

overwrite_zeros :
    (n : ℕ) (tmp : List ℕ)
    → length tmp ≤ n
    → le_value (overwrite (replicate n 0) tmp) ≡ le_value tmp
unfolding overwrite
overwrite_zeros zero [] h = refl
overwrite_zeros zero (t ∷ tmp) h = absurd (omega arith)
overwrite_zeros (suc n) [] h = omega (arith, zeros n)
  where
    zeros : (k : ℕ) → le_value (replicate k 0) ≡ 0
    zeros zero = refl
    zeros (suc k) = omega (arith, zeros k)
overwrite_zeros (suc n) (t ∷ tmp) h = omega (arith, overwrite_zeros n tmp (omega arith))

overwrite_bytes : (buf tmp : List ℕ) → AllBytes buf → AllBytes tmp → AllBytes (overwrite buf tmp)
unfolding overwrite
overwrite_bytes [] tmp h k = tt
overwrite_bytes (b ∷ buf) [] h k = h
overwrite_bytes (b ∷ buf) (t ∷ tmp) h k = (k.0, overwrite_bytes buf tmp h.1 k.1)

length-overwrite : (buf tmp : List ℕ) → length (overwrite buf tmp) ≡ length buf
unfolding overwrite
length-overwrite [] tmp = refl
length-overwrite (b ∷ buf) [] = refl
length-overwrite (b ∷ buf) (t ∷ tmp) = ap suc (length-overwrite buf tmp)

module _ (g : Gmp) where
  -- A value below 2^64 is exported in at most 8 bytes.
  length-export : (v : ℕ) → v < 2 ^ 64 → length (g.export v) ≤ 8
  length-export zero h = rw (g.export_zero) (omega arith)
  length-export (suc v) h = elim (dec_le (length (g.export (suc v))) 8) [
    | yes l ↦ l
    | no l ↦ absurd (omega (arith, g.export_minimal (suc v) (omega arith), longer (omega arith)))
  ]
    where
      longer : 9 ≤ length (g.export (suc v)) → 256 ^ 9 ≤ 256 ^ length (g.export (suc v))
      longer k = pow-le-pow_right {n = 256} (omega arith) k

  low_bytes :
      (init : ℕ) (v : ℕ)
      → low64 g v init ≡ or_bytes 0 (overwrite (init_bytes 8 0 init) (g.export (v % 2 ^ 64))) 0
  unfolding low64
  low_bytes init zero = rw (g.export_zero) refl
  low_bytes init (suc v) = rw (suc-==-zero v) refl

  low_value :
      (init v : ℕ)
      → AllBytes (init_bytes 8 0 init)
      → low64 g v init ≡ le_value (overwrite (init_bytes 8 0 init) (g.export (v % 2 ^ 64)))
  low_value init v ok =
      low_bytes init v
      ∙ (or_bytes_lem 0 bytes 0
            (omega (arith, size, length-overwrite (init_bytes 8 0 init) (g.export (v % 2 ^ 64))))
            (overwrite_bytes (init_bytes 8 0 init) (g.export (v % 2 ^ 64)) ok
              (g.export_bytes (v % 2 ^ 64)))
            (omega arith)
          ∙ omega arith)
    where
      bytes : List ℕ
      bytes = overwrite (init_bytes 8 0 init) (g.export (v % 2 ^ 64))

      size : length (init_bytes 8 0 init) ≤ 8
      size = unfold init_bytes in omega arith

  -- With the initialiser 0: the low 64 bits.
  pub low64-zero : (v : ℕ) → low64 g v 0 ≡ v % 2 ^ 64
  unfolding init_bytes
  low64-zero v =
      low_value 0 v (omega arith)
      ∙ overwrite_zeros 8 (g.export (v % 2 ^ 64)) (length-export (v % 2 ^ 64) (omega arith))
      ∙ g.export_value (v % 2 ^ 64)

  overwrite_one :
      (x : ℕ) (tmp : List ℕ)
      → length tmp ≤ 8
      → le_value tmp ≡ suc x
      → le_value (overwrite (init_bytes 8 0 1) tmp) ≡ suc x
  unfolding init_bytes overwrite
  overwrite_one x [] h e = absurd (omega arith)
  overwrite_one x (t ∷ tmp) h e = omega (arith, overwrite_zeros 7 tmp (omega arith), e)

  overwrite_low :
      (x : ℕ)
      → x < 2 ^ 64
      → le_value (overwrite (init_bytes 8 0 1) (g.export x)) ≡ (if x == 0 then 1 else x)
  overwrite_low zero h = rw (g.export_zero) (unfold init_bytes overwrite in refl)
  overwrite_low (suc x) h =
      rw (suc-==-zero x)
        (overwrite_one x (g.export (suc x)) (length-export (suc x) h) (g.export_value (suc x)))

  -- With the initialiser 1: the low 64 bits, or 1 where these are all 0.
  pub low64-one : (v : ℕ) → low64 g v 1 ≡ (if v % 2 ^ 64 == 0 then 1 else v % 2 ^ 64)
  low64-one v =
      low_value 1 v (unfold init_bytes in omega arith) ∙ overwrite_low (v % 2 ^ 64) (omega arith)
