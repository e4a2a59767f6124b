-- ===== src/GapcoinWork/Submission/Nadd.antt =====
-- The nAdd field of a submitted block: trimming its zero bytes keeps the number.
use gap_miner_v.Prelude.{
  ℕ, zero, suc, ◌-◌, ◌/◌, ◌^◌, ◌≤◌, ◌<◌, ◌≡◌, ◌∙◌, ◌⊎◌, refl, sym, ap, arith, List, [], ◌∷◌, length,
  take, get_or, ◌==◌, if◌then◌else◌, Bool-cases, inl, inr, length-take,
}
use native.Mathlib.Nat.{pow-suc}
use gap_miner_v.Gmp.{le_value}
use gap_miner_v.GapcoinWork.Submission.{
  stripped_len, strip, nadd_or_zero, nadd_digits, build_submission, build_submission_bytes,
}
use gap_miner_v.GapcoinWork.Coinbase.{Template}
use gap_miner_v.GapcoinWork.Submission.Sizes.{stripped_len-le}

take-length : (bytes : List ℕ) → take (length bytes) bytes ≡ bytes
take-length [] = refl
take-length (b ∷ bytes) = rw (take-length bytes) refl

drop_zero :
    (bytes : List ℕ) (n : ℕ)
    → get_or bytes n 0 ≡ 0
    → le_value (take (suc n) bytes) ≡ le_value (take n bytes)
drop_zero [] zero e = refl
drop_zero [] (suc n) e = refl
drop_zero (b ∷ bytes) zero e = omega arith
drop_zero (b ∷ bytes) (suc n) e = omega (arith, drop_zero bytes n e)

stripped_value :
    (bytes : List ℕ) (n : ℕ)
    → le_value (take (stripped_len bytes n) bytes) ≡ le_value (take n bytes)
unfolding stripped_len
stripped_value bytes zero = refl
stripped_value bytes (suc zero) = refl
stripped_value bytes (suc (suc n)) = elim (Bool-cases (get_or bytes (suc n) 0 == 0)) [
  | inl zeros ↦
      rw zeros (stripped_value bytes (suc n) ∙ sym (drop_zero bytes (suc n) (ground arith)))
  | inr kept ↦ rw kept refl
]

-- What is left is one byte, or ends in a byte that is not 0.
stripped_top :
    (bytes : List ℕ) (n : ℕ)
    → (stripped_len bytes n ≤ 1) ⊎ (0 < get_or bytes (stripped_len bytes n - 1) 0)
unfolding stripped_len
stripped_top bytes zero = inl (omega arith)
stripped_top bytes (suc zero) = inl (omega arith)
stripped_top bytes (suc (suc n)) = elim (Bool-cases (get_or bytes (suc n) 0 == 0)) [
  | inl zeros ↦ rw zeros (stripped_top bytes (suc n))
  | inr kept ↦ rw kept (inr (ground arith))
]

get_or-take : (bytes : List ℕ) (n i : ℕ) → i < n → get_or (take n bytes) i 0 ≡ get_or bytes i 0
get_or-take bytes zero i h = elim h [ ]
get_or-take [] (suc n) i h = refl
get_or-take (b ∷ bytes) (suc n) zero h = refl
get_or-take (b ∷ bytes) (suc n) (suc i) h = get_or-take bytes n i (omega arith)

stripped_len-pos : (bytes : List ℕ) (n : ℕ) → 0 < n → 0 < stripped_len bytes n
unfolding stripped_len
stripped_len-pos bytes zero h = h
stripped_len-pos bytes (suc zero) h = h
stripped_len-pos bytes (suc (suc n)) h =
    ground (arith, stripped_len-pos bytes (suc n) (omega arith))

length-kept : (bytes : List ℕ) → length (strip bytes) ≡ stripped_len bytes (length bytes)
unfolding strip
length-kept bytes = omega (
  arith,
  length-take (stripped_len bytes (length bytes)) bytes,
  stripped_len-le bytes (length bytes),
)

strip_top :
    (bytes : List ℕ)
    → 0 < length bytes
    → (length (strip bytes) ≡ 1) ⊎ (0 < get_or (strip bytes) (length (strip bytes) - 1) 0)
strip_top bytes h = elim (stripped_top bytes (length bytes)) [
  | inl one ↦ inl (omega (arith, length-kept bytes, stripped_len-pos bytes (length bytes) h))
  | inr top ↦ inr (
      rw (length-kept bytes) (
        unfold strip in
        rw
          (get_or-take bytes (stripped_len bytes (length bytes))
            (stripped_len bytes (length bytes) - 1)
            (omega (arith, stripped_len-pos bytes (length bytes) h)))
          top))
]

nadd_or_zero-pos : (nadd : List ℕ) → 0 < length (nadd_or_zero nadd)
unfolding nadd_or_zero
nadd_or_zero-pos [] = omega arith
nadd_or_zero-pos (b ∷ nadd) = omega arith

nadd_value : (nadd : List ℕ) → le_value (nadd_or_zero nadd) ≡ le_value nadd
unfolding nadd_or_zero
nadd_value [] = refl
nadd_value (b ∷ nadd) = refl

strip_value : (bytes : List ℕ) → le_value (strip bytes) ≡ le_value bytes
unfolding strip
strip_value bytes = stripped_value bytes (length bytes) ∙ ap le_value (take-length bytes)

-- The trimmed nAdd is the same number as the caller's bytes, none for 0, and it is one byte or
-- ends in a byte that is not 0.
pub strip-nadd_or_zero :
    (nadd : List ℕ)
    → (le_value (strip (nadd_or_zero nadd)) ≡ le_value nadd)
      × ((length (strip (nadd_or_zero nadd)) ≡ 1)
          ⊎ (0 < get_or (strip (nadd_or_zero nadd)) (length (strip (nadd_or_zero nadd)) - 1) 0))
strip-nadd_or_zero nadd = (
  strip_value (nadd_or_zero nadd) ∙ nadd_value nadd,
  strip_top (nadd_or_zero nadd) (nadd_or_zero-pos nadd),
)

-- The bytes of a 64-bit nAdd are that number.
pub nadd_digits-le_value : (fuel n : ℕ) → n < 256 ^ fuel → le_value (nadd_digits fuel n) ≡ n
unfolding nadd_digits
nadd_digits-le_value zero n h = omega arith
nadd_digits-le_value (suc fuel) n h = elim (Bool-cases (n == 0)) [
  | inl none_left ↦ rw none_left (ground arith)
  | inr more ↦
      rw more
        (omega (arith, nadd_digits-le_value fuel (n / 2 ^ 8) (omega (arith, pow-suc 256 fuel))))
]

-- `gapcoin_gbt_work_build_submission` is `..._bytes` on bytes that stand for its 64-bit nAdd.
pub build_submission-nadd :
    (header_prefix : List ℕ) (header_nonce : ℕ) (tmpl : Template) (payout_hex : List ℕ)
    (shift nadd out_hex_cap : ℕ)
    → nadd < 2 ^ 64
    → (bytes : List ℕ) × (build_submission header_prefix header_nonce tmpl payout_hex shift nadd
          out_hex_cap
        ≡ build_submission_bytes header_prefix header_nonce tmpl payout_hex shift bytes out_hex_cap)
      × (le_value bytes ≡ nadd)
unfolding build_submission
build_submission-nadd header_prefix header_nonce tmpl payout_hex shift nadd out_hex_cap h = (
  if nadd == 0 then 0 ∷ [] else nadd_digits 8 nadd,
  refl,
  ground (arith, nadd_digits-le_value 8 nadd h),
)
