-- ===== src/HalfClass/Classes.antt =====
-- The residue classes of new_src/halfclass.c.
use native.Mathlib.Nat.{pow-suc, pow-zero, mod-mod, mod-eq_of_lt}
use native.Mathlib.Decide.{dec_lt}
use gap_miner_v.Prelude.{
  ℕ, zero, suc, ◌+◌, ◌-◌, ◌*◌, ◌/◌, ◌%◌, ◌^◌, ◌<◌, ◌≡◌, ◌∙◌, refl, sym, ap, arith, Bool, true,
  false, not, ◌&&◌, ◌||◌, List, [], ◌∷◌, ◌==◌, u32, u64, if◌then◌else◌, Bool-cases, inl, inr,
}
use gap_miner_v.Prelude.Arith.{halved}
use gap_miner_v.Prelude.Mod.{pow-mod, mul-mod, add-mod}
use gap_miner_v.Gmp.{AllBytes}
use gap_miner_v.HalfClass.{
  class_mask60, visible_mask, hidden_mask, in_mask, hash_mod60, power_mod60, base_mod60, class_of,
}

abbrev same : Bool → Bool → Bool
same true b = b
same false b = not b

same-≡ : (a b : Bool) → same a b ≡ true → a ≡ b
same-≡ a b e = ground arith

abbrev pub coprime_to_60 : ℕ → Bool
coprime_to_60 x = (x % 2 == 1) && (not (x % 3 == 0) && not (x % 5 == 0))

-- A class is visible or hidden if it is coprime to 60, and not both.
splits_at : Bool → ℕ → Bool
unfolding in_mask visible_mask hidden_mask
splits_at quarter v =
    same (in_mask (visible_mask quarter) v || in_mask (hidden_mask quarter) v) (coprime_to_60 v)
    && not (in_mask (visible_mask quarter) v && in_mask (hidden_mask quarter) v)

splits_below : Bool → ℕ → Bool
unfolding splits_at
splits_below quarter zero = true
splits_below quarter (suc k) = splits_at quarter k && splits_below quarter k

splits_below-at :
    (quarter : Bool) (k v : ℕ) → v < k → splits_below quarter k ≡ true → splits_at quarter v ≡ true
unfolding splits_below
splits_below-at quarter zero v h e = absurd (omega arith)
splits_below-at quarter (suc k) v h e = elim (dec_lt v k) [
  | yes below ↦ splits_below-at quarter k v below (ground arith)
  | no here ↦ let f : v ≡ k = omega arith in rw f (ground arith)
]

all_split : (quarter : Bool) → splits_below quarter 60 ≡ true
unfolding splits_below splits_at in_mask visible_mask hidden_mask class_mask60
all_split true = refl
all_split false = refl

-- In both modes a class below 60 is visible or hidden exactly if it is coprime to 60, and never both.
pub classes_split :
    (quarter : Bool) (v : ℕ)
    → v < 60
    → ((in_mask (visible_mask quarter) v || in_mask (hidden_mask quarter) v) ≡ coprime_to_60 v)
      × ((in_mask (visible_mask quarter) v && in_mask (hidden_mask quarter) v) ≡ false)
unfolding splits_at
classes_split quarter v h =
    let e = splits_below-at quarter 60 v h (all_split quarter) in
    (
      same-≡ (in_mask (visible_mask quarter) v || in_mask (hidden_mask quarter) v) (coprime_to_60 v)
          (ground arith),
      ground arith,
    )

pub class_of_lem : (base offset : ℕ) → class_of (base % 60) offset ≡ (base + offset) % 60
unfolding class_of
class_of_lem base offset = omega arith

-- The number that big endian bytes stand for behind a number.
abbrev pub be_value : List ℕ → ℕ → ℕ
be_value [] value = value
be_value (byte ∷ bytes) value = be_value bytes (value * 256 + byte)

-- Bytes and a residue so far give the residue of the number that they stand for.
hash_mod60_lem :
    (h256 : List ℕ) (r value : ℕ)
    → AllBytes h256
    → r ≡ value % 60
    → hash_mod60 h256 r ≡ be_value h256 value % 60
unfolding hash_mod60
hash_mod60_lem [] r value bytes e = e
hash_mod60_lem (byte ∷ h256) r value bytes e =
    hash_mod60_lem h256 (u32 (u64 (u64 (r * 256) + byte) % 60)) (value * 256 + byte) bytes.1
      (omega (arith, bytes.0))

small_product : (a b : ℕ) → a < 60 → b < 60 → u32 (u64 (a * b) % 60) ≡ a * b % 60
small_product a b ha hb =
    let rest : a + (59 - a) ≡ 59 = omega arith in omega (arith, ap (λ (t : ℕ). t * b) rest)

power_mod60_lem :
    (fuel e p2 b : ℕ) → e < 2 ^ fuel → p2 < 60 → b < 60 → power_mod60 fuel e p2 b ≡ p2 * b ^ e % 60
unfolding power_mod60
power_mod60_lem zero e p2 b h hp hb =
    let none_left : e ≡ 0 = omega arith in rw (none_left, pow-zero b) (omega arith)
power_mod60_lem (suc fuel) e p2 b h hp hb = elim (Bool-cases (e == 0)) [
  | inl done ↦
      let none_left : e ≡ 0 = ground arith in rw (done, none_left, pow-zero b) (omega arith)
  | inr more ↦
      let square : u32 (u64 (b * b) % 60) ≡ b * b % 60 = small_product b b hb hb in
      rw (more, factor (e % 2 == 1), square)
        (power_mod60_lem fuel (e / 2) ((if e % 2 == 1 then p2 * b else p2) % 60) (b * b % 60)
            (omega (arith, pow-suc 2 fuel)) (omega arith) (omega arith)
          ∙ (mul-mod ((if e % 2 == 1 then p2 * b else p2) % 60) ((b * b % 60) ^ (e / 2))
                (if e % 2 == 1 then p2 * b else p2) ((b * b) ^ (e / 2)) 60
                (mod-mod (if e % 2 == 1 then p2 * b else p2) 60) (pow-mod (b * b) (e / 2) 60)
              ∙ ap (λ (t : ℕ). t % 60) (halved p2 b e)))
]
  where
    factor :
        (t : Bool) → (if t then u32 (u64 (p2 * b) % 60) else p2) ≡ (if t then p2 * b else p2) % 60
    factor true = small_product p2 b hp hb
    factor false = sym (mod-eq_of_lt hp)

-- For bytes and a shift of 32 bits, `halfclass_base_mod60` is the big endian number of the bytes,
-- shifted, plus the start of the window, modulo 60.
pub base_mod60_lem :
    (h256 : List ℕ) (shift window_start : ℕ)
    → AllBytes h256
    → shift < 2 ^ 32
    → base_mod60 h256 shift window_start ≡ (be_value h256 0 * 2 ^ shift + window_start) % 60
unfolding base_mod60
base_mod60_lem h256 shift window_start bytes h =
    reduced (hash_mod60 h256 0) (power_mod60 32 shift 1 2) (omega (arith, hash))
      (omega (arith, power))
    ∙ add-mod (hash_mod60 h256 0 * power_mod60 32 shift 1 2) window_start
        (be_value h256 0 * 2 ^ shift) window_start 60
        (mul-mod (hash_mod60 h256 0) (power_mod60 32 shift 1 2) (be_value h256 0) (2 ^ shift) 60
          (omega (arith, hash)) (omega (arith, power)))
        refl
  where
    hash : hash_mod60 h256 0 ≡ be_value h256 0 % 60
    hash = hash_mod60_lem h256 0 0 bytes refl

    power : power_mod60 32 shift 1 2 ≡ 1 * 2 ^ shift % 60
    power = power_mod60_lem 32 shift 1 2 h (omega arith) (omega arith)

    reduced :
        (a b : ℕ)
        → a < 60
        → b < 60
        → u32 (u64 (u64 (a * b) + window_start % 60) % 60) ≡ (a * b + window_start) % 60
    reduced a b ha hb =
        let rest : a + (59 - a) ≡ 59 = omega arith in omega (arith, ap (λ (t : ℕ). t * b) rest)
