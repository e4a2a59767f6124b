-- ===== src/Primality/Window/Reads.antt =====
-- The windows of the exponent's bits: cpu_get_bits4 and cpu_get_bits_w of new_src/primality_limbs.c.
use Prim.Native.Nat.{bit_or, bit_and}
use native.Mathlib.Nat.{
  div-div-eq-div-mul, mod-eq_of_lt, mod-lt, pow-suc, div-add-mod', mul-le-mul, le_refl,
  pow-le-pow_right,
}
use gap_miner_v.Prelude.{
  ℕ, zero, suc, ◌+◌, ◌-◌, ◌*◌, ◌/◌, ◌%◌, ◌^◌, ◌≤◌, ◌<◌, ◌≡◌, ◌∙◌, ◌⊎◌, inl, inr, refl, sym, ap,
  arith, true, false, List, ltb, leb, u32, u64, get_or, if◌then◌else◌, ltb-false,
}
use gap_miner_v.Prelude.Arith.{pow_add, pow-pos}
use gap_miner_v.Prelude.Mod.{mod-eq_of_multiples}
use gap_miner_v.Prelude.Bits.{bit_or_low, bit_and_nibble}
use gap_miner_v.Primality.Limbs.Value.{value, AllWords}
use gap_miner_v.Primality.Limbs.Radix.{word_of}
use gap_miner_v.Primality.Limbs.{max_limbs}
use gap_miner_v.Primality.Window.{get_bits4, bits_from, get_bits_w}
use gap_miner_v.Primality.Window.Bits.{limb_bits, bit_at, next_bits, last_bits, place}

-- The low `j` bits with the bits above them out of another limb.
joined : (j a b q r : ℕ) → a ≡ r → b ≡ q * 2 ^ j → r < 2 ^ j → bit_or a b ≡ r + q * 2 ^ j
joined j a b q r ea eb h = rw (ea, eb) (bit_or_low j q r h ∙ omega arith)

nibble : ℕ → ℕ
nibble x = bit_and (u32 x) 0x0f

nibble_lem : (x : ℕ) → nibble x ≡ x % 16
unfolding nibble
nibble_lem x = bit_and_nibble (u32 x) ∙ omega arith

-- The last bits of a limb and the first bits of the next are four bits of the number.
straddle_1 :
    (x h v : ℕ)
    → x < 2
    → x ≡ v % 2
    → h % 8 ≡ v / 2 % 8
    → bit_or (nibble x) (nibble (u64 (h * 2))) ≡ v % 16
straddle_1 x h v hx low high =
    rw (nibble_lem x, nibble_lem (u64 (h * 2)))
      (joined 1 (x % 16) (u64 (h * 2) % 16) (h % 8) x (omega arith) (omega arith) hx ∙ omega arith)

straddle_2 :
    (x h v : ℕ)
    → x < 4
    → x ≡ v % 4
    → h % 4 ≡ v / 4 % 4
    → bit_or (nibble x) (nibble (u64 (h * 4))) ≡ v % 16
straddle_2 x h v hx low high =
    rw (nibble_lem x, nibble_lem (u64 (h * 4)))
      (joined 2 (x % 16) (u64 (h * 4) % 16) (h % 4) x (omega arith) (omega arith) hx ∙ omega arith)

straddle_3 :
    (x h v : ℕ)
    → x < 8
    → x ≡ v % 8
    → h % 2 ≡ v / 8 % 2
    → bit_or (nibble x) (nibble (u64 (h * 8))) ≡ v % 16
straddle_3 x h v hx low high =
    rw (nibble_lem x, nibble_lem (u64 (h * 8)))
      (joined 3 (x % 16) (u64 (h * 8) % 16) (h % 2) x (omega arith) (omega arith) hx ∙ omega arith)

abbrev bits4_at : List ℕ → ℕ → ℕ → ℕ
bits4_at e limb off =
    let w = nibble (get_or e limb 0 / 2 ^ off) in
    let high = nibble (u64 (get_or e (limb + 1) 0 * 2 ^ (64 - off))) in
    if ltb 60 off then (if ltb (limb + 1) max_limbs then bit_or w high else w) else w

get_bits4_body : (e : List ℕ) (bit : ℕ) → get_bits4 e bit ≡ bits4_at e (bit / 64) (bit % 64)
unfolding get_bits4 nibble
get_bits4_body e bit = refl

off_cases : (off : ℕ) → off < 64 → (off ≤ 60) ⊎ ((off ≡ 61) ⊎ ((off ≡ 62) ⊎ (off ≡ 63)))
off_cases off h = omega arith

bits4_at_lem :
    (e : List ℕ) (limb off : ℕ)
    → AllWords e
    → off < 64
    → 64 * limb + off + 4 ≤ 64 * max_limbs
    → bits4_at e limb off ≡ value e / 2 ^ (64 * limb + off) % 16
bits4_at_lem e limb off he h room = elim (off_cases off h) [
  | inl low ↦
      rw (ltb-false 60 off low, nibble_lem (get_or e limb 0 / 2 ^ off))
        (limb_bits e limb off 4 (60 - off) he (omega arith))
  | inr (inl at_61) ↦
      let inside : ltb (limb + 1) max_limbs ≡ true = ground arith in
      let word : get_or e limb 0 / 2 ^ 61 < 2 ^ 3 = omega (arith, word_of e limb he) in
      rw (at_61, inside)
        (straddle_3 (get_or e limb 0 / 2 ^ 61) (get_or e (limb + 1) 0)
          (value e / 2 ^ (64 * limb + 61)) word (last_bits e limb 61 3 he refl word)
          (next_bits e limb 61 3 1 63 he refl refl))
  | inr (inr (inl at_62)) ↦
      let inside : ltb (limb + 1) max_limbs ≡ true = ground arith in
      let word : get_or e limb 0 / 2 ^ 62 < 2 ^ 2 = omega (arith, word_of e limb he) in
      rw (at_62, inside)
        (straddle_2 (get_or e limb 0 / 2 ^ 62) (get_or e (limb + 1) 0)
          (value e / 2 ^ (64 * limb + 62)) word (last_bits e limb 62 2 he refl word)
          (next_bits e limb 62 2 2 62 he refl refl))
  | inr (inr (inr at_63)) ↦
      let inside : ltb (limb + 1) max_limbs ≡ true = ground arith in
      let word : get_or e limb 0 / 2 ^ 63 < 2 ^ 1 = omega (arith, word_of e limb he) in
      rw (at_63, inside)
        (straddle_1 (get_or e limb 0 / 2 ^ 63) (get_or e (limb + 1) 0)
          (value e / 2 ^ (64 * limb + 63)) word (last_bits e limb 63 1 he refl word)
          (next_bits e limb 63 1 3 61 he refl refl))
]

-- Four bits, also where they straddle two limbs.
pub get_bits4_lem :
    (e : List ℕ) (bit : ℕ)
    → AllWords e
    → bit + 4 ≤ 64 * max_limbs
    → get_bits4 e bit ≡ value e / 2 ^ bit % 2 ^ 4
get_bits4_lem e bit he room =
    get_bits4_body e bit
    ∙ (bits4_at_lem e (bit / 64) (bit % 64) he (omega arith) (omega arith)
        ∙ ap (λ (t : ℕ). value e / 2 ^ t % 16) (place bit))

mod_split : (y p : ℕ) → 0 < p → y % (2 * p) ≡ y % p + p * (y / p % 2)
mod_split y p pos =
    let whole = div-add-mod' y p in
    let half : y / p ≡ 2 * (y / p / 2) + y / p % 2 = omega arith in
    let scaled = ap (λ (t : ℕ). t * p) half in
    let bit : p * (y / p % 2) ≤ p * 1 =
      let l : y / p % 2 ≤ 1 = omega arith in mul-le-mul (le_refl p) l in
    mod-eq_of_multiples y (y % p + p * (y / p % 2)) 0 (y / p / 2) (2 * p)
      (omega (arith, whole, scaled))
    ∙ mod-eq_of_lt (omega (arith, bit, mod-lt y pos))

-- One more bit.
one_more :
    (y k bit : ℕ)
    → k < 32
    → bit ≡ y / 2 ^ k % 2
    → bit_or (y % 2 ^ k) (u32 (bit * 2 ^ k)) ≡ y % 2 ^ suc k
one_more y k bit h e =
    let pos = pow-pos k in
    let l : k ≤ 31 = omega arith in
    let room : 2 ^ k ≤ 2 ^ 31 = pow-le-pow_right (omega arith) l in
    let low : bit ≤ 1 = omega (arith, e) in
    let least : bit * 2 ^ k ≤ 1 * 2 ^ k = mul-le-mul low (le_refl (2 ^ k)) in
    let word : u32 (bit * 2 ^ k) ≡ bit * 2 ^ k = omega (arith, room, least) in
    rw word (
      bit_or_low k bit (y % 2 ^ k) (mod-lt y pos)
      ∙ (omega (arith, ap (λ (t : ℕ). t * 2 ^ k) e)
          ∙ (sym (mod_split y (2 ^ k) pos) ∙ ap (λ (t : ℕ). y % t) (omega (arith, pow-suc 2 k)))))

bits_from_lem :
    (e : List ℕ) (bit_lo nlimbs count k w : ℕ)
    → AllWords e
    → bit_lo + k + count ≤ 64 * nlimbs
    → k + count ≤ 32
    → w ≡ value e / 2 ^ bit_lo % 2 ^ k
    → bits_from e bit_lo nlimbs count k w ≡ value e / 2 ^ bit_lo % 2 ^ (k + count)
unfolding bits_from
bits_from_lem e bit_lo nlimbs zero k w he room small h =
    let z : k ≡ k + 0 = omega arith in h ∙ ap (λ (t : ℕ). value e / 2 ^ bit_lo % 2 ^ t) z
bits_from_lem e bit_lo nlimbs (suc count) k w he room small h =
    let more : leb nlimbs ((bit_lo + k) / 64) ≡ false = ground arith in
    let bit = get_or e ((bit_lo + k) / 64) 0 / 2 ^ ((bit_lo + k) % 64) % 2 in
    let here : bit ≡ value e / 2 ^ bit_lo / 2 ^ k % 2 =
      bit_at e (bit_lo + k) he
      ∙ (ap (λ (t : ℕ). value e / t % 2) (pow_add 2 bit_lo k)
          ∙ ap (λ (t : ℕ). t % 2) (sym (div-div-eq-div-mul (value e) (2 ^ bit_lo) (2 ^ k)))) in
    let next : bit_or w (u32 (bit * 2 ^ k)) ≡ value e / 2 ^ bit_lo % 2 ^ (k + 1) =
      ap (λ (t : ℕ). bit_or t (u32 (bit * 2 ^ k))) h
      ∙ (one_more (value e / 2 ^ bit_lo) k bit (omega arith) here
          ∙ ap (λ (t : ℕ). value e / 2 ^ bit_lo % 2 ^ t) (omega arith)) in
    let turn : k + 1 + count ≡ k + suc count = omega arith in
    rw more (
      bits_from_lem e bit_lo nlimbs count (k + 1) (bit_or w (u32 (bit * 2 ^ k))) he (omega arith)
        (omega arith) next
      ∙ ap (λ (t : ℕ). value e / 2 ^ bit_lo % 2 ^ t) turn)

-- The bits of a window of another size.
pub get_bits_w_lem :
    (e : List ℕ) (bit_lo win_bits nlimbs : ℕ)
    → AllWords e
    → bit_lo + win_bits ≤ 64 * nlimbs
    → win_bits ≤ 32
    → get_bits_w e bit_lo win_bits nlimbs ≡ value e / 2 ^ bit_lo % 2 ^ win_bits
unfolding get_bits_w
get_bits_w_lem e bit_lo win_bits nlimbs he room small =
    bits_from_lem e bit_lo nlimbs win_bits 0 0 he (omega arith) (omega arith) (omega arith)
    ∙ ap (λ (t : ℕ). value e / 2 ^ bit_lo % 2 ^ t) (omega arith)
