-- ===== src/GapcoinWork/Encode.antt =====
-- The byte encodings of new_src/gapcoin_work.c. A byte or a character is a number.

pub mod Inverse
use Prim.Native.Nat.{bit_and, bit_or}
use gap_miner_v.Prelude.{
  ℕ, zero, suc, ◌+◌, ◌-◌, ◌*◌, ◌/◌, ◌%◌, ◌^◌, ◌≡◌, refl, Bool, true, false, ◌&&◌, Option, none,
  some, List, [], ◌∷◌, ◌++◌, ltb, leb, ◌==◌, u8, u16, u32, length, get_or, arith, if◌then◌else◌,
}
use mathlib.Core.List.{reverse}

infixl 5 ◌>>=◌
abbrev pub ◌>>=◌ {ℓ κ} : {A : Type ℓ} {B : Type κ} → Option A → (A → Option B) → Option B
none >>= f = none
some a >>= f = f a

-- A chain that succeeds has a first step that does.
pub bind-some {ℓ κ} :
    {A : Type ℓ} {B : Type κ} (o : Option A) (f : A → Option B) {b : B}
    → (o >>= f) ≡ some b
    → (a : A) × (o ≡ some a) × (f a ≡ some b)
bind-some none f e = ground arith
bind-some (some a) f e = (a, refl, e)

unfoldable pub write_le32 : ℕ → List ℕ
write_le32 value = u8 value ∷ u8 (value / 2 ^ 8) ∷ u8 (value / 2 ^ 16) ∷ u8 (value / 2 ^ 24) ∷ []

-- `for (index = 0; index < 8; index++)`, with `left` rounds to go.
unfoldable pub le_from : ℕ → ℕ → ℕ → List ℕ
le_from zero index value = []
le_from (suc left) index value = u8 (value / 2 ^ (index * 8)) ∷ le_from left (index + 1) value

unfoldable pub write_le64 : ℕ → List ℕ
unfolding le_from
write_le64 value = le_from 8 0 value

-- `none` is -1.
unfoldable pub hex_nibble : ℕ → Option ℕ
hex_nibble c =
    if leb b'0' c && leb c b'9'
    then some (c - b'0')
    else if leb b'a' c && leb c b'f'
    then some (c - b'a' + 10)
    else if leb b'A' c && leb c b'F'
    then some (c - b'A' + 10)
    else none

-- The loop of `decode_hex` over pairs of characters, in the order of the text.
unfoldable pub decode_pairs : List ℕ → Option (List ℕ)
unfolding hex_nibble
decode_pairs [] = some []
decode_pairs (c ∷ []) = none
decode_pairs (c ∷ d ∷ rest) = do
  high ← hex_nibble c
  low ← hex_nibble d
  bytes ← decode_pairs rest
  some (u8 (bit_or (high * 2 ^ 4) low) ∷ bytes)

-- With `reverse` the bytes are stored from the end.
unfoldable pub decode_hex : List ℕ → ℕ → Bool → Option (List ℕ)
unfolding decode_pairs
decode_hex hex output_size backwards =
    if length hex == output_size * 2
    then (do bytes ← decode_pairs hex; some (if backwards then reverse bytes else bytes))
    else none

-- The loop of `encode_height`; a 32-bit height has at most 4 bytes.
unfoldable pub height_bytes : ℕ → ℕ → List ℕ
height_bytes zero height = []
height_bytes (suc fuel) height =
    let more = height_bytes fuel (height / 2 ^ 8) in
    if height / 2 ^ 8 == 0 then u8 height ∷ [] else u8 height ∷ more

-- `if (output[size - 1U] & 0x80U) output[size++] = 0`
unfoldable pub pad_sign : List ℕ → List ℕ
pad_sign bytes =
    if bit_and (get_or bytes (length bytes - 1) 0) 0x80 == 0 then bytes else bytes ++ (0 ∷ [])

unfoldable pub encode_height : ℕ → List ℕ
unfolding height_bytes pad_sign
encode_height height = pad_sign (height_bytes 4 height)

unfoldable pub write_compact_size : ℕ → List ℕ
unfolding write_le32 write_le64
write_compact_size value =
    if ltb value 0xfd
    then u8 value ∷ []
    else if leb value 0xffff
    then 0xfd ∷ u8 value ∷ u8 (value / 2 ^ 8) ∷ []
    else if leb value 0xffffffff
    then 0xfe ∷ write_le32 (u32 value)
    else 0xff ∷ write_le64 value

-- `digits[i]` of "0123456789abcdef".
unfoldable pub digit : ℕ → ℕ
digit i = if ltb i 10 then b'0' + i else b'a' + (i - 10)

unfoldable pub bytes_to_hex : List ℕ → List ℕ
unfolding digit
bytes_to_hex [] = []
bytes_to_hex (b ∷ rest) = digit (b / 2 ^ 4) ∷ digit (bit_and b 0x0f) ∷ bytes_to_hex rest
