-- ===== src/GapcoinWork/Encode/Inverse.antt =====
-- Hex text and the compact sizes, read back.
use Prim.Native.Nat.{bit_or}
use gap_miner_v.Prelude.{
  ℕ, ◌*◌, ◌/◌, ◌%◌, ◌^◌, ◌≤◌, ◌<◌, ◌≡◌, refl, arith, Bool, Option, none, some, List, [], ◌∷◌, ◌++◌,
  u8, u32, length, take, drop, Bool-cases, Option-cases, length-append, inl, inr, ltb, leb, ◌==◌,
  if◌then◌else◌,
}
use gap_miner_v.Prelude.Bits.{bit_or_high, bit_and_nibble}
use gap_miner_v.Gmp.{le_value, AllBytes}
use gap_miner_v.GapcoinWork.Encode.{
  bind-some, hex_nibble, digit, decode_pairs, decode_hex, bytes_to_hex, write_compact_size,
  write_le32, write_le64, le_from,
}
use mathlib.Core.List.{reverse, reverse-cons}

hex_nibble-digit : (i : ℕ) → i < 16 → hex_nibble (digit i) ≡ some i
unfolding hex_nibble digit
hex_nibble-digit i h = ground arith

pub length-bytes_to_hex : (bs : List ℕ) → length (bytes_to_hex bs) ≡ length bs * 2
unfolding bytes_to_hex
length-bytes_to_hex [] = refl
length-bytes_to_hex (b ∷ bs) = omega (arith, length-bytes_to_hex bs)

nibbles : (b : ℕ) → b < 256 → u8 (bit_or (b / 2 ^ 4 * 2 ^ 4) (b % 16)) ≡ b
nibbles b h = omega (arith, bit_or_high 4 (b / 2 ^ 4) (b % 16) (omega arith))

decode_pairs-bytes_to_hex : (bs : List ℕ) → AllBytes bs → decode_pairs (bytes_to_hex bs) ≡ some bs
unfolding decode_pairs bytes_to_hex
decode_pairs-bytes_to_hex [] ok = refl
decode_pairs-bytes_to_hex (b ∷ bs) (h, ok) =
    rw
      (
        bit_and_nibble b,
        hex_nibble-digit (b / 2 ^ 4) (omega arith),
        hex_nibble-digit (b % 16) (omega arith),
        decode_pairs-bytes_to_hex bs ok,
        nibbles b h,
      )
      refl

-- `decode_hex` reads back what `bytes_to_hex` writes, in either order.
pub decode_hex-bytes_to_hex :
    (bs : List ℕ) (backwards : Bool)
    → AllBytes bs
    → decode_hex (bytes_to_hex bs) (length bs) backwards
      ≡ some (if backwards then reverse bs else bs)
unfolding decode_hex
decode_hex-bytes_to_hex bs backwards ok =
    rw (length-bytes_to_hex bs, decode_pairs-bytes_to_hex bs ok) (ground arith)

length-decode_pairs :
    (hex : List ℕ) {bytes : List ℕ} → decode_pairs hex ≡ some bytes → length bytes * 2 ≡ length hex
unfolding decode_pairs
length-decode_pairs [] e = ground arith
length-decode_pairs (c ∷ []) e = ground arith
length-decode_pairs (c ∷ d ∷ hex) e =
    let (high, _, e1) = bind-some (hex_nibble c) (λ high. _) e in
    let (low, _, e2) = bind-some (hex_nibble d) (λ low. _) e1 in
    let (bytes, made, e3) = bind-some (decode_pairs hex) (λ bytes. _) e2 in
    ground (arith, length-decode_pairs hex made)

length-reverse : (bytes : List ℕ) → length (reverse bytes) ≡ length bytes
length-reverse [] = refl
length-reverse (b ∷ bytes) =
    rw (reverse-cons b bytes, length-append (reverse bytes) (b ∷ []))
      (omega (arith, length-reverse bytes))

-- A decoded text has the bytes that were asked for.
pub length-decode_hex :
    (hex : List ℕ) (n : ℕ) (backwards : Bool) {bytes : List ℕ}
    → decode_hex hex n backwards ≡ some bytes
    → length bytes ≡ n
unfolding decode_hex
length-decode_hex hex n backwards e = elim (Option-cases (decode_pairs hex)) [
  | inl fails ↦ ground arith
  | inr (bytes, made) ↦ ground (arith, length-decode_pairs hex made, length-reverse bytes)
]

-- The next `k` bytes as a number, and what follows them.
abbrev pub read_value : ℕ → List ℕ → Option (ℕ × List ℕ)
read_value k bytes =
    if leb k (length bytes) then some (le_value (take k bytes), drop k bytes) else none

-- The CompactSize of Bitcoin's serialization format, read: the number and what follows it.
abbrev pub read_compact_size : List ℕ → Option (ℕ × List ℕ)
read_compact_size [] = none
read_compact_size (b ∷ rest) =
    if ltb b 0xfd
    then some (b, rest)
    else if b == 0xfd
    then read_value 2 rest
    else if b == 0xfe
    then read_value 4 rest
    else read_value 8 rest

pub le_value-write_le32 : (v : ℕ) → v < 2 ^ 32 → le_value (write_le32 v) ≡ v
unfolding write_le32
le_value-write_le32 v h = omega arith

pub le_value-write_le64 : (v : ℕ) → v < 2 ^ 64 → le_value (write_le64 v) ≡ v
unfolding write_le64 le_from
le_value-write_le64 v h = omega arith

read_enough :
    (k v : ℕ) (bytes : List ℕ) {rest : List ℕ}
    → k ≤ length bytes
    → drop k bytes ≡ rest
    → le_value (take k bytes) ≡ v
    → read_value k bytes ≡ some (v, rest)
read_enough k v bytes h e f = rw (e, f) (ground arith)

-- A reader of the format gets back a written 64-bit number and all that follows it.
pub read_compact_size-write_compact_size :
    (v : ℕ) (rest : List ℕ)
    → v < 2 ^ 64
    → read_compact_size (write_compact_size v ++ rest) ≡ some (v, rest)
unfolding write_compact_size write_le32 write_le64 le_from
read_compact_size-write_compact_size v rest h = elim (Bool-cases (ltb v 0xfd)) [
  | inl one ↦ let e : u8 v ≡ v = ground arith in rw (one, e, one) refl
  | inr more ↦ elim (Bool-cases (leb v 0xffff)) [
    | inl two ↦
        rw (more, two)
          (read_enough 2 v (u8 v ∷ u8 (v / 2 ^ 8) ∷ rest) (omega arith) refl (ground arith))
    | inr two ↦ elim (Bool-cases (leb v 0xffffffff)) [
      | inl four ↦
          rw (more, two, four)
            (read_enough 4 v (write_le32 (u32 v) ++ rest) (omega arith) refl (ground arith))
      | inr eight ↦
          rw (more, two, eight)
            (read_enough 8 v (write_le64 v ++ rest) (omega arith) refl (omega arith))
    ]
  ]
]
