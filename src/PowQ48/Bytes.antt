-- ===== src/PowQ48/Bytes.antt =====
-- The byte handling of new_src/pow_q48.c: `q48_low64`, `q48_le_bytes`, and the header's `nDifficulty`.
pub mod Laws
use Prim.Native.Nat.{bit_or}
use gap_miner_v.Prelude.{
  ℕ, zero, suc, ◌+◌, ◌*◌, ◌/◌, ◌%◌, ◌^◌, List, [], ◌∷◌, u8, u64, get_or, if◌then◌else◌, ◌==◌,
}
use gap_miner_v.Gmp.{Gmp}

-- `for (i = 0; ...) result |= ((uint64_t)buf[i]) << (8 * i)`, from index `i` on.
pub or_bytes : ℕ → List ℕ → ℕ → ℕ
or_bytes i [] result = result
or_bytes i (b ∷ bs) result = or_bytes (i + 1) bs (bit_or result (u64 (b * 2 ^ (8 * i))))

-- `for (i = 0; i < 8; i++) buf[i] = (uint8_t)(init >> (8 * i))`, with `left` rounds to go.
pub init_bytes : ℕ → ℕ → ℕ → List ℕ
init_bytes zero i init = []
init_bytes (suc left) i init = u8 (init / 2 ^ (8 * i)) ∷ init_bytes left (i + 1) init

-- `for (i = 0; i < count && i < 8; i++) buf[i] = tmp[i]`: `buf` holds 8 bytes.
pub overwrite : List ℕ → List ℕ → List ℕ
overwrite [] tmp = []
overwrite (b ∷ buf) [] = b ∷ buf
overwrite (b ∷ buf) (t ∷ tmp) = t ∷ overwrite buf tmp

unfoldable pub low64 : Gmp → ℕ → ℕ → ℕ
unfolding or_bytes init_bytes overwrite
low64 g value init =
    let buf = init_bytes 8 0 init in
    or_bytes 0 (if value == 0 then buf else overwrite buf (g.export (value % 2 ^ 64))) 0

-- `q48_le_bytes`; what the allocator does is not modelled.
unfoldable pub le_bytes : Gmp → ℕ → List ℕ
le_bytes g value = g.export value

abbrev pub header_offset : ℕ
header_offset = 72

-- `for (i = 7; i >= 0; i--)`: the argument is `i + 1`.
unfoldable pub read_down : ℕ → List ℕ → ℕ → ℕ
read_down zero hdr80 value = value
read_down (suc i) hdr80 value =
    read_down i hdr80 (bit_or (u64 (value * 2 ^ 8)) (get_or hdr80 (header_offset + i) 0))

unfoldable pub target_from_header : List ℕ → ℕ
unfolding read_down
target_from_header hdr80 = read_down 8 hdr80 0
