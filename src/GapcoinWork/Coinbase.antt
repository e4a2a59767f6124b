-- ===== src/GapcoinWork/Coinbase.antt =====
-- The coinbase transaction of new_src/gapcoin_work.c and the merkle root over it. The allocator is
-- assumed to give memory. `g_payout_script_hex` is an argument; SHA-256 is a parameter.
pub mod Merkle
use gap_miner_v.Prelude.{
  ℕ, zero, suc, ◌+◌, ◌-◌, ◌*◌, ◌/◌, ◌%◌, Bool, true, false, ◌||◌, Option, none, some, List, [], ◌∷◌,
  ◌++◌, ltb, leb, ◌==◌, u8, uint32_max, length, replicate, if◌then◌else◌,
}
use gap_miner_v.GapcoinWork.Encode.{
  ◌>>=◌, write_le32, write_le64, decode_hex, encode_height, write_compact_size,
}

-- `struct block_template`, less the fields that this file does not read. The transactions are the
-- entries of `transaction_data`, `none` for a null pointer.
pub record Template : Type 0 where
  pub previousblockhash : Option (List ℕ)
  pub height : ℕ
  pub curtime : ℕ
  pub difficulty : ℕ
  pub coinbasevalue : ℕ
  pub coinbaseaux : Option (List ℕ)
  pub transaction_data : List (Option (List ℕ))
  pub version : ℕ

-- The script up to the flags: the height's length, the height, and OP_0.
unfoldable pub height_script : ℕ → List ℕ
height_script height = let bytes = encode_height height in (u8 (length bytes) ∷ bytes) ++ (0 ∷ [])

-- The flags go behind it, into a buffer of 128 bytes.
unfoldable pub add_flags : List ℕ → Option (List ℕ) → Option (List ℕ)
add_flags script none = some script
add_flags script (some flags) =
    let flags_size = length flags / 2 in
    if (length flags % 2 == 1) || ltb 128 (length script + flags_size)
    then none
    else (do bytes ← decode_hex flags flags_size false; some (script ++ bytes))

unfoldable pub coinbase_script : Template → Option (List ℕ)
unfolding height_script add_flags
coinbase_script tmpl = do
  script ← add_flags (height_script tmpl.height) tmpl.coinbaseaux
  if ltb (length script) 2 || ltb 100 (length script) then none else some script

-- The payout script; without one, OP_TRUE.
unfoldable pub payout_script : List ℕ → Option (List ℕ)
payout_script [] = some (0x51 ∷ [])
payout_script (c ∷ rest) =
    let hex_len = suc (length rest) in
    if (hex_len % 2 == 1) || ((hex_len / 2 == 0) || ltb 512 (hex_len / 2))
    then none
    else decode_hex (c ∷ rest) (hex_len / 2) false

unfoldable pub serialize_coinbase : List ℕ → ℕ → List ℕ → List ℕ
serialize_coinbase script value payout =
    write_le32 1
    ++ (1 ∷ [])
    ++ replicate 32 0
    ++ write_le32 uint32_max
    ++ (u8 (length script) ∷ [])
    ++ script
    ++ write_le32 uint32_max
    ++ (1 ∷ [])
    ++ write_le64 value
    ++ write_compact_size (length payout)
    ++ payout
    ++ write_le32 0

-- A missing payout script is the empty text.
unfoldable pub build_coinbase_tx : Template → List ℕ → Option (List ℕ)
unfolding coinbase_script payout_script serialize_coinbase
build_coinbase_tx tmpl payout_hex = do
  script ← coinbase_script tmpl
  payout ← payout_script payout_hex
  some (serialize_coinbase script tmpl.coinbasevalue payout)

-- The hash that is left; there is always one.
unfoldable pub root_of : List (List ℕ) → List ℕ
root_of [] = []
root_of (h ∷ hashes) = h

module _ (sha256 : List ℕ → List ℕ) where
  unfoldable pub double_sha256 : List ℕ → List ℕ
  double_sha256 bytes = sha256 (sha256 bytes)

  -- The hashes of the raw transactions, each of which must be non-empty hex.
  unfoldable pub tx_hashes : List (Option (List ℕ)) → Option (List (List ℕ))
  unfolding double_sha256
  tx_hashes [] = some []
  tx_hashes (none ∷ rest) = none
  tx_hashes (some hex ∷ rest) =
      let hashed = (do
        bytes ← decode_hex hex (length hex / 2) false
        hashes ← tx_hashes rest
        some (double_sha256 bytes ∷ hashes)) in
      if (length hex == 0) || (length hex % 2 == 1) then none else hashed

  -- One round of the merkle loop; a last odd hash is paired with itself.
  unfoldable pub merkle_level : List (List ℕ) → List (List ℕ)
  unfolding double_sha256
  merkle_level [] = []
  merkle_level (h ∷ []) = double_sha256 (h ++ h) ∷ []
  merkle_level (h ∷ k ∷ rest) = double_sha256 (h ++ k) ∷ merkle_level rest

  -- `while (hash_count > 1U)`, with fuel.
  unfoldable pub merkle_loop : ℕ → List (List ℕ) → List (List ℕ)
  unfolding merkle_level
  merkle_loop zero hashes = hashes
  merkle_loop (suc fuel) hashes =
      let next = merkle_loop fuel (merkle_level hashes) in
      if ltb 1 (length hashes) then next else hashes

  unfoldable pub build_merkle_root : Template → List ℕ → Option (List ℕ)
  unfolding tx_hashes merkle_loop root_of double_sha256
  build_merkle_root tmpl payout_hex = do
    coinbase ← build_coinbase_tx tmpl payout_hex
    hashes ← tx_hashes tmpl.transaction_data
    some (root_of (merkle_loop (suc (length hashes)) (double_sha256 coinbase ∷ hashes)))
