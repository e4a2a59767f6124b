-- ===== src/GapcoinWork/Submission.antt =====
-- The block that new_src/gapcoin_work.c submits. The buffer is its capacity.
pub mod Sizes
pub mod Capacity
pub mod Nadd
use gap_miner_v.Prelude.{
  ℕ, zero, suc, ◌+◌, ◌*◌, ◌/◌, ◌%◌, Bool, true, false, ◌||◌, Option, none, some, List, [], ◌∷◌,
  ◌++◌, ltb, ◌==◌, u8, ◌^◌, take, get_or, length, if◌then◌else◌,
}
use gap_miner_v.GapcoinWork.Encode.{◌>>=◌, write_le32, decode_hex, write_compact_size, bytes_to_hex}
use gap_miner_v.GapcoinWork.Coinbase.{Template, build_coinbase_tx}

abbrev pub coinbase_tx_max : ℕ
coinbase_tx_max = 768

-- The bytes of the template's transactions, a missing one left out.
unfoldable pub tx_sizes : List (Option (List ℕ)) → ℕ
tx_sizes [] = 0
tx_sizes (none ∷ rest) = tx_sizes rest
tx_sizes (some hex ∷ rest) = length hex / 2 + tx_sizes rest

unfoldable pub submission_hex_need : Template → ℕ → ℕ
unfolding tx_sizes
submission_hex_need tmpl nadd_len =
    let nadd_size = if nadd_len == 0 then 1 else nadd_len in
    let bytes = 80 + 4 + 2 + 9 + nadd_size + 9 + coinbase_tx_max + tx_sizes tmpl.transaction_data in
    bytes * 2 + 1

-- `while (nadd_len > 1 && nadd[nadd_len - 1] == 0) nadd_len--`
unfoldable pub stripped_len : List ℕ → ℕ → ℕ
stripped_len nadd zero = zero
stripped_len nadd (suc zero) = 1
stripped_len nadd (suc (suc n)) =
    let fewer = stripped_len nadd (suc n) in
    if get_or nadd (suc n) 0 == 0 then fewer else suc (suc n)

unfoldable pub strip : List ℕ → List ℕ
unfolding stripped_len
strip nadd = take (stripped_len nadd (length nadd)) nadd

unfoldable pub nadd_or_zero : List ℕ → List ℕ
nadd_or_zero [] = 0 ∷ []
nadd_or_zero (b ∷ rest) = b ∷ rest

unfoldable pub block_header : List ℕ → ℕ → ℕ → List ℕ → List ℕ
block_header header_prefix header_nonce shift nadd =
    header_prefix
    ++ write_le32 header_nonce
    ++ (u8 shift ∷ u8 (shift / 2 ^ 8) ∷ [])
    ++ write_compact_size (length nadd)
    ++ nadd

-- The raw transactions, each of which must be non-empty hex.
unfoldable pub raw_txs : List (Option (List ℕ)) → Option (List (List ℕ))
raw_txs [] = some []
raw_txs (none ∷ rest) = none
raw_txs (some hex ∷ rest) =
    let decoded = (do
      bytes ← decode_hex hex (length hex / 2) false
      txs ← raw_txs rest
      some (bytes ∷ txs)) in
    if (length hex / 2 == 0) || (length hex % 2 == 1) then none else decoded

unfoldable pub total_size : List (List ℕ) → ℕ
total_size [] = 0
total_size (tx ∷ rest) = length tx + total_size rest

unfoldable pub concat_txs : List (List ℕ) → List ℕ
concat_txs [] = []
concat_txs (tx ∷ rest) = tx ++ concat_txs rest

unfoldable pub build_submission_bytes :
    List ℕ → ℕ → Template → List ℕ → ℕ → List ℕ → ℕ → Option (List ℕ)
unfolding strip nadd_or_zero block_header raw_txs total_size concat_txs
build_submission_bytes header_prefix header_nonce tmpl payout_hex shift nadd out_hex_cap = do
  let header = block_header header_prefix header_nonce shift (strip (nadd_or_zero nadd))
  coinbase ← build_coinbase_tx tmpl payout_hex
  txs ← raw_txs tmpl.transaction_data
  let all_txs = coinbase ∷ txs
  let block = header ++ write_compact_size (length all_txs) ++ concat_txs all_txs
  if (out_hex_cap == 0) || ltb out_hex_cap ((length header + 9 + total_size all_txs) * 2 + 1)
      then none
      else some (bytes_to_hex block)

-- The bytes of a 64-bit nAdd, with fuel; at least one.
unfoldable pub nadd_digits : ℕ → ℕ → List ℕ
nadd_digits zero remaining = []
nadd_digits (suc fuel) remaining =
    let more = nadd_digits fuel (remaining / 2 ^ 8) in
    if remaining == 0 then [] else u8 remaining ∷ more

unfoldable pub build_submission : List ℕ → ℕ → Template → List ℕ → ℕ → ℕ → ℕ → Option (List ℕ)
unfolding nadd_digits build_submission_bytes
build_submission header_prefix header_nonce tmpl payout_hex shift nadd out_hex_cap =
    let nadd_bytes = if nadd == 0 then 0 ∷ [] else nadd_digits 8 nadd in
    build_submission_bytes header_prefix header_nonce tmpl payout_hex shift nadd_bytes out_hex_cap
