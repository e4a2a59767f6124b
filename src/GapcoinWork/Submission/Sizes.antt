-- ===== src/GapcoinWork/Submission/Sizes.antt =====
-- How many bytes the parts of a submitted block have at most.
use gap_miner_v.Prelude.{
  ℕ, zero, suc, ◌+◌, ◌/◌, ◌≤◌, ◌≡◌, refl, arith, false, Option, none, some, List, [], ◌∷◌, length,
  ◌==◌, if◌then◌else◌, Option-cases, inl, inr, length-append, length-take,
}
use gap_miner_v.GapcoinWork.Encode.{decode_hex, write_compact_size, write_le32, write_le64, le_from}
use gap_miner_v.GapcoinWork.Encode.Inverse.{length-decode_hex}
use gap_miner_v.GapcoinWork.Coinbase.{
  Template, coinbase_script, payout_script, serialize_coinbase, build_coinbase_tx,
}
use gap_miner_v.GapcoinWork.Submission.{
  tx_sizes, raw_txs, total_size, concat_txs, strip, stripped_len, nadd_or_zero, block_header,
}

coinbase_script-length :
    (tmpl : Template) {script : List ℕ} → coinbase_script tmpl ≡ some script → length script ≤ 100
unfolding coinbase_script
coinbase_script-length tmpl e = ground arith

payout_script-length :
    (hex : List ℕ) {payout : List ℕ} → payout_script hex ≡ some payout → length payout ≤ 512
unfolding payout_script
payout_script-length [] e = ground arith
payout_script-length (c ∷ hex) {payout} e =
    ground (arith, length-decode_hex (c ∷ hex) (suc (length hex) / 2) false {bytes = payout})

pub length-write_compact_size : (v : ℕ) → length (write_compact_size v) ≤ 9
unfolding write_compact_size write_le32 write_le64 le_from
length-write_compact_size v = ground arith

pub length-raw_txs :
    (txs : List (Option (List ℕ))) {raw : List (List ℕ)}
    → raw_txs txs ≡ some raw
    → total_size raw ≡ tx_sizes txs
unfolding raw_txs total_size tx_sizes
length-raw_txs [] e = ground arith
length-raw_txs (none ∷ txs) e = ground arith
length-raw_txs (some hex ∷ txs) e = elim (Option-cases (decode_hex hex (length hex / 2) false)) [
  | inl fails ↦ ground arith
  | inr (tx, made) ↦ elim (Option-cases (raw_txs txs)) [
    | inl stops ↦ ground arith
    | inr (rest, decoded) ↦
        ground
          (arith, length-decode_hex hex (length hex / 2) false made, length-raw_txs txs decoded)
  ]
]

pub length-concat_txs : (txs : List (List ℕ)) → length (concat_txs txs) ≡ total_size txs
unfolding concat_txs total_size
length-concat_txs [] = refl
length-concat_txs (tx ∷ txs) =
    omega (arith, length-append tx (concat_txs txs), length-concat_txs txs)

pub stripped_len-le : (nadd : List ℕ) (n : ℕ) → stripped_len nadd n ≤ n
unfolding stripped_len
stripped_len-le nadd zero = ground arith
stripped_len-le nadd (suc zero) = ground arith
stripped_len-le nadd (suc (suc n)) = ground (arith, stripped_len-le nadd (suc n))

pub length-strip : (nadd : List ℕ) → length (strip nadd) ≤ length nadd
unfolding strip
length-strip nadd = omega (arith, length-take (stripped_len nadd (length nadd)) nadd)

pub length-nadd_or_zero :
    (nadd : List ℕ) → length (nadd_or_zero nadd) ≡ (if length nadd == 0 then 1 else length nadd)
unfolding nadd_or_zero
length-nadd_or_zero [] = refl
length-nadd_or_zero (b ∷ nadd) = ground arith

pub length-block_header :
    (header_prefix : List ℕ) (header_nonce shift : ℕ) (nadd : List ℕ)
    → length (block_header header_prefix header_nonce shift nadd)
      ≤ length header_prefix + 4 + 2 + 9 + length nadd
unfolding block_header write_le32
length-block_header header_prefix header_nonce shift nadd =
    simp length-append (omega (arith, length-write_compact_size (length nadd)))

length-small_compact : (v : ℕ) → v ≤ 512 → length (write_compact_size v) ≤ 3
unfolding write_compact_size
length-small_compact v h = ground arith

length-serialize_coinbase :
    (script : List ℕ) (value : ℕ) (payout : List ℕ)
    → length (serialize_coinbase script value payout)
      ≡ 59 + length script + length (write_compact_size (length payout)) + length payout
unfolding serialize_coinbase write_le32 write_le64 le_from
length-serialize_coinbase script value payout = simp length-append (omega arith)

-- A coinbase transaction has at most 674 bytes.
pub length-build_coinbase_tx :
    (tmpl : Template) (payout_hex : List ℕ) {coinbase : List ℕ}
    → build_coinbase_tx tmpl payout_hex ≡ some coinbase
    → length coinbase ≤ 674
unfolding build_coinbase_tx
length-build_coinbase_tx tmpl payout_hex e = elim (Option-cases (coinbase_script tmpl)) [
  | inl fails ↦ ground arith
  | inr (script, scripted) ↦ elim (Option-cases (payout_script payout_hex)) [
    | inl stops ↦ ground arith
    | inr (payout, paid) ↦ ground (
      arith,
      coinbase_script-length tmpl scripted,
      payout_script-length payout_hex paid,
      length-small_compact (length payout),
      length-serialize_coinbase script tmpl.coinbasevalue payout,
    )
  ]
]
