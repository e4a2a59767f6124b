-- ===== src/GapcoinWork/Submission/Capacity.antt =====
-- The buffer of a submission: `gapcoin_gbt_submission_hex_need` is enough, and never overrun.
use gap_miner_v.Prelude.{
  ℕ, suc, ◌+◌, ◌*◌, ◌≤◌, ◌≡◌, refl, arith, false, ◌||◌, none, some, List, ◌∷◌, ◌++◌, length, ltb,
  ◌==◌, if◌then◌else◌, Option-cases, inl, inr, length-append,
}
use gap_miner_v.GapcoinWork.Encode.{write_compact_size, bytes_to_hex}
use gap_miner_v.GapcoinWork.Encode.Inverse.{length-bytes_to_hex}
use gap_miner_v.GapcoinWork.Coinbase.{Template, build_coinbase_tx}
use gap_miner_v.GapcoinWork.Submission.{
  tx_sizes, raw_txs, total_size, concat_txs, strip, nadd_or_zero, block_header, submission_hex_need,
  build_submission_bytes,
}
use gap_miner_v.GapcoinWork.Submission.Sizes.{
  length-write_compact_size, length-raw_txs, length-concat_txs, length-strip, length-nadd_or_zero,
  length-block_header, length-build_coinbase_tx,
}

abbrev header_of : List ℕ → ℕ → ℕ → List ℕ → List ℕ
header_of header_prefix header_nonce shift nadd =
    block_header header_prefix header_nonce shift (strip (nadd_or_zero nadd))

header_fits :
    (header_prefix : List ℕ) (header_nonce shift : ℕ) (nadd : List ℕ)
    → length header_prefix ≡ 80
    → length (header_of header_prefix header_nonce shift nadd)
      ≤ 95 + (if length nadd == 0 then 1 else length nadd)
header_fits header_prefix header_nonce shift nadd h = omega (
  arith,
  length-block_header header_prefix header_nonce shift (strip (nadd_or_zero nadd)),
  length-strip (nadd_or_zero nadd),
  length-nadd_or_zero nadd,
)

not_refused :
    (cap header coinbase txs nadd_size : ℕ)
    → header ≤ 95 + nadd_size
    → coinbase ≤ 674
    → (80 + 4 + 2 + 9 + nadd_size + 9 + 768 + txs) * 2 + 1 ≤ cap
    → ((cap == 0) || ltb cap ((header + 9 + (coinbase + txs)) * 2 + 1)) ≡ false
not_refused cap header coinbase txs nadd_size h c room = ground arith

-- With an 80 byte header prefix and a buffer of `gapcoin_gbt_submission_hex_need` characters, a
-- submission whose coinbase is built and whose transactions decode is never refused: the text is
-- the hex of the header, the number of transactions, the coinbase and the transactions.
pub build_submission_bytes-enough :
    (header_prefix : List ℕ) (header_nonce : ℕ) (tmpl : Template) (payout_hex : List ℕ) (shift : ℕ)
    (nadd : List ℕ) (out_hex_cap : ℕ) (coinbase : List ℕ) (txs : List (List ℕ))
    → length header_prefix ≡ 80
    → build_coinbase_tx tmpl payout_hex ≡ some coinbase
    → raw_txs tmpl.transaction_data ≡ some txs
    → submission_hex_need tmpl (length nadd) ≤ out_hex_cap
    → build_submission_bytes header_prefix header_nonce tmpl payout_hex shift nadd out_hex_cap
      ≡ some (
          bytes_to_hex (
            block_header header_prefix header_nonce shift (strip (nadd_or_zero nadd))
            ++ write_compact_size (suc (length txs))
            ++ (coinbase ++ concat_txs txs)))
unfolding build_submission_bytes submission_hex_need concat_txs total_size
build_submission_bytes-enough header_prefix header_nonce tmpl payout_hex shift nadd out_hex_cap
      coinbase txs h built decoded room =
    rw
      (
        built,
        decoded,
        length-raw_txs tmpl.transaction_data decoded,
        not_refused out_hex_cap (length (header_of header_prefix header_nonce shift nadd))
            (length coinbase) (tx_sizes tmpl.transaction_data)
            (if length nadd == 0 then 1 else length nadd)
            (header_fits header_prefix header_nonce shift nadd h)
            (length-build_coinbase_tx tmpl payout_hex built) room,
      )
      refl

length-block :
    (header : List ℕ) (all_txs : List (List ℕ))
    → length (bytes_to_hex (header ++ write_compact_size (length all_txs) ++ concat_txs all_txs))
      ≤ (length header + 9 + total_size all_txs) * 2
length-block header all_txs =
    rw (length-bytes_to_hex (header ++ write_compact_size (length all_txs) ++ concat_txs all_txs)) (
      simp length-append
        (omega (arith, length-write_compact_size (length all_txs), length-concat_txs all_txs)))

written :
    (cap size : ℕ) (text : List ℕ) {out : List ℕ}
    → length text ≤ size * 2
    → (if (cap == 0) || ltb cap (size * 2 + 1) then none else some text) ≡ some out
    → length out + 1 ≤ cap
written cap size text h e = ground arith

-- Whatever the capacity, a text that is written fits it, with its final NUL.
pub build_submission_bytes-fits :
    (header_prefix : List ℕ) (header_nonce : ℕ) (tmpl : Template) (payout_hex : List ℕ) (shift : ℕ)
    (nadd : List ℕ) (out_hex_cap : ℕ) {out : List ℕ}
    → build_submission_bytes header_prefix header_nonce tmpl payout_hex shift nadd out_hex_cap
      ≡ some out
    → length out + 1 ≤ out_hex_cap
unfolding build_submission_bytes
build_submission_bytes-fits header_prefix header_nonce tmpl payout_hex shift nadd out_hex_cap e =
    elim (Option-cases (build_coinbase_tx tmpl payout_hex)) [
      | inl fails ↦ ground arith
      | inr (coinbase, built) ↦ elim (Option-cases (raw_txs tmpl.transaction_data)) [
        | inl stops ↦ ground arith
        | inr (txs, decoded) ↦
            written out_hex_cap
              (length (header_of header_prefix header_nonce shift nadd)
                + 9
                + total_size (coinbase ∷ txs))
              (bytes_to_hex (
                header_of header_prefix header_nonce shift nadd
                ++ write_compact_size (length (coinbase ∷ txs))
                ++ concat_txs (coinbase ∷ txs)))
              (length-block (header_of header_prefix header_nonce shift nadd) (coinbase ∷ txs))
              (rw (built, decoded) at e)
      ]
    ]
