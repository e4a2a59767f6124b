-- ===== src/GapcoinWork/Tests.antt =====
-- new_src/gapcoin_work.c on a small template. The hash is a stand-in of 32 bytes: the sum of the
-- bytes in the last one.
use gap_miner_v.Prelude.{
  ℕ, ◌+◌, ◌*◌, ◌^◌, ◌<◌, ◌≡◌, refl, arith, none, some, List, [], ◌∷◌, ◌++◌, replicate, u8,
}
use gap_miner_v.Gmp.{le_value}
use gap_miner_v.GapcoinWork.Encode.{
  decode_hex, decode_pairs, hex_nibble, bytes_to_hex, write_compact_size, encode_height,
  height_bytes, pad_sign, write_le32, write_le64, le_from,
}
use gap_miner_v.GapcoinWork.Encode.Inverse.{read_compact_size, read_compact_size-write_compact_size}
use gap_miner_v.GapcoinWork.Coinbase.{
  Template, height_script, add_flags, coinbase_script, payout_script, serialize_coinbase,
  build_coinbase_tx, double_sha256, tx_hashes, merkle_level, merkle_loop, root_of,
  build_merkle_root,
}
use gap_miner_v.GapcoinWork.Coinbase.Merkle.{IsRoot, build_merkle_root-IsRoot}
use gap_miner_v.GapcoinWork.Work.{Work, hash_from, work_hash, work_init}
use gap_miner_v.GapcoinWork.Work.Least.{IsLeast, work_hash-IsLeast}
use gap_miner_v.GapcoinWork.Work.Header.{Carries, work_init-target_from_header}
use gap_miner_v.GapcoinWork.Submission.{
  raw_txs, tx_sizes, concat_txs, strip, nadd_or_zero, block_header, submission_hex_need,
  build_submission_bytes, build_submission,
}
use gap_miner_v.GapcoinWork.Submission.Capacity.{build_submission_bytes-enough}
use gap_miner_v.GapcoinWork.Submission.Nadd.{build_submission-nadd}

abbrev sum : List ℕ → ℕ
sum [] = 0
sum (b ∷ bytes) = b + sum bytes

abbrev toy_hash : List ℕ → List ℕ
toy_hash bytes = replicate 31 0 ++ (u8 (sum bytes) ∷ [])

abbrev tmpl : Template
tmpl = record {
  previousblockhash = some (replicate 64 b'0');
  height = 100;
  curtime = 7;
  difficulty = 20 * 2 ^ 48;
  coinbasevalue = 5;
  coinbaseaux = none;
  transaction_data = some (b'a' ∷ b'b' ∷ []) ∷ some (b'0' ∷ b'1' ∷ []) ∷ [];
  version = 1;
}

abbrev coinbase : List ℕ
coinbase = serialize_coinbase (1 ∷ 100 ∷ 0 ∷ []) 5 (0x51 ∷ [])

built : build_coinbase_tx tmpl [] ≡ some coinbase
unfolding build_coinbase_tx coinbase_script height_script add_flags payout_script encode_height
    height_bytes pad_sign
built = refl

decoded : raw_txs tmpl.transaction_data ≡ some ((0xab ∷ []) ∷ (1 ∷ []) ∷ [])
unfolding raw_txs decode_hex decode_pairs hex_nibble
decoded = refl

hashed :
    tx_hashes toy_hash tmpl.transaction_data ≡ some (toy_hash (0xab ∷ []) ∷ toy_hash (1 ∷ []) ∷ [])
unfolding tx_hashes double_sha256 decode_hex decode_pairs hex_nibble
hashed = refl

-- The bytes of the header sum up to 126: nonce 2 is the first with a valid hash.
abbrev header_prefix : List ℕ
header_prefix = replicate 79 0 ++ (126 ∷ [])

nonce_two : (hash_from toy_hash 4 header_prefix 0).0 ≡ 2
unfolding hash_from double_sha256 write_le32
nonce_two = refl

abbrev work : Work
work = record { header_prefix = header_prefix; nonce = 0 }

work_hash-IsLeast_example :
    IsLeast toy_hash header_prefix 0
      ((work_hash toy_hash work).0.nonce, (work_hash toy_hash work).1)
    × ((work_hash toy_hash work).0.header_prefix ≡ header_prefix)
work_hash-IsLeast_example = work_hash-IsLeast toy_hash work (omega arith)

build_merkle_root-IsRoot_example :
    (root : List ℕ) × (build_merkle_root toy_hash tmpl [] ≡ some root)
    × IsRoot toy_hash
        (double_sha256 toy_hash coinbase ∷ toy_hash (0xab ∷ []) ∷ toy_hash (1 ∷ []) ∷ [])
        root
build_merkle_root-IsRoot_example =
    build_merkle_root-IsRoot toy_hash tmpl [] coinbase
      (toy_hash (0xab ∷ []) ∷ toy_hash (1 ∷ []) ∷ []) built hashed

read_compact_size-write_compact_size_example :
    read_compact_size (write_compact_size 300 ++ (7 ∷ [])) ≡ some (300, 7 ∷ [])
read_compact_size-write_compact_size_example =
    read_compact_size-write_compact_size 300 (7 ∷ []) (omega arith)

abbrev made : Work
unfolding write_le32 write_le64 le_from
made = record {
  header_prefix =
      write_le32 1
      ++ replicate 32 0
      ++ toy_hash (coinbase ++ (0xac ∷ 1 ∷ []))
      ++ write_le32 7
      ++ write_le64 (20 * 2 ^ 48);
  nonce = 0;
}

initialised : work_init toy_hash tmpl [] ≡ some made
unfolding work_init build_merkle_root build_coinbase_tx coinbase_script height_script add_flags
    payout_script encode_height height_bytes pad_sign tx_hashes double_sha256 decode_hex
    decode_pairs hex_nibble merkle_loop merkle_level root_of serialize_coinbase write_le32
    write_le64 le_from write_compact_size
initialised = refl

work_init-target_from_header_example : Carries (20 * 2 ^ 48) made × (0 < 20 * 2 ^ 48)
work_init-target_from_header_example =
    work_init-target_from_header toy_hash (λ bytes. refl) tmpl [] (omega arith) initialised

abbrev submitted : List ℕ
submitted = bytes_to_hex (
    block_header header_prefix 2 20 (strip (nadd_or_zero (5 ∷ 0 ∷ [])))
    ++ write_compact_size 3
    ++ (coinbase ++ concat_txs ((0xab ∷ []) ∷ (1 ∷ []) ∷ [])))

build_submission_bytes-enough_example :
    build_submission_bytes header_prefix 2 tmpl [] 20 (5 ∷ 0 ∷ []) 2000 ≡ some submitted
build_submission_bytes-enough_example =
    build_submission_bytes-enough header_prefix 2 tmpl [] 20 (5 ∷ 0 ∷ []) 2000 coinbase
      ((0xab ∷ []) ∷ (1 ∷ []) ∷ []) refl built decoded
      (unfold submission_hex_need tx_sizes in omega arith)

build_submission-nadd_example :
    (bytes : List ℕ) × (build_submission header_prefix 2 tmpl [] 20 1000 2000
      ≡ build_submission_bytes header_prefix 2 tmpl [] 20 bytes 2000)
    × (le_value bytes ≡ 1000)
build_submission-nadd_example =
    build_submission-nadd header_prefix 2 tmpl [] 20 1000 2000 (omega arith)
