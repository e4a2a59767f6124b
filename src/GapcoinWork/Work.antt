-- ===== src/GapcoinWork/Work.antt =====
-- The work of new_src/gapcoin_work.c: the hashed header and the search of its nonces.
pub mod Least
pub mod Header
use Prim.Native.Nat.{bit_and}
use gap_miner_v.Prelude.{
  ℕ, zero, suc, ◌+◌, ◌-◌, Bool, true, false, Option, none, some, List, [], ◌∷◌, ◌++◌, ◌==◌,
  uint32_max, get_or, if◌then◌else◌,
}
use mathlib.Core.List.{reverse}
use gap_miner_v.GapcoinWork.Encode.{◌>>=◌, write_le32, write_le64, decode_hex}
use gap_miner_v.GapcoinWork.Coinbase.{Template, double_sha256, build_merkle_root}

-- `struct gapcoin_gbt_work`
pub record Work : Type 0 where
  pub header_prefix : List ℕ
  pub nonce : ℕ

module _ (sha256 : List ℕ → List ℕ) where
  unfoldable pub work_init : Template → List ℕ → Option Work
  work_init tmpl payout_hex = do
    previous ← tmpl.previousblockhash
    root ← if tmpl.difficulty == 0 then none else build_merkle_root sha256 tmpl payout_hex
    bytes ← decode_hex previous 32 true
    let bytes80 =
        write_le32 tmpl.version
        ++ bytes
        ++ root
        ++ write_le32 tmpl.curtime
        ++ write_le64 tmpl.difficulty
    some record { header_prefix = bytes80; nonce = 0 }

  -- `none` for a hash below 2 ^ 255.
  unfoldable pub hash_nonce : List ℕ → ℕ → Option (List ℕ)
  hash_nonce hdr80 nonce =
      let raw_hash = double_sha256 sha256 (hdr80 ++ write_le32 nonce) in
      if bit_and (get_or raw_hash 31 0) 0x80 == 0 then none else some (reverse raw_hash)

  -- The loop of `gapcoin_gbt_work_hash`: the nonce where it stops, and the hash.
  unfoldable pub hash_from : ℕ → List ℕ → ℕ → ℕ × Option (List ℕ)
  hash_from zero header_prefix nonce = (nonce, none)
  hash_from (suc fuel) header_prefix nonce =
      let raw_hash = double_sha256 sha256 (header_prefix ++ write_le32 nonce) in
      let next = hash_from fuel header_prefix (nonce + 1) in
      if bit_and (get_or raw_hash 31 0) 0x80 == 0
      then if nonce == uint32_max then (nonce, none) else next
      else (nonce, some (reverse raw_hash))

  unfoldable pub work_hash : Work → Work × Option (List ℕ)
  unfolding hash_from
  work_hash work =
      let (stop, hash) = hash_from (suc (uint32_max - work.nonce)) work.header_prefix work.nonce in
      (record { header_prefix = work.header_prefix; nonce = stop }, hash)

  unfoldable pub work_next_hash : Work → Work × Option (List ℕ)
  unfolding work_hash
  work_next_hash work =
      if work.nonce == uint32_max
      then (work, none)
      else work_hash record { header_prefix = work.header_prefix; nonce = work.nonce + 1 }
