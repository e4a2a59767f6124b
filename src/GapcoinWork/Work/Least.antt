-- ===== src/GapcoinWork/Work/Least.antt =====
-- `gapcoin_gbt_work_hash` against `gapcoin_gbt_hash_nonce`: the search takes the first nonce.
use Prim.Native.Nat.{bit_and}
use native.Mathlib.Decide.{dec_lt}
use gap_miner_v.Prelude.{
  ℕ, zero, suc, ◌+◌, ◌-◌, ◌≤◌, ◌<◌, ◌≡◌, refl, arith, true, Option, none, some, List, ◌++◌, ◌==◌,
  uint32_max, get_or, Bool-cases, inl, inr,
}
use mathlib.Core.Path.{subst}
use gap_miner_v.GapcoinWork.Encode.{write_le32}
use gap_miner_v.GapcoinWork.Coinbase.{double_sha256}
use gap_miner_v.GapcoinWork.Work.{Work, hash_nonce, hash_from, work_hash}

module _ (sha256 : List ℕ → List ℕ) where
  -- No nonce from `first` on, below `bound`, has a valid hash.
  abbrev pub AllInvalid : List ℕ → ℕ → ℕ → Type 0
  AllInvalid bytes first bound = (k : ℕ) → first ≤ k → k < bound → hash_nonce sha256 bytes k ≡ none

  abbrev pub IsLeast : List ℕ → ℕ → ℕ × Option (List ℕ) → Type 0
  IsLeast bytes first (stop, none) = AllInvalid bytes first (suc uint32_max)
  IsLeast bytes first (stop, some hash) =
      (first ≤ stop)
      × (stop ≤ uint32_max)
      × (hash_nonce sha256 bytes stop ≡ some hash)
      × AllInvalid bytes first stop

  AllInvalid-step :
      (bytes : List ℕ) (n bound : ℕ)
      → hash_nonce sha256 bytes n ≡ none
      → AllInvalid bytes (n + 1) bound
      → AllInvalid bytes n bound
  AllInvalid-step bytes n bound bad after k lo hi = elim (dec_lt n k) [
    | yes past ↦ after k (omega arith) hi
    | no here ↦ subst (λ j. hash_nonce sha256 bytes j ≡ none) (omega arith) bad
  ]

  IsLeast-step :
      (bytes : List ℕ) (n : ℕ) (run : ℕ × Option (List ℕ))
      → hash_nonce sha256 bytes n ≡ none
      → IsLeast bytes (n + 1) run
      → IsLeast bytes n run
  IsLeast-step bytes n (stop, none) bad least = AllInvalid-step bytes n (suc uint32_max) bad least
  IsLeast-step bytes n (stop, some hash) bad (first, last, valid, before) =
      (omega arith, last, valid, AllInvalid-step bytes n stop bad before)

  raw : List ℕ → ℕ → List ℕ
  raw bytes n = double_sha256 sha256 (bytes ++ write_le32 n)

  hash_nonce_low :
      (bytes : List ℕ) (n : ℕ)
      → (bit_and (get_or (double_sha256 sha256 (bytes ++ write_le32 n)) 31 0) 0x80 == 0) ≡ true
      → hash_nonce sha256 bytes n ≡ none
  unfolding hash_nonce
  hash_nonce_low bytes n low = rw low refl

  hash_from_lem :
      (fuel : ℕ) (bytes : List ℕ) (n : ℕ)
      → n + fuel ≡ suc uint32_max
      → 0 < fuel
      → IsLeast bytes n (hash_from sha256 fuel bytes n)
  unfolding hash_from
  hash_from_lem zero bytes n total h = elim h [ ]
  hash_from_lem (suc fuel) bytes n total h =
      elim (Bool-cases
        (bit_and (get_or (double_sha256 sha256 (bytes ++ write_le32 n)) 31 0) 0x80 == 0)) [
          | inl low ↦ elim (Bool-cases (n == uint32_max)) [
            | inl last ↦
                rw (low, last)
                  (AllInvalid-step bytes n (suc uint32_max) (hash_nonce_low bytes n low)
                    (λ k lo hi. absurd (ground arith)))
            | inr more ↦
                rw (low, more)
                  (IsLeast-step bytes n (hash_from sha256 fuel bytes (n + 1))
                    (hash_nonce_low bytes n low)
                    (hash_from_lem fuel bytes (n + 1) (omega arith) (ground arith)))
          ]
          | inr high ↦ rw high (
            omega arith,
            omega arith,
            unfold hash_nonce in rw high refl,
            λ k lo hi. absurd (omega arith),
          )
        ]

  -- `gapcoin_gbt_work_hash` stops at the first nonce from the work's own on for which
  -- `gapcoin_gbt_hash_nonce` gives a hash, with that hash; it fails exactly when no nonce up to
  -- UINT32_MAX has one. The header's other 80 bytes are kept.
  pub work_hash-IsLeast :
      (work : Work)
      → work.nonce ≤ uint32_max
      → IsLeast work.header_prefix work.nonce
          ((work_hash sha256 work).0.nonce, (work_hash sha256 work).1)
        × ((work_hash sha256 work).0.header_prefix ≡ work.header_prefix)
  unfolding work_hash
  work_hash-IsLeast work h = (
    hash_from_lem (suc (uint32_max - work.nonce)) work.header_prefix work.nonce (omega arith)
        (omega arith),
    refl,
  )
