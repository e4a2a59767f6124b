-- ===== src/GapcoinWork/Coinbase/Merkle.antt =====
-- The merkle loop of new_src/gapcoin_work.c ends with one hash, the root of the tree over its hashes.
use gap_miner_v.Prelude.{
  ℕ, zero, suc, ◌+◌, ◌/◌, ◌≤◌, ◌<◌, ◌≡◌, refl, arith, some, List, [], ◌∷◌, ◌++◌, length, ltb,
  Bool-cases, inl, inr,
}
use gap_miner_v.GapcoinWork.Coinbase.{
  double_sha256, Template, build_coinbase_tx, tx_hashes, merkle_level, merkle_loop, root_of,
  build_merkle_root,
}

module _ (sha256 : List ℕ → List ℕ) where
  pub length-merkle_level :
      (hs : List (List ℕ)) → length (merkle_level sha256 hs) ≡ (length hs + 1) / 2
  unfolding merkle_level
  length-merkle_level [] = refl
  length-merkle_level (h ∷ []) = refl
  length-merkle_level (h ∷ k ∷ hs) = omega (arith, length-merkle_level hs)

  pub length-merkle_loop :
      (fuel : ℕ) (hs : List (List ℕ))
      → length hs ≤ fuel
      → 0 < length hs
      → length (merkle_loop sha256 fuel hs) ≡ 1
  unfolding merkle_loop
  length-merkle_loop zero hs h one = absurd (omega arith)
  length-merkle_loop (suc fuel) hs h one = elim (Bool-cases (ltb 1 (length hs))) [
    | inl many ↦ rw many (
        length-merkle_loop fuel (merkle_level sha256 hs) (ground (arith, length-merkle_level hs))
          (ground (arith, length-merkle_level hs)))
    | inr last ↦ rw last (ground arith)
  ]

  -- One level of the tree over a list of hashes: neighbours are hashed together, a last odd one
  -- with itself.
  pub data Paired : List (List ℕ) → List (List ℕ) → Type 0 where
    pair_none : Paired [] []
    pair_odd : {h : List ℕ} → Paired (h ∷ []) (double_sha256 sha256 (h ++ h) ∷ [])
    pair_two :
        {h k : List ℕ} {hs ks : List (List ℕ)}
        → Paired hs ks
        → Paired (h ∷ k ∷ hs) (double_sha256 sha256 (h ++ k) ∷ ks)

  -- The root of the tree over a list of hashes.
  pub data IsRoot : List (List ℕ) → List ℕ → Type 0 where
    root_leaf : {h : List ℕ} → IsRoot (h ∷ []) h
    root_node :
        {hs ks : List (List ℕ)} {h : List ℕ}
        → 1 < length hs
        → Paired hs ks
        → IsRoot ks h
        → IsRoot hs h

  merkle_level-Paired : (hs : List (List ℕ)) → Paired hs (merkle_level sha256 hs)
  unfolding merkle_level
  merkle_level-Paired [] = pair_none
  merkle_level-Paired (h ∷ []) = pair_odd
  merkle_level-Paired (h ∷ k ∷ hs) = pair_two (merkle_level-Paired hs)

  root_of-IsRoot : (hs : List (List ℕ)) → length hs ≡ 1 → IsRoot hs (root_of hs)
  unfolding root_of
  root_of-IsRoot [] one = absurd (omega arith)
  root_of-IsRoot (h ∷ []) one = root_leaf
  root_of-IsRoot (h ∷ k ∷ hs) one = absurd (omega arith)

  merkle_loop-IsRoot :
      (fuel : ℕ) (hs : List (List ℕ))
      → length hs ≤ fuel
      → 0 < length hs
      → IsRoot hs (root_of (merkle_loop sha256 fuel hs))
  unfolding merkle_loop
  merkle_loop-IsRoot zero hs h one = absurd (omega arith)
  merkle_loop-IsRoot (suc fuel) hs h one = elim (Bool-cases (ltb 1 (length hs))) [
    | inl many ↦ rw many (
        root_node (ground arith) (merkle_level-Paired hs) (
          merkle_loop-IsRoot fuel (merkle_level sha256 hs) (ground (arith, length-merkle_level hs))
            (ground (arith, length-merkle_level hs))))
    | inr last ↦ rw last (root_of-IsRoot hs (ground arith))
  ]

  -- When the coinbase transaction is built and the template's transactions decode, a root is
  -- returned: the root of the merkle tree over the coinbase's hash and the transactions' hashes.
  pub build_merkle_root-IsRoot :
      (tmpl : Template) (payout_hex coinbase : List ℕ) (hashes : List (List ℕ))
      → build_coinbase_tx tmpl payout_hex ≡ some coinbase
      → tx_hashes sha256 tmpl.transaction_data ≡ some hashes
      → (root : List ℕ) × (build_merkle_root sha256 tmpl payout_hex ≡ some root)
        × IsRoot (double_sha256 sha256 coinbase ∷ hashes) root
  unfolding build_merkle_root
  build_merkle_root-IsRoot tmpl payout_hex coinbase hashes made hashed = (
    root_of (merkle_loop sha256 (suc (length hashes)) (double_sha256 sha256 coinbase ∷ hashes)),
    rw (made, hashed) refl,
    merkle_loop-IsRoot (suc (length hashes)) (double_sha256 sha256 coinbase ∷ hashes) (omega arith)
        (omega arith),
  )
