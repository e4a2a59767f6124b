-- ===== src/GapcoinWork/Work/Header.antt =====
-- The header that `gapcoin_gbt_work_init` writes, read by the proof of work.
use native.Mathlib.Nat.{div-div-eq-div-mul}
use gap_miner_v.Prelude.{
  ℕ, zero, suc, ◌+◌, ◌*◌, ◌/◌, ◌^◌, ◌<◌, ◌≡◌, ◌∙◌, refl, sym, ap, arith, true, none, some, List, [],
  ◌∷◌, ◌++◌, length, ltb, ◌==◌, if◌then◌else◌, Bool-cases, Option-cases, inl, inr, length-append,
  u8, u64, get_or,
}
use gap_miner_v.Prelude.Arith.{pow_add}
use gap_miner_v.Prelude.Bits.{bit_or_high}
use Prim.Native.Nat.{bit_or}
use gap_miner_v.PowQ48.Bytes.{read_down, target_from_header}
use gap_miner_v.GapcoinWork.Encode.{bind-some, decode_hex, write_le32, write_le64, le_from}
use gap_miner_v.GapcoinWork.Encode.Inverse.{length-decode_hex}
use mathlib.Core.Path.{subst}
use mathlib.Core.Option.{some-injective}
use gap_miner_v.GapcoinWork.Coinbase.{
  Template, double_sha256, merkle_level, merkle_loop, root_of, build_merkle_root, tx_hashes,
  build_coinbase_tx,
}
use gap_miner_v.GapcoinWork.Work.{Work, work_init}
use gap_miner_v.GapcoinWork.Coinbase.Merkle.{length-merkle_level}

add_byte : (n : ℕ) → n < 2 ^ 64 → bit_or (u64 (n / 2 ^ 8 * 2 ^ 8)) (u8 n) ≡ n
add_byte n h =
    let e : u64 (n / 2 ^ 8 * 2 ^ 8) ≡ n / 2 ^ 8 * 2 ^ 8 = omega arith in
    rw e (omega (arith, bit_or_high 8 (n / 2 ^ 8) (u8 n) (omega arith)))

next_digit : (n i : ℕ) → n / 2 ^ (suc i * 8) ≡ n / 2 ^ (i * 8) / 2 ^ 8
next_digit n i =
    let e : suc i * 8 ≡ i * 8 + 8 = omega arith in
    rw (e, pow_add 2 (i * 8) 8, div-div-eq-div-mul n (2 ^ (i * 8)) (2 ^ 8)) refl

read_down_lem :
    (i : ℕ) (hdr80 : List ℕ) (n : ℕ)
    → n < 2 ^ 64
    → ((j : ℕ) → j < i → get_or hdr80 (72 + j) 0 ≡ u8 (n / 2 ^ (j * 8)))
    → read_down i hdr80 (n / 2 ^ (i * 8)) ≡ n
unfolding read_down
read_down_lem zero hdr80 n h bytes = omega arith
read_down_lem (suc i) hdr80 n h bytes =
    rw (bytes i (omega arith), next_digit n i, add_byte (n / 2 ^ (i * 8)) grind arith)
      (read_down_lem i hdr80 n h (λ j below. bytes j (omega arith)))

get_or-append : (xs ys : List ℕ) (i : ℕ) → get_or (xs ++ ys) (length xs + i) 0 ≡ get_or ys i 0
get_or-append [] ys i = ap (λ j. get_or ys j 0) (omega arith)
get_or-append (x ∷ xs) ys i =
    let e : suc (length xs) + i ≡ suc (length xs + i) = omega arith in rw e (get_or-append xs ys i)

byte_of_le :
    (left index n j : ℕ)
    → j < left
    → get_or (le_from left index n) j 0 ≡ u8 (n / 2 ^ ((index + j) * 8))
unfolding le_from
byte_of_le zero index n j h = elim h [ ]
byte_of_le (suc left) index n zero h = ap (λ k. u8 (n / 2 ^ (k * 8))) (omega arith)
byte_of_le (suc left) index n (suc j) h =
    byte_of_le left (index + 1) n j (omega arith) ∙ ap (λ k. u8 (n / 2 ^ (k * 8))) (omega arith)

byte_of_le64 : (n j : ℕ) → j < 8 → get_or (write_le64 n) j 0 ≡ u8 (n / 2 ^ (j * 8))
unfolding write_le64
byte_of_le64 n j h = byte_of_le 8 0 n j h ∙ ap (λ k. u8 (n / 2 ^ (k * 8))) (omega arith)

-- Eight bytes behind 72 are read as the number that was written there.
target_from_header-written :
    (front : List ℕ) (n : ℕ)
    → length front ≡ 72
    → n < 2 ^ 64
    → target_from_header (front ++ write_le64 n) ≡ n
unfolding target_from_header
target_from_header-written front n h fits =
    let top : 0 ≡ n / 2 ^ (8 * 8) = omega arith in
    ap (λ start. read_down 8 (front ++ write_le64 n) start) top
    ∙ (read_down_lem 8 (front ++ write_le64 n) n fits (λ j below.
        ap (λ at. get_or (front ++ write_le64 n) (at + j) 0) (sym h)
        ∙ (get_or-append front (write_le64 n) j ∙ byte_of_le64 n j below)))

length-header : (front : List ℕ) (n : ℕ) → length front ≡ 72 → length (front ++ write_le64 n) ≡ 80
unfolding write_le64 le_from
length-header front n h = simp length-append (omega arith)

-- The header has 80 bytes, its nonce is 0, and the proof of work reads the difficulty in it.
abbrev pub Carries : ℕ → Work → Type 0
Carries difficulty work =
    (length work.header_prefix ≡ 80)
    × (work.nonce ≡ 0)
    × (target_from_header work.header_prefix ≡ difficulty)

module _ (sha256 : List ℕ → List ℕ)
    (length-sha256 : (bytes : List ℕ) → length (sha256 bytes) ≡ 32) where
  length-double_sha256 : (bytes : List ℕ) → length (double_sha256 sha256 bytes) ≡ 32
  unfolding double_sha256
  length-double_sha256 bytes = length-sha256 (sha256 bytes)

  length-first :
      (hs : List (List ℕ)) → 0 < length hs → length (root_of (merkle_level sha256 hs)) ≡ 32
  unfolding merkle_level root_of
  length-first [] some_left = elim some_left [ ]
  length-first (h ∷ []) some_left = length-double_sha256 (h ++ h)
  length-first (h ∷ k ∷ hs) some_left = length-double_sha256 (h ++ k)

  length-root :
      (fuel : ℕ) (hs : List (List ℕ))
      → length (root_of hs) ≡ 32
      → 0 < length hs
      → length (root_of (merkle_loop sha256 fuel hs)) ≡ 32
  unfolding merkle_loop
  length-root zero hs ok some_left = ok
  length-root (suc fuel) hs ok some_left = elim (Bool-cases (ltb 1 (length hs))) [
    | inl many ↦ rw many (
        length-root fuel (merkle_level sha256 hs) (length-first hs some_left)
          (omega (arith, length-merkle_level sha256 hs)))
    | inr last ↦ rw last ok
  ]

  length-merkle_root :
      (tmpl : Template) (payout_hex : List ℕ) {root : List ℕ}
      → build_merkle_root sha256 tmpl payout_hex ≡ some root
      → length root ≡ 32
  unfolding build_merkle_root root_of
  length-merkle_root tmpl payout_hex e = elim (Option-cases (build_coinbase_tx tmpl payout_hex)) [
    | inl fails ↦ ground arith
    | inr (coinbase, built) ↦ elim (Option-cases (tx_hashes sha256 tmpl.transaction_data)) [
      | inl stops ↦ ground arith
      | inr (hashes, hashed) ↦ ground (
        arith,
        length-root (suc (length hashes)) (double_sha256 sha256 coinbase ∷ hashes)
            (length-double_sha256 coinbase) (omega arith),
      )
    ]
  ]

  length-front :
      (version curtime : ℕ) (bytes root : List ℕ)
      → length bytes ≡ 32
      → length root ≡ 32
      → length (write_le32 version ++ bytes ++ root ++ write_le32 curtime) ≡ 72
  unfolding write_le32
  length-front version curtime bytes root h k = simp length-append (omega arith)

  -- A header that `gapcoin_gbt_work_init` writes for a 64-bit difficulty has 80 bytes, starts with
  -- nonce 0, and gives the proof of work back the template's difficulty, which is not 0.
  pub work_init-target_from_header :
      (tmpl : Template) (payout_hex : List ℕ) {work : Work}
      → tmpl.difficulty < 2 ^ 64
      → work_init sha256 tmpl payout_hex ≡ some work
      → Carries tmpl.difficulty work × (0 < tmpl.difficulty)
  unfolding work_init
  work_init-target_from_header tmpl payout_hex {work} fits e =
      let (previous, _, e1) = bind-some tmpl.previousblockhash (λ previous. _) e in
      let (root, rooted, e2) =
        bind-some (if tmpl.difficulty == 0 then none else build_merkle_root sha256 tmpl payout_hex)
          (λ root. _) e1 in
      let (bytes, decoded, e3) = bind-some (decode_hex previous 32 true) (λ bytes. _) e2 in
      let made : Work = record {
        header_prefix =
            write_le32 tmpl.version
            ++ bytes
            ++ root
            ++ write_le32 tmpl.curtime
            ++ write_le64 tmpl.difficulty;
        nonce = 0;
      } in
      let front =
        length-front tmpl.version tmpl.curtime bytes root
          (length-decode_hex previous 32 true decoded)
          (length-merkle_root tmpl payout_hex (ground arith)) in
      let last : Carries tmpl.difficulty made = (
        length-header (write_le32 tmpl.version ++ bytes ++ root ++ write_le32 tmpl.curtime)
            tmpl.difficulty front,
        refl,
        target_from_header-written
            (write_le32 tmpl.version ++ bytes ++ root ++ write_le32 tmpl.curtime) tmpl.difficulty
            front fits,
      ) in
      (subst (Carries tmpl.difficulty) (some-injective made work e3) last, ground arith)
