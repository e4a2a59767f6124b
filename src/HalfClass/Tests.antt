-- ===== src/HalfClass/Tests.antt =====
-- new_src/halfclass.c behind the base 1000, with a stand-in for the test.
use native.Mathlib.Decide.{dec_lt}
use gap_miner_v.Prelude.{
  ℕ, zero, suc, ◌+◌, ◌*◌, ◌%◌, ◌^◌, ◌<◌, ◌≡◌, refl, arith, Bool, true, false, not, ◌&&◌, ◌||◌, none,
  List, [], ◌∷◌, replicate, leb, ◌==◌,
}
use gap_miner_v.Gmp.Model.{model}
use gap_miner_v.GapDetection.{GapDist, GapScanStats, find_from}
use gap_miner_v.GapDetection.Model.{naturals}
use gap_miner_v.HalfClass.{
  visible_mask, class_mask60, in_mask, class_of, offset_visible, base_mod60,
}
use gap_miner_v.HalfClass.Emit.{resolve_gap, emit_chain}
use gap_miner_v.HalfClass.Classes.{base_mod60_lem}
use gap_miner_v.HalfClass.Chain.{find_from-emit_chain}
use gap_miner_v.HalfClass.Hidden.{tested}
use gap_miner_v.HalfClass.Resolve.{passes, resolve_gap-find}

-- A stand-in for `mpz_probab_prime_p`: neither 2, 7 nor 11 divides.
abbrev test : ℕ → ℕ → Bool
test reps x = not (x % 2 == 0) && (not (x % 7 == 0) && not (x % 11 == 0))

abbrev primes : List ℕ
primes = 3 ∷ 5 ∷ 7 ∷ []

abbrev dist : GapDist
dist = record { hist = replicate 512 0; enabled = true; excl_lo = 0; excl_hi = 0 }

abbrev stats : GapScanStats ℕ
stats = record { euler_pairs = 0; max_gap_length = 0; max_merit = 0 }

-- The classes from 1050 to 1080 are hidden.
none_visible : ℕ → Bool
unfolding offset_visible visible_mask in_mask class_of
none_visible zero = true
none_visible (suc k) = (leb k 49 || not (offset_visible false 40 k)) && none_visible k

none_visible-at :
    (k off : ℕ) → none_visible k ≡ true → 49 < off → off < k → offset_visible false 40 off ≡ false
unfolding none_visible
none_visible-at zero off e lo hi = absurd (omega arith)
none_visible-at (suc k) off e lo hi = elim (dec_lt off k) [
  | yes below ↦ none_visible-at k off (ground arith) lo below
  | no here ↦ let same : off ≡ k = omega arith in rw same (ground arith)
]

none_visible_81 : none_visible 81 ≡ true
unfolding none_visible offset_visible visible_mask class_mask60 in_mask class_of
none_visible_81 = refl

visible_49 : offset_visible false 40 49 ≡ true
unfolding offset_visible visible_mask class_mask60 in_mask class_of
visible_49 = refl

base_mod60_lem_example : base_mod60 (1 ∷ 2 ∷ []) 20 30 ≡ (258 * 2 ^ 20 + 30) % 60
base_mod60_lem_example =
    base_mod60_lem (1 ∷ 2 ∷ []) 20 30 (omega arith, (omega arith, tt)) (omega arith)

find_from-emit_chain_example :
    (find_from naturals model 1000 1 100
      ((true, 1) ∷ (false, 3) ∷ (true, 7) ∷ [])
      none
      dist
      stats).0
    ≡ emit_chain naturals model 1000 (1 ∷ 7 ∷ []) 100 1
find_from-emit_chain_example =
    find_from-emit_chain naturals model 1000 100 1 refl ((true, 1) ∷ (false, 3) ∷ (true, 7) ∷ [])
      dist stats (omega arith, (omega arith, (omega arith, tt)))

resolve_gap-find_example :
    resolve_gap naturals model test false primes 1000 49 81 100 1
    ≡ (find_from naturals model 1000 1 100
        (tested (passes test primes 32) 1000 33 49)
        none
        dist
        stats).0
resolve_gap-find_example =
    resolve_gap-find test false primes 1000 49 81
      (omega arith, omega arith, (omega arith, omega arith, (omega arith, omega arith, tt)))
      (omega arith) (omega arith) (refl, visible_49) refl
      (λ off lo hi prime. none_visible-at 81 off none_visible_81 lo hi) naturals model 100 1 dist
      stats refl
