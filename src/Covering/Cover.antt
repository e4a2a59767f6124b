-- ===== src/Covering/Cover.antt =====
-- new_src/covering.c: the coverage of a set of residues, its statistics and its score.
pub mod Count
use Prim.Native.Nat.{bit_or, bit_xor}
use gap_miner_v.Prelude.{
  ℕ, zero, suc, ◌+◌, ◌-◌, ◌*◌, ◌/◌, ◌%◌, ◌^◌, Bool, true, false, ◌||◌, List, [], ◌∷◌, ltb, leb,
  ◌==◌, u64, get_or, length, replicate, if◌then◌else◌,
}
use gap_miner_v.Marks.{mark_from, count_from, count_free, list_free}
use gap_miner_v.Covering.Target.{Residue}

-- `rng_next`: the number drawn is the new state.
unfoldable pub rng_next : ℕ → ℕ
rng_next state =
    let a = bit_xor state (u64 (state * 2 ^ 13)) in
    let b = bit_xor a (a / 2 ^ 7) in bit_xor b (u64 (b * 2 ^ 17))

unfoldable pub first_hit : ℕ → ℕ → ℕ
first_hit p r = let f = (p - r % p) % p in if f == 0 then p else f

module _ (gap_target : ℕ) where
  unfoldable pub count_cover : List Bool → Residue → ℕ
  unfolding first_hit
  count_cover covered (p, r) = count_from gap_target p (first_hit p r) gap_target covered 0

  unfoldable pub mark_cover : List Bool → Residue → List Bool
  unfolding first_hit
  mark_cover covered (p, r) = mark_from gap_target p (first_hit p r) gap_target covered

  unfoldable pub count_survivors : List Bool → ℕ
  count_survivors covered = count_free (gap_target - 1) 1 covered 0

  -- `while (j < gap_target && covered[j]) j++`, with the rounds that are left.
  unfoldable pub run_end : List Bool → ℕ → ℕ → ℕ
  run_end covered zero j = j
  run_end covered (suc left) j =
      let rest = run_end covered left (j + 1) in if get_or covered j false then rest else j

  -- The loop of `covered_stats`, with fuel: the longest covered run and the number of survivors.
  unfoldable pub stats_from : List Bool → ℕ → ℕ → ℕ → ℕ → ℕ × ℕ
  stats_from covered zero j longest surv = (longest, surv)
  stats_from covered (suc fuel) j longest surv =
      let done : ℕ × ℕ = (longest, surv) in
      let next = stats_from covered fuel (j + 1) longest (surv + 1) in
      let after = run_end covered (gap_target - j) j in
      let skip =
        stats_from covered fuel after (if ltb longest (after - j) then after - j else longest)
          surv in
      if ltb j gap_target then (if get_or covered j false then skip else next) else done

  unfoldable pub covered_stats : List Bool → ℕ × ℕ
  unfolding stats_from run_end
  covered_stats covered = stats_from covered gap_target 1 0 0

  -- The loop that rebuilds the coverage from residues.
  unfoldable pub mark_all : List Residue → List Bool → List Bool
  mark_all [] covered = covered
  mark_all (pr ∷ rest) covered = mark_all rest (mark_cover covered pr)

  abbrev pub fresh : List Bool
  fresh = replicate gap_target false

-- The three modes that `covering_optimize` sets; `blocks` needs floating point and is not modelled.
pub record Mode : Type 0 where
  pub run_mode : Bool
  pub lex_mode : Bool

unfoldable pub encode_score : Mode → ℕ → ℕ → ℕ → ℕ
encode_score mode longest survivors gap_target =
    if mode.run_mode
    then bit_or (u64 ((gap_target - longest) * 2 ^ 32)) survivors
    else if mode.lex_mode
    then bit_or (u64 (survivors * 2 ^ 32)) (gap_target - longest)
    else survivors

-- `eval_solution` outside the blocks mode.
unfoldable pub eval_solution : Mode → List Residue → ℕ → ℕ
unfolding mark_all mark_cover covered_stats encode_score
eval_solution mode primes gap_target =
    let (longest, surv) =
      covered_stats gap_target (mark_all gap_target primes (fresh gap_target)) in
    encode_score mode longest surv gap_target

unfoldable pub covering_longest_run : List Residue → ℕ → ℕ
unfolding mark_all mark_cover covered_stats
covering_longest_run primes gap_target =
    if (length primes == 0) || ltb gap_target 2
    then 0
    else (covered_stats gap_target (mark_all gap_target primes (fresh gap_target))).0

unfoldable pub covering_count_survivors : List Residue → ℕ → ℕ
unfolding mark_all mark_cover count_survivors
covering_count_survivors primes gap_target =
    if (length primes == 0) || ltb gap_target 2
    then 0
    else count_survivors gap_target (mark_all gap_target primes (fresh gap_target))

-- The offsets written to `survivors_out`; the number returned is their length.
unfoldable pub covering_survivors : List Residue → ℕ → List ℕ
unfolding mark_all mark_cover
covering_survivors primes gap_target =
    if (length primes == 0) || ltb gap_target 2
    then []
    else list_free (gap_target - 1) 1 (mark_all gap_target primes (fresh gap_target))

-- The loop of `covering_survivors_run_ge`: survivors that a covered run of `min_run` follows.
unfoldable pub runs_ge : List Bool → ℕ → ℕ → ℕ → ℕ → ℕ → ℕ
runs_ge covered window min_run zero j n = n
runs_ge covered window min_run (suc left) j n =
    let t = run_end window covered (window - (j + 1)) (j + 1) in
    runs_ge covered window min_run left (j + 1)
      (if get_or covered j false then n else if leb min_run (t - (j + 1)) then n + 1 else n)

unfoldable pub covering_survivors_run_ge : List Residue → ℕ → ℕ → ℕ
unfolding runs_ge run_end mark_all mark_cover
covering_survivors_run_ge primes window min_run =
    if (length primes == 0) || (ltb window 2 || (min_run == 0))
    then 0
    else runs_ge (mark_all window primes (fresh window)) window min_run (window - 1) 1 0
