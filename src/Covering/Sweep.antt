-- ===== src/Covering/Sweep.antt =====
-- new_src/covering.c: the greedy pass and the local sweep over the residues.
pub mod Improves
use gap_miner_v.Prelude.{
  ℕ, zero, suc, ◌+◌, ◌-◌, ◌%◌, Bool, true, false, ◌||◌, ◌&&◌, List, [], ◌∷◌, ◌++◌, ltb, leb, ◌==◌,
  if◌then◌else◌, get_or, set,
}
use gap_miner_v.Covering.Target.{Residue}
use gap_miner_v.Covering.Cover.{rng_next, count_cover, mark_cover, mark_all, fresh}

pub record Best : Type 0 where
  pub best_r : ℕ
  pub best_c : ℕ

module _ (gap_target : ℕ) where
  -- `for (r = 1; r < p; r++)`: keep the residue that covers the most.
  unfoldable pub pick : List Bool → ℕ → ℕ → ℕ → Best → Best
  pick covered p zero r best = best
  pick covered p (suc left) r best =
      let c = count_cover gap_target covered (p, r) in
      pick covered p left (r + 1)
        (if ltb best.best_c c then record { best_r = r; best_c = c } else best)

  -- The body of `local_sweep` for the prime between `before` and `after`.
  unfoldable pub repick : List Residue → List Residue → Residue → ℕ
  unfolding pick
  repick before after (p, r) =
      let covered = mark_all gap_target (before ++ after) (fresh gap_target) in
      (pick covered p (p - 1) 1
        (record { best_r = r; best_c = count_cover gap_target covered (p, r) })).best_r

  -- The loop of `local_sweep`: `before` is what it has been through.
  unfoldable pub sweep_from : List Residue → List Residue → List Residue
  sweep_from before [] = before
  sweep_from before ((p, r) ∷ after) =
      sweep_from (before ++ ((p, repick before after (p, r)) ∷ [])) after

  unfoldable pub local_sweep : List Residue → List Residue
  unfolding sweep_from repick
  local_sweep primes = sweep_from [] primes

  -- The inner loop of `greedy_pass`: ties are broken by the generator, which advances only on them.
  unfoldable pub pick_greedy : List Bool → ℕ → ℕ → ℕ → Best → ℕ → Best × ℕ
  pick_greedy covered p zero r best rng = (best, rng)
  pick_greedy covered p (suc left) r best rng =
      let c = count_cover gap_target covered (p, r) in
      let taken : Best = record { best_r = r; best_c = c } in
      let drawn = rng_next rng in
      let tie = c == best.best_c in
      pick_greedy covered p left (r + 1)
        (if ltb best.best_c c || (tie && (drawn % 2 == 1)) then taken else best)
        (if ltb best.best_c c then rng else if tie then drawn else rng)

  -- `greedy_pass`: `order` holds indices into `primes` and `residues`, which it writes.
  unfoldable pub greedy_pass : List ℕ → List ℕ → List ℕ → List Bool → ℕ → List ℕ × List Bool × ℕ
  unfolding pick_greedy
  greedy_pass primes [] residues covered rng = (residues, covered, rng)
  greedy_pass primes (k ∷ order) residues covered rng =
      let p = get_or primes k 0 in
      let (best, rng1) = pick_greedy covered p (p - 1) 1 (record { best_r = 1; best_c = 0 }) rng in
      greedy_pass primes order (set residues k best.best_r)
        (mark_cover gap_target covered (p, best.best_r)) rng1
