-- ===== src/Covering/Polish.antt =====
-- new_src/covering.c: `run_polish`, which picks each residue again for the longest covered run.
pub mod Residues
use gap_miner_v.Prelude.{
  ℕ, zero, suc, ◌+◌, ◌-◌, Bool, true, false, ◌||◌, ◌&&◌, List, [], ◌∷◌, ◌++◌, ltb, leb, ◌==◌, u64,
  get_or, set, replicate, if◌then◌else◌,
}
use gap_miner_v.Covering.Target.{Residue}
use gap_miner_v.Covering.Cover.{first_hit, run_end, mark_all, fresh}

-- The runs of the bitmap: the longest, the number of free offsets, and for a covered offset the
-- first and the last one of its run.
pub record Runs : Type 0 where
  pub base_run : ℕ
  pub base_surv : ℕ
  pub left : List ℕ
  pub right : List ℕ

-- The best residue so far; `first` holds until one was tried.
pub record Choice : Type 0 where
  pub best_r : ℕ
  pub best_run : ℕ
  pub best_cov : ℕ
  pub best_surv : ℕ
  pub first : Bool

-- `for (t = s; t <= e; t++) bound[t] = v`, for `count` offsets from `t` on.
unfoldable pub set_range : ℕ → ℕ → ℕ → List ℕ → List ℕ
set_range zero t v bound = bound
set_range (suc count) t v bound = set_range count (t + 1) v (set bound t v)

module _ (gap_target : ℕ) where
  -- The loop over the bitmap, with fuel.
  unfoldable pub runs_from : List Bool → ℕ → ℕ → Runs → Runs
  unfolding set_range
  runs_from covered zero j runs = runs
  runs_from covered (suc fuel) j runs =
      let after = run_end gap_target covered (gap_target - j) j in
      let free = runs_from covered fuel (j + 1) (record {
        base_run = runs.base_run;
        base_surv = runs.base_surv + 1;
        left = runs.left;
        right = runs.right;
      }) in
      let skip = runs_from covered fuel after (record {
        base_run = if ltb runs.base_run (after - j) then after - j else runs.base_run;
        base_surv = runs.base_surv;
        left = set_range (after - j) j j runs.left;
        right = set_range (after - j) j (after - 1) runs.right;
      }) in
      if ltb j gap_target then (if get_or covered j false then skip else free) else runs

  unfoldable pub find_runs : List Bool → Runs
  unfolding runs_from
  find_runs covered = runs_from covered gap_target 1 (record {
    base_run = 0;
    base_surv = 0;
    left = replicate gap_target 0;
    right = replicate gap_target 0;
  })

  -- The run that covering the free offset `j` would make.
  unfoldable pub merged : List Bool → Runs → ℕ → ℕ
  merged covered runs j =
      let below =
        if leb 1 j && get_or covered (j - 1) false
        then get_or runs.right (j - 1) 0 - get_or runs.left (j - 1) 0 + 1
        else 0 in
      let above =
        if ltb (j + 1) gap_target && get_or covered (j + 1) false
        then get_or runs.right (j + 1) 0 - get_or runs.left (j + 1) 0 + 1
        else 0 in
      1 + below + above

  -- The loop over the offsets of a residue, with fuel: the longest run and the newly covered.
  unfoldable pub try_from : List Bool → Runs → ℕ → ℕ → ℕ → ℕ → ℕ → ℕ × ℕ
  unfolding merged
  try_from covered runs zero p j run ncov = (run, ncov)
  try_from covered runs (suc fuel) p j run ncov =
      let len = merged covered runs j in
      let same = try_from covered runs fuel p (u64 (j + p)) run ncov in
      let more =
        try_from covered runs fuel p (u64 (j + p)) (if ltb run len then len else run) (ncov + 1) in
      let done : ℕ × ℕ = (run, ncov) in
      if ltb j gap_target then (if get_or covered j false then same else more) else done

  unfoldable pub is_better : Bool → Choice → ℕ → ℕ → ℕ → Bool
  is_better lex_mode best surv run ncov =
      if lex_mode
      then best.first
        || (ltb surv best.best_surv
            || (((surv == best.best_surv) && ltb best.best_run run)
                || ((surv == best.best_surv)
                    && ((run == best.best_run) && ltb best.best_cov ncov))))
      else best.first
        || (ltb best.best_run run || ((run == best.best_run) && ltb best.best_cov ncov))

  -- `for (r = 1; r < p; r++)`, with `rounds` to go. Only lex mode follows the survivors.
  unfoldable pub pick_run : Bool → List Bool → Runs → ℕ → ℕ → ℕ → Choice → Choice
  unfolding try_from is_better
  pick_run lex_mode covered runs p zero r best = best
  pick_run lex_mode covered runs p (suc rounds) r best =
      let (run, ncov) = try_from covered runs gap_target p (first_hit p r) runs.base_run 0 in
      let surv = runs.base_surv - ncov in
      let best_surv = if lex_mode && ltb surv best.best_surv then surv else best.best_surv in
      let taken = is_better lex_mode best surv run ncov in
      pick_run lex_mode covered runs p rounds (r + 1) (record {
        best_r = if taken then r else best.best_r;
        best_run = if taken then run else best.best_run;
        best_cov = if taken then ncov else best.best_cov;
        best_surv = best_surv;
        first = if taken then false else best.first;
      })

  -- The body for the prime between `before` and `after`.
  unfoldable pub polish : Bool → List Residue → List Residue → Residue → ℕ
  unfolding find_runs pick_run mark_all
  polish lex_mode before after (p, r) =
      let covered = mark_all gap_target (before ++ after) (fresh gap_target) in
      let runs = find_runs covered in
      (pick_run lex_mode covered runs p (p - 1) 1 (record {
        best_r = r;
        best_run = 0;
        best_cov = 0;
        best_surv = runs.base_surv;
        first = true;
      })).best_r

  unfoldable pub polish_from : Bool → List Residue → List Residue → List Residue
  polish_from lex_mode before [] = before
  polish_from lex_mode before ((p, r) ∷ after) =
      polish_from lex_mode (before ++ ((p, polish lex_mode before after (p, r)) ∷ [])) after

  unfoldable pub run_polish : Bool → List Residue → List Residue
  unfolding polish_from polish
  run_polish lex_mode primes = polish_from lex_mode [] primes
