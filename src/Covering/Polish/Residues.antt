-- ===== src/Covering/Polish/Residues.antt =====
-- The residues that `run_polish` picks.
use gap_miner_v.Prelude.{
  ℕ, zero, suc, ◌+◌, ◌-◌, ◌≤◌, ◌<◌, ◌≡◌, ◌∙◌, ◌⊎◌, ltb, ◌&&◌, refl, ap, arith, Bool, true, false,
  List, [], ◌∷◌, ◌++◌, if◌then◌else◌, Bool-cases, inl, inr,
}
use gap_miner_v.Covering.Target.{Residue}
use gap_miner_v.Covering.Polish.{
  Runs, Choice, is_better, try_from, find_runs, pick_run, polish, polish_from, run_polish,
}
use gap_miner_v.Covering.Cover.{first_hit, mark_all, fresh}

-- The chosen residue is from 1 below the prime; without a trial it may be anything.
abbrev InRange : ℕ → Choice → Type 0
InRange p best = best.first ≡ false → (1 ≤ best.best_r) × (best.best_r < p)

abbrev next_choice : Choice → Bool → ℕ → ℕ → ℕ → ℕ → Choice
next_choice best taken r run ncov best_surv = record {
  best_r = if taken then r else best.best_r;
  best_run = if taken then run else best.best_run;
  best_cov = if taken then ncov else best.best_cov;
  best_surv = best_surv;
  first = if taken then false else best.first;
}

next_choice-InRange :
    (p r : ℕ) (best : Choice) (taken : Bool) (run ncov best_surv : ℕ)
    → 1 ≤ r
    → r < p
    → InRange p best
    → InRange p (next_choice best taken r run ncov best_surv)
next_choice-InRange p r best true run ncov best_surv lo hi ok tried = (lo, hi)
next_choice-InRange p r best false run ncov best_surv lo hi ok tried = ok tried

module _ (gap_target : ℕ) (lex_mode : Bool) where
  first_taken :
      (best : Choice) (surv run ncov : ℕ)
      → (if is_better gap_target lex_mode best surv run ncov then false else best.first) ≡ false
  unfolding is_better
  first_taken best surv run ncov = elim (Bool-cases best.first) [
    | inl e ↦ rw e (ground arith)
    | inr e ↦ rw e (ground arith)
  ]

  pick_run-InRange :
      (covered : List Bool) (runs : Runs) (p rounds r : ℕ) (best : Choice)
      → 1 ≤ r
      → r + rounds ≡ p
      → InRange p best
      → (best.first ≡ false) ⊎ (0 < rounds)
      → (1 ≤ (pick_run gap_target lex_mode covered runs p rounds r best).best_r)
        × ((pick_run gap_target lex_mode covered runs p rounds r best).best_r < p)
  unfolding pick_run
  pick_run-InRange covered runs p zero r best lo e ok (inl tried) = ok tried
  pick_run-InRange covered runs p zero r best lo e ok (inr h) = elim h [ ]
  pick_run-InRange covered runs p (suc rounds) r best lo e ok some_round =
      let (run, ncov) =
        try_from gap_target covered runs gap_target p (first_hit p r) runs.base_run 0 in
      let surv = runs.base_surv - ncov in
      let best_surv = if lex_mode && ltb surv best.best_surv then surv else best.best_surv in
      let taken = is_better gap_target lex_mode best surv run ncov in
      pick_run-InRange covered runs p rounds (r + 1) (next_choice best taken r run ncov best_surv)
        (omega arith) (omega arith)
        (next_choice-InRange p r best taken run ncov best_surv lo (omega arith) ok)
        (inl (first_taken best surv run ncov))

  polish-InRange :
      (before after : List Residue) (p r : ℕ)
      → 2 ≤ p
      → (1 ≤ polish gap_target lex_mode before after (p, r))
        × (polish gap_target lex_mode before after (p, r) < p)
  unfolding polish
  polish-InRange before after p r h =
      let covered = mark_all gap_target (before ++ after) (fresh gap_target) in
      let runs = find_runs gap_target covered in
      pick_run-InRange covered runs p (p - 1) 1
        (record {
          best_r = r;
          best_run = 0;
          best_cov = 0;
          best_surv = runs.base_surv;
          first = true;
        })
        (omega arith) (omega arith) (λ e. ground arith) (inr (omega arith))

abbrev pub primes_of : List Residue → List ℕ
primes_of [] = []
primes_of ((p, r) ∷ ps) = p ∷ primes_of ps

-- Every prime is at least 2.
abbrev pub AllLarge : List Residue → Type 0
AllLarge [] = Unit {0}
AllLarge ((p, r) ∷ ps) = (2 ≤ p) × AllLarge ps

-- Every residue is from 1 below its prime.
abbrev pub AllInRange : List Residue → Type 0
AllInRange [] = Unit {0}
AllInRange ((p, r) ∷ ps) = (1 ≤ r) × (r < p) × AllInRange ps

AllInRange-append :
    (ps : List Residue) (p r : ℕ) → AllInRange ps → 1 ≤ r → r < p → AllInRange (ps ++ ((p, r) ∷ []))
AllInRange-append [] p r ok lo hi = (lo, hi, tt)
AllInRange-append ((q, s) ∷ ps) p r ok lo hi = (ok.0, ok.1, AllInRange-append ps p r ok.2 lo hi)

primes_of-append :
    (ps : List Residue) (p r : ℕ) (rest : List ℕ)
    → primes_of (ps ++ ((p, r) ∷ [])) ++ rest ≡ primes_of ps ++ (p ∷ rest)
primes_of-append [] p r rest = refl
primes_of-append ((q, s) ∷ ps) p r rest = rw (primes_of-append ps p r rest) refl

primes_of-end : (ps : List Residue) → primes_of ps ≡ primes_of ps ++ []
primes_of-end [] = refl
primes_of-end ((p, r) ∷ ps) = ap (λ qs. p ∷ qs) (primes_of-end ps)

module _ (gap_target : ℕ) (lex_mode : Bool) where
  polish_from-AllInRange :
      (before after : List Residue)
      → AllInRange before
      → AllLarge after
      → AllInRange (polish_from gap_target lex_mode before after)
        × (primes_of (polish_from gap_target lex_mode before after)
            ≡ primes_of before ++ primes_of after)
  unfolding polish_from
  polish_from-AllInRange before [] ok large = (ok, primes_of-end before)
  polish_from-AllInRange before ((p, r) ∷ after) ok large =
      let s = polish gap_target lex_mode before after (p, r) in
      let fits = polish-InRange gap_target lex_mode before after p r large.0 in
      let rest =
        polish_from-AllInRange (before ++ ((p, s) ∷ [])) after
          (AllInRange-append before p s ok fits.0 fits.1) large.1 in
      (rest.0, rest.1 ∙ primes_of-append before p s (primes_of after))

  -- For primes of at least 2, `run_polish` keeps the primes in order and gives each a residue from
  -- 1 below it, in both modes.
  pub run_polish-AllInRange :
      (primes : List Residue)
      → AllLarge primes
      → (primes_of (run_polish gap_target lex_mode primes) ≡ primes_of primes)
        × AllInRange (run_polish gap_target lex_mode primes)
  unfolding run_polish
  run_polish-AllInRange primes large =
      let result = polish_from-AllInRange [] primes tt large in (result.1, result.0)
