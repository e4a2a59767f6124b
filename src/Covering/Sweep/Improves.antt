-- ===== src/Covering/Sweep/Improves.antt =====
-- A local sweep never leaves more survivors than it started with.
use mathlib.Core.List.{append-nil, append_assoc}
use native.Mathlib.Decide.{dec_lt}
use native.Mathlib.Nat.{le_trans}
use gap_miner_v.Prelude.{
  ℕ, zero, suc, ◌+◌, ◌-◌, ◌%◌, ◌^◌, ◌≤◌, ◌<◌, ◌≡◌, refl, sym, ap, ◌∙◌, arith, Bool, false, ◌||◌,
  List, [], ◌∷◌, ◌++◌, ltb, ltb→lt, ◌==◌, length, length-replicate, if◌then◌else◌, Bool-cases, inl,
  inr,
}
use gap_miner_v.Marks.{count_free}
use gap_miner_v.Marks.Balance.{count_free_ext, mark_from_balance}
use gap_miner_v.Covering.Target.{Residue}
use gap_miner_v.Covering.Target.Laws.{covered_by, AllFit}
use gap_miner_v.Covering.Cover.{
  first_hit, count_cover, mark_cover, count_survivors, mark_all, fresh, covering_count_survivors,
}
use gap_miner_v.Covering.Cover.Count.{
  first_hit_pos, get_or-mark_cover, get_or-fresh, length-mark_all,
}
use gap_miner_v.Covering.Sweep.{Best, pick, repick, sweep_from, local_sweep}

covered_by-insert :
    (before after : List Residue) (p r j : ℕ)
    → covered_by (before ++ (p, r) ∷ after) j
      ≡ (((r + j) % p == 0) || covered_by (before ++ after) j)
covered_by-insert [] after p r j = refl
covered_by-insert ((q, s) ∷ before) after p r j =
    rw (covered_by-insert before after p r j)
      (or_left ((s + j) % q == 0) ((r + j) % p == 0) (covered_by (before ++ after) j))
  where
    or_left : (a b c : Bool) → (a || (b || c)) ≡ (b || (a || c))
    or_left a b c = ground arith

module _ (n : ℕ) where
  AllFit-insert :
      (before after : List Residue) (p r : ℕ)
      → AllFit n (before ++ (p, r) ∷ after)
      → (0 < p) × (n + p ≤ 2 ^ 64) × AllFit n (before ++ after)
  AllFit-insert [] after p r h = h
  AllFit-insert ((q, s) ∷ before) after p r h =
      let (pos, fits, rest) = AllFit-insert before after p r h.2 in (pos, fits, (h.0, h.1, rest))

  AllFit-replace :
      (before after : List Residue) (p r s : ℕ)
      → AllFit n (before ++ (p, r) ∷ after)
      → AllFit n (before ++ (p, s) ∷ after)
  AllFit-replace [] after p r s h = h
  AllFit-replace ((q, t) ∷ before) after p r s h = (h.0, h.1, AllFit-replace before after p r s h.2)

  abbrev survivors : List Residue → ℕ
  survivors ps = count_survivors n (mark_all n ps (fresh n))

  -- What one class contributes: the free offsets that it covers beyond the other classes.
  survivors-insert :
      (before after : List Residue) (p r : ℕ)
      → 1 ≤ n
      → AllFit n (before ++ (p, r) ∷ after)
      → survivors (before ++ after)
        ≡ survivors (before ++ (p, r) ∷ after)
          + count_cover n (mark_all n (before ++ after) (fresh n)) (p, r)
  unfolding count_survivors
  survivors-insert before after p r one fit =
      let (pos, fits, rest) = AllFit-insert before after p r fit in
      let covered = mark_all n (before ++ after) (fresh n) in
      let len : n ≤ length covered =
        omega (arith, length-mark_all n (before ++ after) (fresh n), length-replicate n false) in
      omega (
        arith,
        balance covered pos fits len,
        count_free_ext (n - 1) 1 (mark_cover n covered (p, r))
            (mark_all n (before ++ (p, r) ∷ after) (fresh n))
            (λ i lo hi.
              get_or-mark_cover n covered p r i pos fits len lo (omega arith)
              ∙ (rw (get_or-fresh n (before ++ after) i rest lo (omega arith))
                    (sym (covered_by-insert before after p r i))
                  ∙ sym (get_or-fresh n (before ++ (p, r) ∷ after) i fit lo (omega arith)))),
      )
    where
      balance :
          (covered : List Bool)
          → 0 < p
          → n + p ≤ 2 ^ 64
          → n ≤ length covered
          → count_free (n - 1) 1 covered 0
            ≡ count_free (n - 1) 1 (mark_cover n covered (p, r)) 0 + count_cover n covered (p, r)
      balance covered pos fits len =
          unfold mark_cover count_cover in
          mark_from_balance n p (first_hit p r) n (n - 1) 1 covered pos fits len (omega arith)
            (first_hit_pos p r pos)

  -- What the choice of a residue keeps: the count belongs to the residue, and only grows.
  record IsBest (covered : List Bool) (p : ℕ) (from : ℕ) (to : ℕ) (old new : Best) : Type 0 where
    counted : new.best_c ≡ count_cover n covered (p, new.best_r)
    grown : old.best_c ≤ new.best_c
    beats : (r : ℕ) → from ≤ r → r < to → count_cover n covered (p, r) ≤ new.best_c

  pick_lem :
      (covered : List Bool) (p left r to : ℕ) (best : Best)
      → r + left ≡ to
      → best.best_c ≡ count_cover n covered (p, best.best_r)
      → IsBest covered p r to best (pick n covered p left r best)
  unfolding pick
  pick_lem covered p zero r to best e h = record {
    counted = h;
    grown = omega arith;
    beats = λ s lo hi. absurd (omega arith);
  }
  pick_lem covered p (suc left) r to best e h = elim (Bool-cases (ltb best.best_c c)) [
    | inl more ↦
        let rest =
          pick_lem covered p left (r + 1) to (record { best_r = r; best_c = c }) (omega arith)
            refl in
        rw more (record {
          counted = rest.counted;
          grown = omega (arith, rest.grown, ltb→lt best.best_c c more);
          beats = λ s lo hi. elim (dec_lt r s) [
            | yes far ↦ rest.beats s (omega arith) hi
            | no here ↦ let at : s ≡ r = omega arith in rw at rest.grown
          ];
        })
    | inr less ↦
        let rest = pick_lem covered p left (r + 1) to best (omega arith) h in
        rw less (record {
          counted = rest.counted;
          grown = rest.grown;
          beats = λ s lo hi. elim (dec_lt r s) [
            | yes far ↦ rest.beats s (omega arith) hi
            | no here ↦
                let at : s ≡ r = omega arith in rw at (omega (arith, rest.grown, not_more less))
          ];
        })
  ]
    where
      c : ℕ
      c = count_cover n covered (p, r)

      not_more : ltb best.best_c c ≡ false → c ≤ best.best_c
      not_more k = ground arith

  repick_lem :
      (before after : List Residue) (p r : ℕ)
      → let covered = mark_all n (before ++ after) (fresh n) in
        (count_cover n covered (p, r) ≤ count_cover n covered (p, repick n before after (p, r)))
        × ((s : ℕ)
            → 1 ≤ s
            → s < p
            → count_cover n covered (p, s)
              ≤ count_cover n covered (p, repick n before after (p, r)))
  unfolding repick
  repick_lem before after p r =
      let covered = mark_all n (before ++ after) (fresh n) in
      let result =
        pick_lem covered p (p - 1) 1 (1 + (p - 1))
          (record { best_r = r; best_c = count_cover n covered (p, r) }) refl refl in
      (
        rw (← result.counted) result.grown,
        λ s lo hi. rw (← result.counted) (result.beats s lo (omega arith)),
      )

  -- The body of `local_sweep` for one prime.
  repick_improves :
      (before after : List Residue) (p r : ℕ)
      → 1 ≤ n
      → AllFit n (before ++ (p, r) ∷ after)
      → survivors (before ++ (p, repick n before after (p, r)) ∷ after)
        ≤ survivors (before ++ (p, r) ∷ after)
  repick_improves before after p r one fit = omega (
    arith,
    survivors-insert before after p r one fit,
    survivors-insert before after p (repick n before after (p, r)) one
        (AllFit-replace before after p r (repick n before after (p, r)) fit),
    (repick_lem before after p r).0,
  )

  length-replace :
      (before after : List Residue) (p r s : ℕ)
      → length (before ++ (p, r) ∷ after) ≡ length (before ++ (p, s) ∷ after)
  length-replace [] after p r s = refl
  length-replace (q ∷ before) after p r s = ap suc (length-replace before after p r s)

  sweep_joined :
      (before after : List Residue) (p r s : ℕ)
      → (before ++ (p, s) ∷ []) ++ after ≡ before ++ (p, s) ∷ after
  sweep_joined before after p r s = append_assoc before ((p, s) ∷ []) after

  length-sweep_from :
      (before after : List Residue) → length (sweep_from n before after) ≡ length (before ++ after)
  unfolding sweep_from
  length-sweep_from before [] = rw append-nil refl
  length-sweep_from before ((p, r) ∷ after) =
      let best = repick n before after (p, r) in
      length-sweep_from (before ++ (p, best) ∷ []) after
      ∙ (ap length (sweep_joined before after p r best) ∙ length-replace before after p best r)

  sweep_from_improves :
      (before after : List Residue)
      → 1 ≤ n
      → AllFit n (before ++ after)
      → survivors (sweep_from n before after) ≤ survivors (before ++ after)
  unfolding sweep_from
  sweep_from_improves before [] one fit = rw append-nil (omega arith)
  sweep_from_improves before ((p, r) ∷ after) one fit =
      let best = repick n before after (p, r) in
      let joined = sweep_joined before after p r best in
      let fewer =
        sweep_from_improves (before ++ (p, best) ∷ []) after one
          (rw joined (AllFit-replace before after p r best fit)) in
      le_trans (rw joined at fewer) (repick_improves before after p r one fit)

  -- `local_sweep` keeps the number of primes and never leaves more survivors than before.
  pub local_sweep-survivors :
      (ps : List Residue)
      → AllFit n ps
      → (covering_count_survivors (local_sweep n ps) n ≤ covering_count_survivors ps n)
        × (length (local_sweep n ps) ≡ length ps)
  unfolding local_sweep covering_count_survivors
  local_sweep-survivors ps fit = elim (Bool-cases (ltb n 2)) [
    | inl tiny ↦ (rw tiny (ground arith), length-sweep_from [] ps)
    | inr large ↦
        let fewer = sweep_from_improves [] ps (ground arith) fit in
        (
          rw (large, length-sweep_from [] ps) (guarded (length ps == 0) fewer),
          length-sweep_from [] ps,
        )
  ]
    where
      guarded :
          (none_left : Bool) {a b : ℕ}
          → a ≤ b
          → (if none_left || false then 0 else a) ≤ (if none_left || false then 0 else b)
      guarded none_left h = ground arith
