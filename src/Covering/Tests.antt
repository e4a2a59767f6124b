-- ===== src/Covering/Tests.antt =====
-- new_src/covering.c and new_src/gap_target.c on the primes 3 and 5 and a gap of 12.
use gap_miner_v.Prelude.{
  ℕ, ◌+◌, ◌≤◌, ◌<◌, ◌≡◌, refl, arith, Bool, true, false, ◌⊎◌, some, List, [], ◌∷◌, length, ◌==◌,
}
use gap_miner_v.Covering.Target.{Residue, GapTarget, build, check}
use gap_miner_v.Covering.Target.Laws.{AllFit, uncovered}
use gap_miner_v.Covering.Target.Sound.{build_lem, check_sound, has_divisor}
use gap_miner_v.Covering.Cover.{covering_survivors, covering_count_survivors}
use gap_miner_v.Covering.Cover.Count.{covering_survivors_lem}
use gap_miner_v.Covering.Polish.{run_polish}
use gap_miner_v.Covering.Polish.Residues.{primes_of, AllInRange, run_polish-AllInRange}
use gap_miner_v.Covering.Sweep.{local_sweep}
use gap_miner_v.Covering.Sweep.Improves.{local_sweep-survivors}

abbrev classes : List Residue
classes = (3, 1) ∷ (5, 2) ∷ []

abbrev survivors : List ℕ
survivors = 1 ∷ 4 ∷ 6 ∷ 7 ∷ 9 ∷ 10 ∷ []

-- The only prime of this test is 7.
abbrev only_seven : ℕ → Bool
only_seven n = n == 7

classes-AllFit : AllFit 12 classes
classes-AllFit = ground arith

classes-uncovered : uncovered classes 11 1 ≡ survivors
classes-uncovered = refl

abbrev target : GapTarget
target = record { survivors = survivors; n_survivors = 6; gap_size = 12 }

target_built : build 12 classes ≡ some target
target_built = build_lem 12 classes classes-AllFit

target_checked : check only_seven target 7 ≡ true
unfolding check
target_checked = refl

check_sound_example :
    (only_seven 7 ≡ true)
    × ((j : ℕ)
        → 1 ≤ j
        → j < 12
        → (has_divisor classes (7 + j) ≡ true) ⊎ (only_seven (7 + j) ≡ false))
check_sound_example =
    check_sound only_seven 12 classes 7 classes-AllFit (ground arith) target_built target_checked

covering_survivors_lem_example :
    (covering_survivors classes 12 ≡ survivors)
    × (covering_count_survivors classes 12 ≡ length (covering_survivors classes 12))
covering_survivors_lem_example = covering_survivors_lem classes 12 classes-AllFit

local_sweep-survivors_example :
    (covering_count_survivors (local_sweep 12 classes) 12 ≤ covering_count_survivors classes 12)
    × (length (local_sweep 12 classes) ≡ 2)
local_sweep-survivors_example = local_sweep-survivors 12 classes classes-AllFit

run_polish-AllInRange_example :
    (primes_of (run_polish 12 true classes) ≡ 3 ∷ 5 ∷ []) × AllInRange (run_polish 12 true classes)
run_polish-AllInRange_example = run_polish-AllInRange 12 true classes (omega arith)
