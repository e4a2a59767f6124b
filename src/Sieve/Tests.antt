-- ===== src/Sieve/Tests.antt =====
-- new_src/sieve_core.c on small windows.
use gap_miner_v.Prelude.{ℕ, ◌≡◌, refl, arith, false, some, [], ◌∷◌}
use gap_miner_v.Marks.{mark_from}
use gap_miner_v.Sieve.{
  SieveCore, SievePrime, init_window, prepare_base_mod_p, run_from_cached_base, run, run_impl,
  run_odd_only, mark_odd_slots, odd_slot, residue_of, sieve_fast_mod, counted, free_slots,
  extract_odd_candidates, primes_up_to,
}
use gap_miner_v.Sieve.FastMod.{sieve_fast_mod_lem}
use gap_miner_v.Sieve.Table.{primes_up_to_lem}
use gap_miner_v.Sieve.Window.{window_candidates}

abbrev entry : ℕ → ℕ → SievePrime
entry p inv_p = record { prime = p; inv_p = inv_p; base_mod_p = 0 }

abbrev ten : SieveCore
ten = record {
  interval_size = 10;
  bitmap_words = 1;
  candidate_capacity = 10;
  small_primes =
      entry 2 0
      ∷ entry 3 6148914691236517205
      ∷ entry 5 3689348814741910323
      ∷ entry 7 2635249153387078802
      ∷ [];
  prime_limit = 10;
  base_mod_p_valid = false;
}

-- Of the odd numbers from 1000 to 1009 only 1001 and 1005 have a factor 3, 5 or 7.
run_1000 : run ten 1000 ≡ some (3 ∷ 7 ∷ 9 ∷ [])
unfolding run run_impl run_odd_only mark_odd_slots odd_slot residue_of sieve_fast_mod
    extract_odd_candidates counted free_slots mark_from
run_1000 = refl

-- An odd base is taken for an even one: of 9 to 18 the run lists only 16.
run_9 : run ten 9 ≡ some (7 ∷ [])
unfolding run run_impl run_odd_only mark_odd_slots odd_slot residue_of sieve_fast_mod
    extract_odd_candidates counted free_slots mark_from
run_9 = refl

sieve_fast_mod_lem_example : sieve_fast_mod 1000 7 2635249153387078802 ≡ 6
sieve_fast_mod_lem_example = sieve_fast_mod_lem 1000 7 (omega arith) (omega arith)

primes_up_to_lem_example : primes_up_to 30 ≡ 2 ∷ 3 ∷ 5 ∷ 7 ∷ 11 ∷ 13 ∷ 17 ∷ 19 ∷ 23 ∷ 29 ∷ []
primes_up_to_lem_example = primes_up_to_lem 30 (omega arith) (omega arith)

window_candidates_example :
    (sc : SieveCore) × (init_window 30 7 ≡ some sc)
    × (run_from_cached_base (prepare_base_mod_p sc 1000) 20
        ≡ some (1 ∷ 7 ∷ 11 ∷ 13 ∷ 17 ∷ 19 ∷ 29 ∷ []))
window_candidates_example =
    window_candidates 30 7 1000 20 (omega arith) (omega arith) (omega arith) (omega arith)
      (omega arith) refl
