-- ===== src/AtomicNonce/Tests.antt =====
-- new_src/atomic_nonce.c with two workers that race for the same nonces.
use gap_miner_v.Prelude.{◌≡◌, refl, arith, [], ◌∷◌, get_or}
use gap_miner_v.AtomicNonce.{
  System, idle, loaded, claim_call, claim_load, claim_size, claim_exchange, next_call, init,
  set_worker, exchange, Reachable, reach_init, reach_step, step_claim, step_next, step_load,
  step_exchange,
}
use gap_miner_v.AtomicNonce.Progress.{alone, Reachable-alone}
use gap_miner_v.AtomicNonce.Claims.{count_in, Reachable-count_in, Reachable-max_value}

-- Both workers load 0; the second one exchanges first, and the first one has to load again.
abbrev raced : System
raced = record {
  nonce = record { current = 4; max_value = 10 };
  workers = loaded 10 1 4 ∷ idle ∷ [];
  start = 0;
  claims = (0, 4) ∷ [];
}

race : Reachable raced
unfolding init set_worker exchange claim_exchange claim_size claim_call claim_load next_call
race =
    reach_step
      (reach_step
        (reach_step
          (reach_step
            (reach_step
              (reach_step (reach_step (reach_init 0 10 2 (omega arith)) (step_next 0 refl))
                (step_claim 1 20 4 refl))
              (step_load 0))
            (step_load 1))
          (step_exchange 1))
        (step_exchange 0))
      (step_load 0)

Reachable-count_in_example : count_in 3 raced.claims ≡ 1
Reachable-count_in_example = Reachable-count_in 3 race

Reachable-max_value_example : count_in 12 raced.claims ≡ 0
Reachable-max_value_example = Reachable-max_value 12 race (omega arith)

Reachable-alone_example :
    Reachable (alone 3 raced 0) × (get_or (alone 3 raced 0).workers 0 idle ≡ idle)
Reachable-alone_example = Reachable-alone 0 race (omega arith)
