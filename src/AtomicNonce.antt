-- ===== src/AtomicNonce.antt =====
-- new_src/atomic_nonce.c: the lock-free allocator of header nonces, with its workers in any order.
-- A worker's call is split at its atomic accesses: the load of `current` and the compare-exchange,
-- which succeeds exactly when `current` still has the value that was loaded.
pub mod Claims
pub mod Progress
mod Tests
use gap_miner_v.Prelude.{
  ℕ, zero, suc, ◌+◌, ◌-◌, ◌^◌, ◌<◌, ◌≡◌, Bool, true, false, List, [], ◌∷◌, ◌++◌, replicate, ltb,
  leb, ◌==◌, u32, get_or, set, if◌then◌else◌,
}

-- `struct atomic_nonce`
pub record AtomicNonce : Type 0 where
  pub current : ℕ
  pub max_value : ℕ

-- A worker outside a call, before a load of a call of `atomic_nonce_claim`, and between the load of
-- `old_value` and the compare-exchange.
pub data Worker : Type 0 where
  idle : Worker
  looping : (limit requested : ℕ) → Worker
  loaded : (limit requested old_value : ℕ) → Worker

-- A call up to the loop: its guard, and the limit's upper bound.
unfoldable pub claim_call : AtomicNonce → ℕ → ℕ → Worker
claim_call nonce limit requested =
    if requested == 0
    then idle
    else looping (if ltb nonce.max_value limit then nonce.max_value else limit) requested

-- `old_value = atomic_load(...)` and the return on `old_value >= limit`.
unfoldable pub claim_load : AtomicNonce → Worker → Worker
claim_load nonce idle = idle
claim_load nonce (looping limit requested) =
    if leb limit nonce.current then idle else loaded limit requested nonce.current
claim_load nonce (loaded limit requested old_value) = loaded limit requested old_value

unfoldable pub claim_size : ℕ → ℕ → ℕ → ℕ
claim_size limit requested old_value =
    if ltb requested (limit - old_value) then requested else limit - old_value

-- The compare-exchange: what is left of the worker, the counter, and the claims that were made.
unfoldable pub claim_exchange : AtomicNonce → Worker → Worker × AtomicNonce × List (ℕ × ℕ)
unfolding claim_size
claim_exchange nonce idle = (idle, nonce, [])
claim_exchange nonce (looping limit requested) = (looping limit requested, nonce, [])
claim_exchange nonce (loaded limit requested old_value) =
    let size = claim_size limit requested old_value in
    if nonce.current == old_value
    then (
      idle,
      record { current = u32 (old_value + size); max_value = nonce.max_value },
      (old_value, size) ∷ [],
    )
    else (looping limit requested, nonce, [])

-- `atomic_nonce_next` runs the same loop up to `max_value`, one nonce at a time.
unfoldable pub next_call : AtomicNonce → Worker
next_call nonce = looping nonce.max_value 1

unfoldable pub exhausted : AtomicNonce → Bool
exhausted nonce = leb nonce.max_value nonce.current

-- The allocator, its workers, where the counter started, and the claims since, the last one first.
pub record System : Type 0 where
  pub nonce : AtomicNonce
  pub workers : List Worker
  pub start : ℕ
  pub claims : List (ℕ × ℕ)

unfoldable pub init : ℕ → ℕ → List Worker → System
init start max workers = record {
  nonce = record { current = start; max_value = max };
  workers = workers;
  start = start;
  claims = [];
}

unfoldable pub set_worker : System → ℕ → Worker → System
set_worker s i w = record {
  nonce = s.nonce;
  workers = set s.workers i w;
  start = s.start;
  claims = s.claims;
}

unfoldable pub exchange : System → ℕ → System
unfolding claim_exchange
exchange s i =
    let (worker, nonce, made) = claim_exchange s.nonce (get_or s.workers i idle) in
    record {
      nonce = nonce;
      workers = set s.workers i worker;
      start = s.start;
      claims = made ++ s.claims;
    }

-- `atomic_nonce_reset`, with calls of other workers under way: the claims are counted anew.
unfoldable pub reset : System → ℕ → System
reset s start = record {
  nonce = record { current = start; max_value = s.nonce.max_value };
  workers = s.workers;
  start = start;
  claims = [];
}

-- One atomic access of one worker. Worker `i` calls only outside a call.
pub data Step : System → System → Type 0 where
  step_claim :
      {s : System} (i limit requested : ℕ)
      → get_or s.workers i idle ≡ idle
      → Step s (set_worker s i (claim_call s.nonce limit requested))
  step_next :
      {s : System} (i : ℕ)
      → get_or s.workers i idle ≡ idle
      → Step s (set_worker s i (next_call s.nonce))
  step_load :
      {s : System} (i : ℕ) → Step s (set_worker s i (claim_load s.nonce (get_or s.workers i idle)))
  step_exchange : {s : System} (i : ℕ) → Step s (exchange s i)
  step_reset : {s : System} (start : ℕ) → Step s (reset s start)

-- What some workers outside a call, on a counter below 2 ^ 32, reach by steps.
pub data Reachable : System → Type 0 where
  reach_init :
      (start max workers : ℕ) → max < 2 ^ 32 → Reachable (init start max (replicate workers idle))
  reach_step : {s t : System} → Reachable s → Step s t → Reachable t
