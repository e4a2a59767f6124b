-- ===== src/AtomicNonce/Progress.antt =====
-- A call of new_src/atomic_nonce.c returns when its worker is not disturbed.
use gap_miner_v.Prelude.{
  ℕ, zero, suc, ◌<◌, ◌≡◌, ◌∙◌, ◌⊎◌, refl, ap, arith, true, false, List, [], ◌∷◌, leb, ◌==◌, get_or,
  set, length, Bool-cases, inl, inr, if-true, if-false, length-set,
}
use gap_miner_v.AtomicNonce.{
  AtomicNonce, Worker, idle, looping, loaded, claim_load, claim_exchange, System, set_worker,
  exchange, step_load, step_exchange, Reachable, reach_step,
}

get_or-set :
    (ws : List Worker) (i : ℕ) (w : Worker) → i < length ws → get_or (set ws i w) i idle ≡ w
get_or-set [] i w h = absurd (omega arith)
get_or-set (x ∷ ws) zero w h = refl
get_or-set (x ∷ ws) (suc i) w h = get_or-set ws i w (omega arith)

-- The next atomic access of a worker: the exchange after a load, else the load.
abbrev next_access : Worker → System → ℕ → System
next_access idle s i = s
next_access (looping limit requested) s i =
    set_worker s i (claim_load s.nonce (get_or s.workers i idle))
next_access (loaded limit requested old_value) s i = exchange s i

-- Worker `i` runs alone.
abbrev pub alone : ℕ → System → ℕ → System
alone zero s i = s
alone (suc accesses) s i = alone accesses (next_access (get_or s.workers i idle) s i) i

next_access-Reachable :
    (w : Worker) {s : System} (i : ℕ) → Reachable s → Reachable (next_access w s i)
next_access-Reachable idle i r = r
next_access-Reachable (looping limit requested) i r = reach_step r (step_load i)
next_access-Reachable (loaded limit requested old_value) i r = reach_step r (step_exchange i)

alone-Reachable : (k : ℕ) {s : System} (i : ℕ) → Reachable s → Reachable (alone k s i)
alone-Reachable zero i r = r
alone-Reachable (suc k) {s} i r =
    alone-Reachable k i (next_access-Reachable (get_or s.workers i idle) i r)

abbrev worker : System → ℕ → Worker
worker s i = get_or s.workers i idle

-- The first of the accesses, by what the worker is.
first_access :
    (k : ℕ) (s : System) (i : ℕ) (w : Worker)
    → worker s i ≡ w
    → alone (suc k) s i ≡ alone k (next_access w s i) i
first_access k s i w e = ap (λ (v : Worker). alone k (next_access v s i) i) e

alone-idle : (k : ℕ) (s : System) (i : ℕ) → worker s i ≡ idle → worker (alone k s i) i ≡ idle
alone-idle zero s i h = h
alone-idle (suc k) s i h =
    ap (λ (t : System). worker t i) (first_access k s i idle h) ∙ alone-idle k s i h

-- The exchange, by what the worker is.
exchange-worker :
    (s : System) (i : ℕ) (w : Worker)
    → i < length s.workers
    → worker s i ≡ w
    → (worker (exchange s i) i ≡ (claim_exchange s.nonce w).0)
      × ((exchange s i).nonce ≡ (claim_exchange s.nonce w).1)
      × (length (exchange s i).workers ≡ length s.workers)
unfolding exchange
exchange-worker s i w l h = (
  get_or-set s.workers i (claim_exchange s.nonce (worker s i)).0 l
      ∙ ap (λ (v : Worker). (claim_exchange s.nonce v).0) h,
  ap (λ (v : Worker). (claim_exchange s.nonce v).1) h,
  length-set s.workers i (claim_exchange s.nonce (worker s i)).0,
)

worker_loaded :
    (s : System) (i : ℕ) (w : Worker)
    → i < length s.workers
    → worker s i ≡ w
    → (worker (set_worker s i (claim_load s.nonce (worker s i))) i ≡ claim_load s.nonce w)
      × (length (set_worker s i (claim_load s.nonce (worker s i))).workers ≡ length s.workers)
      × ((set_worker s i (claim_load s.nonce (worker s i))).nonce ≡ s.nonce)
unfolding set_worker
worker_loaded s i w l h = (
  get_or-set s.workers i (claim_load s.nonce (worker s i)) l
      ∙ ap (λ (v : Worker). claim_load s.nonce v) h,
  length-set s.workers i (claim_load s.nonce (worker s i)),
  refl,
)

-- The exchange succeeds if the counter is what was loaded, and else the call goes on.
exchange_succeeds :
    (nonce : AtomicNonce) (limit requested old_value : ℕ)
    → (nonce.current == old_value) ≡ true
    → (claim_exchange nonce (loaded limit requested old_value)).0 ≡ idle
unfolding claim_exchange
exchange_succeeds nonce limit requested old_value h = rw h refl

exchange_fails :
    (nonce : AtomicNonce) (limit requested old_value : ℕ)
    → (nonce.current == old_value) ≡ false
    → (claim_exchange nonce (loaded limit requested old_value)).0 ≡ looping limit requested
unfolding claim_exchange
exchange_fails nonce limit requested old_value h = rw h refl

load_cases :
    (nonce : AtomicNonce) (limit requested : ℕ)
    → (claim_load nonce (looping limit requested) ≡ idle)
      ⊎ (claim_load nonce (looping limit requested) ≡ loaded limit requested nonce.current)
unfolding claim_load
load_cases nonce limit requested = elim (Bool-cases (leb limit nonce.current)) [
  | inl full ↦ inl (if-true _ _ _ full)
  | inr room ↦ inr (if-false _ _ _ room)
]

-- A counter as it was loaded: one access is left.
loaded-alone :
    (k : ℕ) (s : System) (i limit requested old_value : ℕ)
    → i < length s.workers
    → worker s i ≡ loaded limit requested old_value
    → (s.nonce.current == old_value) ≡ true
    → worker (alone (suc k) s i) i ≡ idle
loaded-alone k s i limit requested old_value l h same =
    let w = loaded limit requested old_value in
    ap (λ (t : System). worker t i) (first_access k s i w h)
    ∙ alone-idle k (exchange s i) i
        ((exchange-worker s i w l h).0 ∙ exchange_succeeds s.nonce limit requested old_value same)

looping-alone :
    (k : ℕ) (s : System) (i limit requested : ℕ)
    → i < length s.workers
    → worker s i ≡ looping limit requested
    → worker (alone (suc (suc k)) s i) i ≡ idle
looping-alone k s i limit requested l h =
    let w = looping limit requested in
    let t = set_worker s i (claim_load s.nonce (worker s i)) in
    let load = worker_loaded s i w l h in
    ap (λ (t : System). worker t i) (first_access (suc k) s i w h)
    ∙ elim (load_cases s.nonce limit requested) [
      | inl full ↦ alone-idle (suc k) t i (load.0 ∙ full)
      | inr room ↦
          loaded-alone k t i limit requested s.nonce.current (omega (arith, load.1)) (load.0 ∙ room)
            (let c = ap (λ (m : AtomicNonce). m.current) load.2 in ground (arith, c))
    ]

-- Three accesses are enough for every worker.
three_accesses :
    (s : System) (i : ℕ) (w : Worker)
    → i < length s.workers
    → worker s i ≡ w
    → worker (alone 3 s i) i ≡ idle
three_accesses s i idle l h = alone-idle 3 s i h
three_accesses s i (looping limit requested) l h = looping-alone 1 s i limit requested l h
three_accesses s i (loaded limit requested old_value) l h =
    elim (Bool-cases (s.nonce.current == old_value)) [
      | inl same ↦ loaded-alone 2 s i limit requested old_value l h same
      | inr changed ↦
          let w = loaded limit requested old_value in
          let e = exchange-worker s i w l h in
          ap (λ (t : System). worker t i) (first_access 2 s i w h)
          ∙ looping-alone 0 (exchange s i) i limit requested (let k = e.2 in omega (arith, k))
              (e.0 ∙ exchange_fails s.nonce limit requested old_value changed)
    ]

-- From every reachable state, a worker that three times in a row is the only one to run has returned from
-- its call, in a reachable state.
pub Reachable-alone :
    {s : System} (i : ℕ)
    → Reachable s
    → i < length s.workers
    → Reachable (alone 3 s i) × (get_or (alone 3 s i).workers i idle ≡ idle)
Reachable-alone {s} i reached l =
    (alone-Reachable 3 i reached, three_accesses s i (get_or s.workers i idle) l refl)
