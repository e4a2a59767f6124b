-- ===== src/AtomicNonce/Claims.antt =====
-- Every nonce from the start up to the counter is claimed once, in every order of the workers' steps.
use mathlib.Core.Path.{subst}
use gap_miner_v.Prelude.{
  ℕ, zero, suc, ◌+◌, ◌^◌, ◌≤◌, ◌<◌, ◌≡◌, refl, arith, ◌&&◌, List, [], ◌∷◌, replicate, ltb, leb,
  ◌==◌, u32, get_or, set, if◌then◌else◌, Bool-cases, inl, inr,
}
use gap_miner_v.AtomicNonce.{
  AtomicNonce, Worker, idle, looping, loaded, claim_call, claim_load, claim_size, claim_exchange,
  next_call, System, init, set_worker, exchange, reset, Step, step_claim, step_next, step_load,
  step_exchange, step_reset, Reachable, reach_init, reach_step,
}

-- How many claims have a nonce.
abbrev pub count_in : ℕ → List (ℕ × ℕ) → ℕ
count_in k [] = 0
count_in k ((first, count) ∷ claims) =
    (if leb first k && ltb k (first + count) then 1 else 0) + count_in k claims

-- The claims, the last one first, lie end to end from the start up to the counter, and below a bound.
abbrev Tiled : ℕ → ℕ → List (ℕ × ℕ) → ℕ → Type 0
Tiled bound start [] current = current ≡ start
Tiled bound start ((first, count) ∷ claims) current =
    (first + count ≡ current) × (current ≤ bound) × (0 < count) × Tiled bound start claims first

-- A worker's limit is the counter's maximum at most; what it claims is not empty.
abbrev Bounded : ℕ → Worker → Type 0
Bounded max idle = Unit {0}
Bounded max (looping limit requested) = (limit ≤ max) × (0 < requested)
Bounded max (loaded limit requested old_value) =
    (limit ≤ max) × (0 < requested) × (old_value < limit)

abbrev AllBounded : ℕ → List Worker → Type 0
AllBounded max [] = Unit {0}
AllBounded max (w ∷ ws) = Bounded max w × AllBounded max ws

abbrev Invariant : System → Type 0
Invariant s =
    (s.nonce.max_value < 2 ^ 32)
    × AllBounded s.nonce.max_value s.workers
    × Tiled s.nonce.max_value s.start s.claims s.nonce.current

AllBounded-idle : (max n : ℕ) → AllBounded max (replicate n idle)
AllBounded-idle max zero = tt
AllBounded-idle max (suc n) = (tt, AllBounded-idle max n)

Bounded-get_or :
    (max : ℕ) (ws : List Worker) (i : ℕ) → AllBounded max ws → Bounded max (get_or ws i idle)
Bounded-get_or max [] i ok = tt
Bounded-get_or max (w ∷ ws) zero ok = ok.0
Bounded-get_or max (w ∷ ws) (suc i) ok = Bounded-get_or max ws i ok.1

AllBounded-set :
    (max : ℕ) (ws : List Worker) (i : ℕ) (w : Worker)
    → AllBounded max ws
    → Bounded max w
    → AllBounded max (set ws i w)
AllBounded-set max [] i w ok new = tt
AllBounded-set max (v ∷ ws) zero w ok new = (new, ok.1)
AllBounded-set max (v ∷ ws) (suc i) w ok new = (ok.0, AllBounded-set max ws i w ok.1 new)

claim_call-Bounded :
    (nonce : AtomicNonce) (limit requested : ℕ)
    → Bounded nonce.max_value (claim_call nonce limit requested)
unfolding claim_call
claim_call-Bounded nonce limit requested = elim (Bool-cases (requested == 0)) [
  | inl none_left ↦ rw none_left tt
  | inr some_left ↦ rw some_left (ground arith, ground arith)
]

claim_load-Bounded :
    (nonce : AtomicNonce) (w : Worker)
    → Bounded nonce.max_value w
    → Bounded nonce.max_value (claim_load nonce w)
unfolding claim_load
claim_load-Bounded nonce idle ok = tt
claim_load-Bounded nonce (looping limit requested) ok =
    elim (Bool-cases (leb limit nonce.current)) [
      | inl over ↦ rw over tt
      | inr below ↦ rw below (ok.0, ok.1, ground arith)
    ]
claim_load-Bounded nonce (loaded limit requested old_value) ok = ok

claim_size-fits :
    (limit requested old_value : ℕ)
    → 0 < requested
    → old_value < limit
    → (0 < claim_size limit requested old_value)
      × (old_value + claim_size limit requested old_value ≤ limit)
unfolding claim_size
claim_size-fits limit requested old_value some_left below = (ground arith, ground arith)

exchange-Invariant :
    (nonce : AtomicNonce) (workers : List Worker) (start : ℕ) (claims : List (ℕ × ℕ)) (i : ℕ)
    → Invariant (record { nonce = nonce; workers = workers; start = start; claims = claims })
    → (w : Worker) → Bounded nonce.max_value w
    → get_or workers i idle ≡ w
    → Invariant
        (exchange (record { nonce = nonce; workers = workers; start = start; claims = claims }) i)
unfolding exchange claim_exchange
exchange-Invariant nonce workers start claims i (narrow, ok, tiled) idle bounded e =
    rw e (narrow, AllBounded-set nonce.max_value workers i idle ok tt, tiled)
exchange-Invariant nonce workers start claims i (narrow, ok, tiled) (looping limit requested)
      bounded e =
    rw e
      (narrow, AllBounded-set nonce.max_value workers i (looping limit requested) ok bounded, tiled)
exchange-Invariant nonce workers start claims i (narrow, ok, tiled)
      (loaded limit requested old_value) bounded e =
    elim (Bool-cases (nonce.current == old_value)) [
      | inl same ↦
          rw (e, same)
            (narrow, AllBounded-set nonce.max_value workers i idle ok tt, tiles (ground arith))
      | inr moved ↦
          rw (e, moved)
            (
              narrow,
              AllBounded-set nonce.max_value workers i (looping limit requested) ok
                  (bounded.0, bounded.1),
              tiled,
            )
    ]
  where
    fits :
        (0 < claim_size limit requested old_value)
        × (old_value + claim_size limit requested old_value ≤ limit)
    fits = claim_size-fits limit requested old_value bounded.1 bounded.2

    tiles :
        nonce.current ≡ old_value
        → Tiled nonce.max_value start
            ((old_value, claim_size limit requested old_value) ∷ claims)
            (u32 (old_value + claim_size limit requested old_value))
    tiles e = (
      omega (arith, fits.1, bounded.0),
      omega (arith, fits.1, bounded.0),
      fits.0,
      subst (λ c. Tiled nonce.max_value start claims c) e tiled,
    )

Step-Invariant : {s t : System} → Step s t → Invariant s → Invariant t
unfolding set_worker next_call reset
Step-Invariant {s} (step_claim i limit requested free) (narrow, ok, tiled) = (
  narrow,
  AllBounded-set s.nonce.max_value s.workers i (claim_call s.nonce limit requested) ok
      (claim_call-Bounded s.nonce limit requested),
  tiled,
)
Step-Invariant {s} (step_next i free) (narrow, ok, tiled) = (
  narrow,
  AllBounded-set s.nonce.max_value s.workers i (looping s.nonce.max_value 1) ok
      (omega arith, omega arith),
  tiled,
)
Step-Invariant {s} (step_load i) (narrow, ok, tiled) = (
  narrow,
  AllBounded-set s.nonce.max_value s.workers i (claim_load s.nonce (get_or s.workers i idle)) ok (
      claim_load-Bounded s.nonce (get_or s.workers i idle)
        (Bounded-get_or s.nonce.max_value s.workers i ok)),
  tiled,
)
Step-Invariant {s} (step_exchange i) inv =
    exchange-Invariant s.nonce s.workers s.start s.claims i inv (get_or s.workers i idle)
      (Bounded-get_or s.nonce.max_value s.workers i inv.1) refl
Step-Invariant {s} (step_reset start) (narrow, ok, tiled) = (narrow, ok, refl)

Reachable-Invariant : {s : System} → Reachable s → Invariant s
unfolding init
Reachable-Invariant (reach_init start max n narrow) = (narrow, AllBounded-idle max n, refl)
Reachable-Invariant (reach_step before step) = Step-Invariant step (Reachable-Invariant before)

Tiled-le :
    (bound start current : ℕ) (claims : List (ℕ × ℕ))
    → Tiled bound start claims current
    → start ≤ current
Tiled-le bound start current [] tiled = omega arith
Tiled-le bound start current ((first, count) ∷ claims) tiled =
    omega (arith, tiled.0, Tiled-le bound start first claims tiled.3)

count_in-Tiled :
    (bound start current k : ℕ) (claims : List (ℕ × ℕ))
    → Tiled bound start claims current
    → count_in k claims ≡ (if leb start k && ltb k current then 1 else 0)
count_in-Tiled bound start current k [] tiled = ground arith
count_in-Tiled bound start current k ((first, count) ∷ claims) tiled = ground (
  arith,
  tiled.0,
  Tiled-le bound start first claims tiled.3,
  count_in-Tiled bound start first k claims tiled.3,
)

-- In every order of the workers' loads and compare-exchanges, with resets at any time, a nonce has
-- been claimed exactly once since the last start if it lies from that start up to the counter, and
-- else not at all: none is handed out twice, and none is lost.
pub Reachable-count_in :
    {s : System} (k : ℕ)
    → Reachable s
    → count_in k s.claims ≡ (if leb s.start k && ltb k s.nonce.current then 1 else 0)
Reachable-count_in {s} k reached =
    count_in-Tiled s.nonce.max_value s.start s.nonce.current k s.claims
      (Reachable-Invariant reached).2

count_in_above :
    (bound start current k : ℕ) (claims : List (ℕ × ℕ))
    → Tiled bound start claims current
    → bound ≤ k
    → count_in k claims ≡ 0
count_in_above bound start current k [] tiled h = refl
count_in_above bound start current k ((first, count) ∷ claims) tiled h =
    ground (arith, tiled.0, tiled.1, count_in_above bound start first k claims tiled.3 h)

-- A nonce from the maximum on is never claimed, in any order of the steps.
pub Reachable-max_value :
    {s : System} (k : ℕ) → Reachable s → s.nonce.max_value ≤ k → count_in k s.claims ≡ 0
Reachable-max_value {s} k reached h =
    count_in_above s.nonce.max_value s.start s.nonce.current k s.claims
      (Reachable-Invariant reached).2 h
