-- ===== src/Sieve/Table.antt =====
-- The table of `sieve_core_init_window` in new_src/sieve_core.c holds the primes up to the limit.
use native.Mathlib.Decide.{dec_lt}
use mathlib.Core.Bool.{true≢false}
use gap_miner_v.Prelude.{
  ℕ, zero, suc, ◌+◌, ◌-◌, ◌*◌, ◌/◌, ◌%◌, ◌^◌, ◌≤◌, ◌<◌, ◌≡◌, ◌∙◌, refl, sym, arith, Bool, true,
  false, not, ◌&&◌, ◌||◌, List, [], ◌∷◌, leb, ◌==◌, get_or, length, replicate, length-replicate,
  if◌then◌else◌, Bool-cases, leb-true, inl, inr,
}
use gap_miner_v.Prelude.Mod.{mod-eq_of_multiples}
use gap_miner_v.Marks.{mark_from, list_free, hits}
use gap_miner_v.Marks.Loops.{get_or-mark_from, length-mark_from}
use gap_miner_v.Primes.Trial.{
  no_divisor, no_divisor-rest, IsPrime-divisor, mod_trans, le-square, twice-le-square, square-lt,
  small_divisor,
}
use gap_miner_v.Sieve.Odd.{get_or-replicate}
use gap_miner_v.Sieve.{mark_factors, primes_up_to}

-- A number from 2 on, below `k` and with its square up to `v`, divides `v`.
abbrev found : ℕ → ℕ → Bool
found zero v = false
found (suc k) v = found k v || (leb 2 k && (leb (k * k) v && (v % k == 0)))

found-divisor :
    (k v : ℕ) → found k v ≡ true → (d : ℕ) × (1 < d) × (d < k) × (d * d ≤ v) × (v % d ≡ 0)
found-divisor zero v e = absurd (true≢false (sym e))
found-divisor (suc k) v e = elim (Bool-cases (found k v)) [
  | inl earlier ↦ let r = found-divisor k v earlier in (r.0, r.1, omega (arith, r.2), r.3, r.4)
  | inr here ↦ (k, ground arith, omega arith, ground arith, ground arith)
]

pub or-last : (a b : Bool) → b ≡ true → (a || b) ≡ true
or-last a b e = ground arith

divisor-found : (k v d : ℕ) → 1 < d → d < k → d * d ≤ v → v % d ≡ 0 → found k v ≡ true
divisor-found zero v d a b c e = absurd (omega arith)
divisor-found (suc k) v d a b c e = elim (dec_lt d k) [
  | yes below ↦ let r : found k v ≡ true = divisor-found k v d a below c e in ground arith
  | no here ↦
      let same : k ≡ d = omega arith in
      let r : (leb 2 d && (leb (d * d) v && (v % d == 0))) ≡ true = ground arith in
      rw same (or-last (found d v) (leb 2 d && (leb (d * d) v && (v % d == 0))) r)
]

-- What the marks of a new factor add.
hits-square : (f n v : ℕ) → 0 < f → v < n → hits f (f * f) n v ≡ (leb (f * f) v && (v % f == 0))
hits-square f n v pos h =
    let shift : f * f ≤ v → (v - f * f) % f ≡ v % f =
      λ l. mod-eq_of_multiples (v - f * f) v f 0 f (omega arith) in
    ground (arith, shift)

-- A factor that is marked itself adds nothing.
found-marked : (f v : ℕ) → found f f ≡ true → found (suc f) v ≡ found f v
found-marked f v e = elim (Bool-cases (found f v)) [
  | inl known ↦ rw known refl
  | inr unknown ↦ rw unknown (elim (Bool-cases (leb 2 f && (leb (f * f) v && (v % f == 0)))) [
    | inr none ↦ none
    | inl new ↦ absurd (true≢false (sym (again new) ∙ unknown))
  ])
]
  where
    again : (leb 2 f && (leb (f * f) v && (v % f == 0))) ≡ true → found f v ≡ true
    again new =
        let r = found-divisor f f e in
        let square : f * f ≤ v = ground arith in
        let up : f ≤ f * f = grind (arith, r.1, r.2) in
        divisor-found f v r.0 r.1 r.2 (omega (arith, r.3)) (mod_trans v f r.0 (ground arith) r.4)

-- The marks below `limit` are the numbers with a factor below `factor`.
abbrev Marked : ℕ → ℕ → List Bool → Type 0
Marked factor limit bits =
    (length bits ≡ limit + 1) × ((v : ℕ) → v ≤ limit → get_or bits v false ≡ found factor v)

one_round :
    (factor limit : ℕ) (bits : List Bool)
    → 1 < factor
    → factor * factor ≤ limit
    → limit < 2 ^ 32
    → Marked factor limit bits
    → Marked (suc factor) limit (
        if get_or bits factor false
        then bits
        else mark_from (limit + 1) factor (factor * factor) (limit + 1) bits)
one_round factor limit bits two square small marked = elim (Bool-cases (get_or bits factor false)) [
  | inl composite ↦
      let divided : found factor factor ≡ true = sym (marked.1 factor up) ∙ composite in
      rw composite (marked.0, λ v h. marked.1 v h ∙ sym (found-marked factor v divided))
  | inr prime ↦ rw prime (
    length-mark_from (limit + 1) factor (factor * factor) (limit + 1) bits ∙ marked.0,
    λ v h.
        get_or-mark_from (limit + 1) factor (factor * factor) (limit + 1) bits v (omega arith)
          (omega (arith, up)) (omega (arith, marked.0)) (omega arith)
        ∙ rw (hits-square factor (limit + 1) v (omega arith) (omega arith), marked.1 v h)
            (or_turn (leb (factor * factor) v && (v % factor == 0)) (found factor v) (leb 2 factor)
              (leb-true 2 factor two)),
  )
]
  where
    up : factor ≤ limit
    up = grind arith

    or_turn : (a b c : Bool) → c ≡ true → (a || b) ≡ (b || (c && a))
    or_turn a b c e = ground arith

-- The loop stops with the marks of all factors that matter.
mark_factors_lem :
    (fuel factor limit : ℕ) (bits : List Bool)
    → 1 < factor
    → limit < factor + fuel
    → limit < 2 ^ 32
    → Marked factor limit bits
    → (last : ℕ) × (limit < last * last) × Marked last limit (mark_factors fuel factor limit bits)
unfolding mark_factors
mark_factors_lem zero factor limit bits two enough small marked =
    (factor, omega (arith, le-square factor), marked)
mark_factors_lem (suc fuel) factor limit bits two enough small marked =
    elim (Bool-cases (leb factor (limit / factor))) [
      | inl more ↦
          let next : factor + 1 ≡ suc factor = omega arith in
          let square : factor * factor ≤ limit = grind arith in
          rw (more, next)
            (mark_factors_lem fuel (suc factor) limit
              (if get_or bits factor false
                then bits
                else mark_from (limit + 1) factor (factor * factor) (limit + 1) bits)
              (omega arith) (omega arith) small
              (one_round factor limit bits two square small marked))
      | inr done ↦ rw done (factor, beyond (ground arith), marked)
    ]
  where
    beyond : limit / factor < factor → limit < factor * factor
    beyond h = grind arith

-- A number has a divisor below it when it has one with its square up to it.
found-no_divisor :
    (last v : ℕ) → 1 < v → v < last * last → found last v ≡ not (no_divisor v (v - 1))
found-no_divisor last v two h = elim (Bool-cases (no_divisor v (v - 1))) [
  | inl none ↦ rw none (elim (Bool-cases (found last v)) [
    | inr good ↦ good
    | inl bad ↦
        let r = found-divisor last v bad in
        let double : 2 * r.0 ≤ r.0 * r.0 = twice-le-square r.0 r.1 in
        absurd (
          omega
            (arith, r.4, no_divisor-rest v (v - 1) r.0 r.1 (omega (arith, r.1, r.3, double)) none))
  ])
  | inr some_divisor ↦
      let p = IsPrime-divisor v (v - 1) some_divisor in
      let d = small_divisor v p.0 p.1.0 (omega (arith, p.2)) p.3 in
      rw some_divisor
        (divisor-found last v d.0 d.1 (square-lt d.0 last (omega (arith, d.2))) d.2 d.3)
]

-- The numbers from `v` on, `left` of them, that pass trial division by all numbers below them.
abbrev pub primes_from : ℕ → ℕ → List ℕ
primes_from zero v = []
primes_from (suc left) v =
    let rest = primes_from left (v + 1) in if no_divisor v (v - 1) then v ∷ rest else rest

list_free-primes_from :
    (left v last limit : ℕ) (bits : List Bool)
    → 1 < v
    → v + left ≡ limit + 1
    → limit < last * last
    → Marked last limit bits
    → list_free left v bits ≡ primes_from left v
unfolding list_free
list_free-primes_from zero v last limit bits two e far marked = refl
list_free-primes_from (suc left) v last limit bits two e far marked =
    rw
      (
        marked.1 v (omega arith),
        found-no_divisor last v two (omega arith),
        list_free-primes_from left (v + 1) last limit bits (omega arith) (omega arith) far marked,
      )
      (if-not (no_divisor v (v - 1)) (primes_from left (v + 1)) (v ∷ primes_from left (v + 1)))
  where
    if-not : (b : Bool) (x y : List ℕ) → (if not b then x else y) ≡ (if b then y else x)
    if-not true x y = refl
    if-not false x y = refl

-- For a limit from 2 up to below 2 ^ 32, the table holds the numbers from 2 up to the limit that no
-- smaller number from 2 on divides.
pub primes_up_to_lem :
    (limit : ℕ) → 2 ≤ limit → limit < 2 ^ 32 → primes_up_to limit ≡ primes_from (limit - 1) 2
unfolding primes_up_to
primes_up_to_lem limit two small =
    let r =
      mark_factors_lem limit 2 limit (replicate (limit + 1) false) (omega arith) (omega arith) small
        start in
    list_free-primes_from (limit - 1) 2 r.0 limit
      (mark_factors limit 2 limit (replicate (limit + 1) false)) (omega arith) (omega arith) r.1 r.2
  where
    start : Marked 2 limit (replicate (limit + 1) false)
    start = (length-replicate (limit + 1) false, λ v h. get_or-replicate (limit + 1) v)
