-- ===== src/HalfClass/Hidden.antt =====
-- The hidden primes that new_src/halfclass.c collects in an interval are the primes of all numbers there.
use native.Mathlib.Decide.{dec_lt}
use native.Mathlib.Nat.{zero-mod, div-add-mod', mod-lt, mod-eq_of_lt}
use gap_miner_v.Prelude.{
  ℕ, zero, suc, ◌+◌, ◌-◌, ◌/◌, ◌%◌, ◌^◌, ◌≤◌, ◌<◌, ◌≡◌, ◌∙◌, refl, sym, ap, arith, Bool, true,
  false, not, ◌&&◌, ◌||◌, none, List, [], ◌∷◌, ◌++◌, map, leb, ◌==◌, take, get_or, length,
  if◌then◌else◌, Bool-cases, inl, inr,
}
use gap_miner_v.Prelude.Mod.{mod-eq_of_multiples, add-mod, difference-mod}
use gap_miner_v.Marks.{mark_from, hits}
use gap_miner_v.Marks.Loops.{or_swap, get_or-mark_from, length-mark_from}
use gap_miner_v.HalfClass.{
  in_mask, visible_mask, hidden_mask, class_of, tpl_composite, mark_multiples, collect_from,
  passing,
}
use gap_miner_v.HalfClass.Classes.{coprime_to_60, classes_split, class_of_lem}
use gap_miner_v.HalfClass.Chain.{primes_of}

-- The primes of the table are positive and of 32 bits.
abbrev pub AllUsable : List ℕ → Type 0
AllUsable [] = Unit {0}
AllUsable (p ∷ primes) = (0 < p) × (p < 2 ^ 32) × AllUsable primes

-- A number of the list divides `x`.
abbrev pub any_divides : List ℕ → ℕ → Bool
any_divides [] x = false
any_divides (p ∷ primes) x = (x % p == 0) || any_divides primes x

pub AllUsable-take : (k : ℕ) (primes : List ℕ) → AllUsable primes → AllUsable (take k primes)
AllUsable-take zero primes h = tt
AllUsable-take (suc k) [] h = tt
AllUsable-take (suc k) (p ∷ primes) h = (h.0, h.1, AllUsable-take k primes h.2)

-- The first multiple of the prime behind `bsub`.
abbrev first_multiple : ℕ → ℕ → ℕ
first_multiple p bsub = if bsub % p == 0 then 0 else p - bsub % p

first_multiple-divides : (p bsub : ℕ) → 0 < p → (bsub + first_multiple p bsub) % p ≡ 0
first_multiple-divides p bsub pos = elim (Bool-cases (bsub % p == 0)) [
  | inl divides ↦
      rw divides (ap (λ (t : ℕ). t % p) {x = bsub + 0} {y = bsub} (omega arith) ∙ ground arith)
  | inr rest ↦ rw rest (
      mod-eq_of_multiples (bsub + (p - bsub % p)) 0 0 (bsub / p + 1) p
        (omega (arith, div-add-mod' bsub p, mod-lt bsub pos))
      ∙ zero-mod p)
]

-- What the loop marks from the first multiple on is divided by the prime.
hit-divides :
    (p bsub n off : ℕ) → 0 < p → hits p (first_multiple p bsub) n off ≡ true → (bsub + off) % p ≡ 0
hit-divides p bsub n off pos h =
    let reached : first_multiple p bsub ≤ off = ground arith in
    let whole : (off - first_multiple p bsub) % p ≡ 0 = ground arith in
    ap (λ (t : ℕ). t % p) {x = bsub + off}
      {y = bsub + first_multiple p bsub + (off - first_multiple p bsub)} (omega (arith, reached))
    ∙ (add-mod (bsub + first_multiple p bsub) (off - first_multiple p bsub) 0 0 p
          (first_multiple-divides p bsub pos ∙ sym (zero-mod p)) (whole ∙ sym (zero-mod p))
        ∙ zero-mod p)

-- The loop marks every multiple of the prime.
divides-hit :
    (p bsub n off : ℕ)
    → 0 < p
    → off < n
    → (bsub + off) % p ≡ 0
    → hits p (first_multiple p bsub) n off ≡ true
divides-hit p bsub n off pos inside e = ground (arith, reached, whole reached)
  where
    early : off < first_multiple p bsub → ⊥
    early h =
        let same : (bsub + off) % p ≡ (bsub % p + off) % p =
          mod-eq_of_multiples (bsub + off) (bsub % p + off) 0 (bsub / p) p
            (omega (arith, div-add-mod' bsub p)) in
        elim (Bool-cases (bsub % p == 0)) [
          | inl divides ↦ absurd (ground (arith, h, divides))
          | inr rest ↦
              let near : bsub % p + off < p = ground (arith, h, rest, mod-lt bsub pos) in
              let low : (bsub % p + off) % p ≡ bsub % p + off = mod-eq_of_lt near in
              ground (arith, e, same, low, rest)
        ]

    reached : first_multiple p bsub ≤ off
    reached = elim (dec_lt off (first_multiple p bsub)) [
      | yes h ↦ absurd (early h)
      | no h ↦ omega (arith, h)
    ]

    whole : first_multiple p bsub ≤ off → (off - first_multiple p bsub) % p ≡ 0
    whole r =
        ap (λ (t : ℕ). t % p) {x = off - first_multiple p bsub}
          {y = bsub + off - (bsub + first_multiple p bsub)} (omega arith)
        ∙ difference-mod (bsub + off) (bsub + first_multiple p bsub) p (omega arith)
            (e ∙ sym (first_multiple-divides p bsub pos))

hits-divides :
    (p bsub n off : ℕ)
    → 0 < p
    → off < n
    → hits p (first_multiple p bsub) n off ≡ ((bsub + off) % p == 0)
hits-divides p bsub n off pos inside = elim (Bool-cases (hits p (first_multiple p bsub) n off)) [
  | inl hit ↦ hit ∙ (let e = hit-divides p bsub n off pos hit in ground (arith, e))
  | inr missed ↦ elim (Bool-cases ((bsub + off) % p == 0)) [
    | inl divides ↦ divides-hit p bsub n off pos inside (ground arith) ∙ sym divides
    | inr rest ↦ missed ∙ sym rest
  ]
]

-- In the interval, the marks are the multiples of the primes and what was marked before.
pub get_or-mark_multiples :
    (primes : List ℕ) (bsub interval : ℕ) (bits : List Bool) (off : ℕ)
    → AllUsable primes
    → interval < 2 ^ 32
    → interval ≤ length bits
    → off < interval
    → get_or (mark_multiples primes bsub interval bits) off false
      ≡ (any_divides primes (bsub + off) || get_or bits off false)
unfolding mark_multiples
get_or-mark_multiples [] bsub interval bits off usable small len inside = refl
get_or-mark_multiples (p ∷ primes) bsub interval bits off usable small len inside =
    elim (Bool-cases (leb interval (first_multiple p bsub))) [
      | inl beyond ↦
          let missed : hits p (first_multiple p bsub) interval off ≡ false = ground arith in
          rw (beyond, sym (hits-divides p bsub interval off usable.0 inside), missed)
            (get_or-mark_multiples primes bsub interval bits off usable.2 small len inside)
      | inr within ↦
          let marked = mark_from interval p (first_multiple p bsub) interval bits in
          rw within (
            get_or-mark_multiples primes bsub interval marked off usable.2 small
              (omega (arith, length-mark_from interval p (first_multiple p bsub) interval bits))
              inside
            ∙ rw
                (
                  get_or-mark_from interval p (first_multiple p bsub) interval bits off usable.0
                      (omega (arith, usable.1)) len (omega arith),
                  hits-divides p bsub interval off usable.0 inside,
                )
                (or_swap (any_divides primes (bsub + off)) ((bsub + off) % p == 0)
                  (get_or bits off false)))
    ]

-- Every number from an offset on, with its test.
abbrev pub tested : (ℕ → Bool) → ℕ → ℕ → ℕ → List (Bool × ℕ)
tested test base zero offset = []
tested test base (suc left) offset =
    (test (base + offset), offset) ∷ tested test base left (offset + 1)

-- What the mini-sieve and the test let pass: numbers coprime to 60 that no prime of the list divides.
abbrev pub sieved : (ℕ → Bool) → List ℕ → ℕ → Bool
sieved test primes x = coprime_to_60 x && (not (any_divides primes x) && test x)

or-false_right : (a b : Bool) → (a || b) ≡ true → a ≡ false → b ≡ true
or-false_right a b e f = ground arith

or-true_right : (a b : Bool) → b ≡ true → (a || b) ≡ true
or-true_right a b e = ground arith

and-false_right : (a b : Bool) → (a && b) ≡ false → a ≡ true → b ≡ false
and-false_right a b e f = ground arith

coprime-mod : (x : ℕ) → coprime_to_60 (x % 60) ≡ coprime_to_60 x
coprime-mod x = ground arith

coprime_of_hidden :
    (quarter : Bool) (x : ℕ)
    → in_mask (hidden_mask quarter) (x % 60) ≡ true
    → coprime_to_60 x ≡ true
coprime_of_hidden quarter x h =
    sym (coprime-mod x)
    ∙ (sym (classes_split quarter (x % 60) (omega arith)).0
        ∙ or-true_right (in_mask (visible_mask quarter) (x % 60))
            (in_mask (hidden_mask quarter) (x % 60)) h)

-- A number that is coprime to 60 and not visible is hidden; a visible one is not.
pub hidden_of_invisible :
    (quarter : Bool) (x : ℕ)
    → coprime_to_60 x ≡ true
    → in_mask (visible_mask quarter) (x % 60) ≡ false
    → in_mask (hidden_mask quarter) (x % 60) ≡ true
hidden_of_invisible quarter x e h =
    or-false_right (in_mask (visible_mask quarter) (x % 60))
      (in_mask (hidden_mask quarter) (x % 60))
      ((classes_split quarter (x % 60) (omega arith)).0 ∙ (coprime-mod x ∙ e)) h

pub invisible_of_visible :
    (quarter : Bool) (x : ℕ)
    → in_mask (visible_mask quarter) (x % 60) ≡ true
    → in_mask (hidden_mask quarter) (x % 60) ≡ false
invisible_of_visible quarter x h =
    and-false_right (in_mask (visible_mask quarter) (x % 60))
      (in_mask (hidden_mask quarter) (x % 60)) (classes_split quarter (x % 60) (omega arith)).1 h

module _ (quarter : Bool) (test : ℕ → Bool) (base off_a : ℕ) (bits : List Bool) where
  abbrev pub sub_mod60 : ℕ
  sub_mod60 = (base + off_a) % 60

  -- The classes of an interval behind `off_a`, as those of the numbers.
  sub-class : (off : ℕ) → class_of sub_mod60 off ≡ (base + off_a + off) % 60
  sub-class off = class_of_lem (base + off_a) off

  abbrev pub listed : ℕ → ℕ → List ℕ
  listed left off =
      passing test (base + off_a) (collect_from quarter sub_mod60 off_a none bits left off)

  listed-hidden :
      (left off : ℕ)
      → in_mask (hidden_mask quarter) ((base + off_a + off) % 60) ≡ true
      → get_or bits off false ≡ false
      → listed (suc left) off
        ≡ (if test (base + off_a + off) then off ∷ listed left (off + 1) else listed left (off + 1))
  unfolding collect_from passing tpl_composite
  listed-hidden left off hidden free = rw (sub-class off, hidden, free) refl

  listed-failing :
      (left off : ℕ)
      → test (base + off_a + off) ≡ false
      → listed (suc left) off ≡ listed left (off + 1)
  unfolding collect_from passing tpl_composite
  listed-failing left off fails =
      passing-skip (not (in_mask (hidden_mask quarter) (class_of sub_mod60 off)))
        (get_or bits off false) (collect_from quarter sub_mod60 off_a none bits left (off + 1))
    where
      passing-skip :
          (p q : Bool) (rest : List ℕ)
          → passing test (base + off_a) (if p then rest else if q then rest else off ∷ rest)
            ≡ passing test (base + off_a) rest
      passing-skip true q rest = refl
      passing-skip false true rest = refl
      passing-skip false false rest = rw fails refl

  listed-marked :
      (left off : ℕ) → get_or bits off false ≡ true → listed (suc left) off ≡ listed left (off + 1)
  unfolding collect_from
  listed-marked left off marked =
      elim (Bool-cases (in_mask (hidden_mask quarter) (class_of sub_mod60 off))) [
        | inl hidden ↦ rw (hidden, marked) refl
        | inr visible ↦ rw visible refl
      ]

  pub listed-visible :
      (left off : ℕ)
      → in_mask (hidden_mask quarter) ((base + off_a + off) % 60) ≡ false
      → listed (suc left) off ≡ listed left (off + 1)
  unfolding collect_from
  listed-visible left off visible = rw (sub-class off, visible) refl

  -- The hidden primes and the end are the primes among all numbers.
  pub listed-tested :
      (left off : ℕ)
      → ((o : ℕ)
          → off ≤ o
          → o < off + left
          → test (base + off_a + o) ≡ true
          → (in_mask (hidden_mask quarter) ((base + off_a + o) % 60) ≡ true)
            × (get_or bits o false ≡ false))
      → test (base + (off_a + (off + left))) ≡ true
      → map (λ (o : ℕ). off_a + o) (listed left off) ++ ((off_a + (off + left)) ∷ [])
        ≡ primes_of (tested test base (suc left) (off_a + off))
  unfolding collect_from passing
  listed-tested zero off inner last =
      let e : off + 0 ≡ off = omega arith in
      let ends : test (base + (off_a + off)) ≡ true =
        ap (λ (t : ℕ). test (base + (off_a + t))) (sym e) ∙ last in
      rw (e, ends) refl
  listed-tested (suc left) off inner last =
      let assoc : base + off_a + off ≡ base + (off_a + off) = omega arith in
      let e : off + suc left ≡ off + 1 + left = omega arith in
      let f : off_a + off + 1 ≡ off_a + (off + 1) = omega arith in
      let tail : map (λ (o : ℕ). off_a + o) (listed left (off + 1))
            ++ ((off_a + (off + suc left)) ∷ [])
          ≡ primes_of (tested test base (suc left) (off_a + off + 1)) =
        rw (e, f)
          (listed-tested left (off + 1) (λ o a b. inner o (omega arith) (omega arith))
            (ap (λ (t : ℕ). test (base + (off_a + t))) (sym e) ∙ last)) in
      elim (Bool-cases (test (base + off_a + off))) [
        | inl prime ↦
            let here = inner off (omega arith) (omega arith) prime in
            let same : test (base + (off_a + off)) ≡ true = ap test (sym assoc) ∙ prime in
            rw (listed-hidden left off here.0 here.1, prime, same)
              (ap (λ (t : List ℕ). (off_a + off) ∷ t) tail)
        | inr other ↦
            let same : test (base + (off_a + off)) ≡ false = ap test (sym assoc) ∙ other in
            rw (listed-failing left off other, same) tail
      ]

-- Of the candidates, which are hidden and not marked, the same pass a test with the sieve.
pub passing-sieved :
    (quarter : Bool) (test : ℕ → Bool) (primes : List ℕ) (base off_a : ℕ) (bits : List Bool)
    (left off : ℕ)
    → ((o : ℕ) → o < off + left → get_or bits o false ≡ any_divides primes (base + off_a + o))
    → listed quarter test base off_a bits left off
      ≡ listed quarter (sieved test primes) base off_a bits left off
unfolding collect_from passing tpl_composite
passing-sieved quarter test primes base off_a bits zero off marks = refl
passing-sieved quarter test primes base off_a bits (suc left) off marks =
    let x = base + off_a + off in
    let rest =
      passing-sieved quarter test primes base off_a bits left (off + 1)
        (λ o h. marks o (omega arith)) in
    elim (Bool-cases (in_mask (hidden_mask quarter) (x % 60))) [
      | inr visible ↦
          listed-visible quarter test base off_a bits left off visible
          ∙ (rest
              ∙ sym (listed-visible quarter (sieved test primes) base off_a bits left off visible))
      | inl hidden ↦ elim (Bool-cases (get_or bits off false)) [
        | inl marked ↦
            listed-marked quarter test base off_a bits left off marked
            ∙ (rest
                ∙ sym (listed-marked quarter (sieved test primes) base off_a bits left off marked))
        | inr free ↦
            let coprime = coprime_of_hidden quarter x hidden in
            let unhit : any_divides primes x ≡ false = sym (marks off (omega arith)) ∙ free in
            let same : sieved test primes x ≡ test x = rw (coprime, unhit) refl in
            listed-hidden quarter test base off_a bits left off hidden free
            ∙ (ap (λ (t : List ℕ). if test x then off ∷ t else t) rest
                ∙ (ap
                      (λ (c : Bool).
                        if c
                        then off
                          ∷ listed quarter (sieved test primes) base off_a bits left (off + 1)
                        else listed quarter (sieved test primes) base off_a bits left (off + 1))
                      (sym same)
                    ∙ sym (
                        listed-hidden quarter (sieved test primes) base off_a bits left off hidden
                          free)))
      ]
    ]
