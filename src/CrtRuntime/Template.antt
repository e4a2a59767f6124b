-- ===== src/CrtRuntime/Template.antt =====
-- The marks of the template of new_src/crt_runtime.c: a slot is marked exactly if an odd prime has the
-- slot's offset in its class.
use native.Mathlib.Decide.{dec_lt}
use native.Mathlib.Nat.{mod-lt, mod-mod, mod-eq_of_lt, zero-mod, div-add-mod'}
use gap_miner_v.Prelude.{
  ℕ, zero, suc, ◌+◌, ◌-◌, ◌*◌, ◌/◌, ◌%◌, ◌^◌, ◌≤◌, ◌<◌, ◌≡◌, ◌∙◌, refl, sym, ap, arith, Bool, true,
  false, not, ◌&&◌, ◌||◌, List, [], ◌∷◌, ◌==◌, u64, length, length-set, get_or, set, lt→ltb,
  ltb-false, Bool-cases, inl, inr,
}
use gap_miner_v.Prelude.Mod.{mod-eq_of_multiples, difference-mod, mod-difference}
use gap_miner_v.Marks.{hits}
use gap_miner_v.Marks.Loops.{or_swap, get_or-set, hits_step, hits_end}
use gap_miner_v.Primes.{IsPrime}
use gap_miner_v.Covering.Target.{Residue}
use gap_miner_v.CrtRuntime.{mark_odd, first_odd, mark_template}
use gap_miner_v.CrtRuntime.Align.{AllDistinctPrimes}

-- An odd offset and its slot.
slot-offset : (s t : ℕ) → t % 2 ≡ 1 → (s == (t - 1) / 2) ≡ (2 * s + 1 == t)
slot-offset s t odd = ground arith

length-mark_odd :
    (fuel p t window : ℕ) (bits : List Bool) → length (mark_odd fuel p t window bits) ≡ length bits
unfolding mark_odd
length-mark_odd zero p t window bits = refl
length-mark_odd (suc fuel) p t window bits = ground (
  arith,
  length-mark_odd fuel p (u64 (t + 2 * p)) window (set bits ((t - 1) / 2) true),
  length-set bits ((t - 1) / 2) true,
)

-- From an odd offset on, the loop marks the slots of every second multiple.
get_or-mark_odd :
    (fuel p t window : ℕ) (bits : List Bool) (s : ℕ)
    → 0 < p
    → t % 2 ≡ 1
    → window + 2 * p ≤ 2 ^ 64
    → window / 2 ≤ length bits
    → window ≤ t + fuel
    → get_or (mark_odd fuel p t window bits) s false
      ≡ (hits (2 * p) t window (2 * s + 1) || get_or bits s false)
unfolding mark_odd
get_or-mark_odd zero p t window bits s pos odd fits len enough =
    rw (hits_end (2 * p) t window (2 * s + 1) (omega arith)) refl
get_or-mark_odd (suc fuel) p t window bits s pos odd fits len enough = elim (dec_lt t window) [
  | yes h ↦
      let next : u64 (t + 2 * p) ≡ t + 2 * p = mod-eq_of_lt (omega arith) in
      rw (lt→ltb t window h, next)
        (get_or-mark_odd fuel p (t + 2 * p) window (set bits ((t - 1) / 2) true) s pos (omega arith)
            fits (omega (arith, length-set bits ((t - 1) / 2) true)) (omega arith)
          ∙ rw
              (
                get_or-set bits ((t - 1) / 2) s (omega arith),
                hits_step (2 * p) t window (2 * s + 1) (omega arith) h,
                slot-offset s t odd,
              )
              (or_swap (hits (2 * p) (t + 2 * p) window (2 * s + 1)) (2 * s + 1 == t)
                (get_or bits s false)))
  | no h ↦
      rw (ltb-false t window (omega arith), hits_end (2 * p) t window (2 * s + 1) (omega arith))
        refl
]

-- For an odd p, the even multiples of p are those of 2 * p.
even_multiple : (d p : ℕ) → p % 2 ≡ 1 → d % 2 ≡ 0 → d % p ≡ 0 → d % (2 * p) ≡ 0
even_multiple d p odd even e =
    let q = d / p in
    let whole : q * p ≡ d = omega (arith, div-add-mod' d p, e) in
    let turn : q * p ≡ 2 * (q * (p / 2)) + q = turned in
    let even_q : q % 2 ≡ 0 = omega (arith, whole, turn) in
    let halves : d ≡ q / 2 * (2 * p) = halved whole even_q in
    mod-eq_of_multiples d 0 0 (q / 2) (2 * p) (omega (arith, halves)) ∙ zero-mod (2 * p)
  where
    turned : d / p * p ≡ 2 * (d / p * (p / 2)) + d / p
    turned =
        let half : p ≡ 2 * (p / 2) + 1 = omega arith in ap (λ (t : ℕ). d / p * t) half ∙ omega arith

    halved : d / p * p ≡ d → d / p % 2 ≡ 0 → d ≡ d / p / 2 * (2 * p)
    halved w h =
        let two : d / p ≡ 2 * (d / p / 2) = omega (arith, h) in
        sym w ∙ (ap (λ (t : ℕ). t * p) two ∙ omega arith)

multiple_of_double : (d p : ℕ) → d % (2 * p) ≡ 0 → d % p ≡ 0
multiple_of_double d p e =
    mod-eq_of_multiples d 0 0 (2 * (d / (2 * p))) p (omega (arith, div-add-mod' d (2 * p), e))
    ∙ zero-mod p

first_odd_lem :
    (p o adj : ℕ)
    → p % 2 ≡ 1
    → p < 2 ^ 32
    → o < 2 ^ 32
    → adj ≤ 1
    → (first_odd p o adj % 2 ≡ 1)
      × (first_odd p o adj < 2 * p)
      × (first_odd p o adj % p ≡ (o + adj) % p)
unfolding first_odd
first_odd_lem p o adj odd hp ho ha =
    let word : u64 (o + adj) ≡ o + adj = mod-eq_of_lt (omega arith) in
    let r = (o + adj) % p in
    let below : r < p = mod-lt (o + adj) (omega arith) in
    elim (Bool-cases (r == 0)) [
      | inl divides ↦
          let odd_p : (p % 2 == 0) ≡ false = ground arith in
          rw (word, divides, odd_p)
            (
              odd,
              omega arith,
              mod-eq_of_multiples p 0 0 1 p (omega arith) ∙ (zero-mod p ∙ ground arith),
            )
      | inr rest ↦ elim (Bool-cases (r % 2 == 0)) [
        | inl even ↦
            let room : u64 (r + p) ≡ r + p = mod-eq_of_lt (omega (arith, below)) in
            rw (word, rest, even, room)
              (
                ground arith,
                omega (arith, below),
                mod-eq_of_multiples (r + p) r 0 1 p (omega arith) ∙ mod-mod (o + adj) p,
              )
        | inr uneven ↦
            rw (word, rest, uneven) (ground arith, omega (arith, below), mod-mod (o + adj) p)
      ]
    ]

-- On the odd offsets of the window, the loop reaches the class of its start.
hits-class :
    (p f window x : ℕ)
    → p % 2 ≡ 1
    → f % 2 ≡ 1
    → f < 2 * p
    → x % 2 ≡ 1
    → x < window
    → hits (2 * p) f window x ≡ (x % p == f % p)
hits-class p f window x odd odd_f low odd_x inside = ground (arith, forth, back, late)
  where
    forth : f ≤ x → (x - f) % (2 * p) ≡ 0 → x % p ≡ f % p
    forth l e = mod-difference x f p l (multiple_of_double (x - f) p e)

    back : f ≤ x → x % p ≡ f % p → (x - f) % (2 * p) ≡ 0
    back l e = even_multiple (x - f) p odd (omega arith) (difference-mod x f p l e)

    -- A smaller odd number of the class would be less than 2 * p, and an even multiple of p, before.
    late : x % p ≡ f % p → f ≤ x
    late e = elim (dec_lt x f) [
      | no h ↦ omega (arith, h)
      | yes h ↦
          let d : (f - x) % (2 * p) ≡ 0 =
            even_multiple (f - x) p odd (omega arith)
              (difference-mod f x p (omega arith) (sym e)) in
          absurd (omega (arith, d, mod-eq_of_lt {n = f - x} {m = 2 * p} (omega arith)))
    ]

-- An odd prime of the list has the offset `t` in its class.
abbrev pub covers : List Residue → ℕ → ℕ → Bool
covers [] adj t = false
covers ((p, o) ∷ primes) adj t = (not (p == 2) && (t % p == (o + adj) % p)) || covers primes adj t

prime-odd : (p : ℕ) → IsPrime p → (p == 2) ≡ false → p % 2 ≡ 1
prime-odd p prime ne = elim (dec_lt 2 p) [
  | yes h ↦ let k = prime.1 2 (omega arith) h in omega (arith, k)
  | no h ↦ absurd (let l : 1 < p = prime.0 in ground (arith, h, l))
]

pub length-mark_template :
    (primes : List Residue) (adj window : ℕ) (bits : List Bool)
    → length (mark_template primes adj window bits) ≡ length bits
unfolding mark_template
length-mark_template [] adj window bits = refl
length-mark_template ((p, o) ∷ primes) adj window bits = elim (Bool-cases (p == 2)) [
  | inl two ↦ rw two (length-mark_template primes adj window bits)
  | inr other ↦ rw other (
      length-mark_template primes adj window (mark_odd window p (first_odd p o adj) window bits)
      ∙ length-mark_odd window p (first_odd p o adj) window bits)
]

-- In the window, the marked slots are those whose offset an odd prime has in its class.
pub get_or-mark_template :
    (primes : List Residue) (adj window : ℕ) (bits : List Bool) (s : ℕ)
    → AllDistinctPrimes primes
    → adj ≤ 1
    → window + 2 ^ 33 ≤ 2 ^ 64
    → window / 2 ≤ length bits
    → 2 * s + 1 < window
    → get_or (mark_template primes adj window bits) s false
      ≡ (covers primes adj (2 * s + 1) || get_or bits s false)
unfolding mark_template
get_or-mark_template [] adj window bits s good small fits len inside = refl
get_or-mark_template ((p, o) ∷ primes) adj window bits s good small fits len inside =
    elim (Bool-cases (p == 2)) [
      | inl two ↦
          rw two (get_or-mark_template primes adj window bits s good.2 small fits len inside)
      | inr other ↦
          let odd = prime-odd p good.0.0 other in
          let f = first_odd p o adj in
          let first = first_odd_lem p o adj odd good.0.1 good.0.2 small in
          let marked = mark_odd window p f window bits in
          let class : hits (2 * p) f window (2 * s + 1) ≡ ((2 * s + 1) % p == (o + adj) % p) =
            hits-class p f window (2 * s + 1) odd first.0 first.1 (omega arith) inside
            ∙ ap (λ (t : ℕ). (2 * s + 1) % p == t) first.2 in
          rw other (
            get_or-mark_template primes adj window marked s good.2 small fits
              (omega (arith, length-mark_odd window p f window bits)) inside
            ∙ rw
                (
                  get_or-mark_odd window p f window bits s (omega (arith, odd)) first.0
                      (omega (arith, good.0.1)) len (omega arith),
                  class,
                )
                (or_swap (covers primes adj (2 * s + 1)) ((2 * s + 1) % p == (o + adj) % p)
                  (get_or bits s false)))
    ]
