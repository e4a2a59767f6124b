-- ===== src/Primality/Limbs/Radix.antt =====
-- `cpu_rmodn_n` of new_src/primality_limbs.c gives the radix modulo n.
use native.Mathlib.Nat.{mod-eq_of_lt, mod-lt, pow-suc}
use native.Mathlib.Decide.{dec_lt}
use gap_miner_v.Prelude.{
  ℕ, zero, suc, ◌+◌, ◌-◌, ◌*◌, ◌%◌, ◌^◌, ◌≤◌, ◌<◌, ◌≡◌, ◌∙◌, refl, sym, ap, arith, List, [], ◌∷◌,
  get_or, set, replicate, length, length-set, length-replicate,
}
use gap_miner_v.Prelude.Arith.{pow_add}
use gap_miner_v.Prelude.Mod.{mul-mod_right}
use gap_miner_v.Primality.Limbs.{cpu_moddbl_n, double_times, cpu_rmodn_n}
use gap_miner_v.Primality.Limbs.Value.{value, AllWords, weight}
use gap_miner_v.Primality.Limbs.Double.{cpu_moddbl_n_lem}

pub weight-power : (k : ℕ) → weight k ≡ 2 ^ (64 * k)
weight-power zero = refl
weight-power (suc k) =
    let e : 64 * suc k ≡ 64 + 64 * k = omega arith in
    rw (e, pow_add 2 64 (64 * k), weight-power k) refl

-- Doubling `k` times multiplies by the power of two.
double_times_lem :
    (k : ℕ) (r n : List ℕ) (nl : ℕ)
    → AllWords r
    → AllWords n
    → length r ≡ nl
    → length n ≡ nl
    → value r < value n
    → AllWords (double_times k r n nl)
      × (length (double_times k r n nl) ≡ nl)
      × (value (double_times k r n nl) ≡ (2 ^ k * value r) % value n)
unfolding double_times
double_times_lem zero r n nl hr hn lr ln below = (
  hr,
  lr,
  sym (mod-eq_of_lt below)
      ∙ ap (λ (t : ℕ). t % value n) {x = value r} {y = 2 ^ 0 * value r} (omega arith),
)
double_times_lem (suc k) r n nl hr hn lr ln below =
    let one = cpu_moddbl_n_lem r n nl hr hn lr ln below in
    let small : value (cpu_moddbl_n r n nl) < value n =
      rw one.2 (mod-lt (2 * value r) (omega arith)) in
    let rest = double_times_lem k (cpu_moddbl_n r n nl) n nl one.0 hn one.1 ln small in
    (
      rest.0,
      rest.1,
      rest.2
          ∙ (ap (λ (t : ℕ). (2 ^ k * t) % value n) one.2
              ∙ (mul-mod_right (2 ^ k) (2 * value r) (value n)
                  ∙ ap (λ (t : ℕ). t % value n) {x = 2 ^ k * (2 * value r)}
                      {y = 2 ^ suc k * value r}
                      (omega (arith, ap (λ (t : ℕ). t * value r) (pow-suc 2 k))))),
    )

pub replicate-AllWords : (k : ℕ) → AllWords (replicate k 0)
replicate-AllWords zero = tt
replicate-AllWords (suc k) = (omega arith, replicate-AllWords k)

pub set-AllWords : (l : List ℕ) (i x : ℕ) → x < 2 ^ 64 → AllWords l → AllWords (set l i x)
set-AllWords [] i x h hl = tt
set-AllWords (y ∷ l) zero x h hl = (h, hl.1)
set-AllWords (y ∷ l) (suc i) x h hl = (hl.0, set-AllWords l i x h hl.1)

pub value-replicate : (k : ℕ) → value (replicate k 0) ≡ 0
value-replicate zero = refl
value-replicate (suc k) = omega (arith, value-replicate k)

pub value-seed : (k i x : ℕ) → i < k → value (set (replicate k 0) i x) ≡ weight i * x
value-seed zero i x h = absurd (omega arith)
value-seed (suc k) zero x h = omega (arith, value-replicate k)
value-seed (suc k) (suc i) x h = omega (arith, value-seed k i x (omega arith))

pub limb_le : (l : List ℕ) (i : ℕ) → weight i * get_or l i 0 ≤ value l
limb_le [] i = omega arith
limb_le (x ∷ l) zero = omega arith
limb_le (x ∷ l) (suc i) = omega (arith, limb_le l i)

-- A power of two that is odd is 1.
odd_power : (k : ℕ) → 2 ^ k % 2 ≡ 1 → 2 ^ k ≡ 1
odd_power zero h = refl
odd_power (suc k) h = absurd (omega (arith, pow-suc 2 k))

-- `clzll` counts the zero bits above the highest set bit of a word that is not 0.
abbrev pub CountsZeros : (ℕ → ℕ) → Type 0
CountsZeros clzll = (x : ℕ) → 0 < x → x < 2 ^ 64 → (clzll x ≤ 63) × (2 ^ (63 - clzll x) ≤ x)

pub word_of : (l : List ℕ) (i : ℕ) → AllWords l → get_or l i 0 < 2 ^ 64
word_of [] i h = omega arith
word_of (x ∷ l) zero h = h.0
word_of (x ∷ l) (suc i) h = word_of l i h.1

-- For an odd number above 1 of `nl` limbs whose top limb is not 0, `cpu_rmodn_n` gives `nl` limbs of
-- 2 ^ (64 * nl) modulo the number, if `__builtin_clzll` counts the leading zeros.
pub cpu_rmodn_n_lem :
    (clzll : ℕ → ℕ) (n : List ℕ) (nl : ℕ)
    → CountsZeros clzll
    → AllWords n
    → length n ≡ nl
    → 0 < nl
    → 0 < get_or n (nl - 1) 0
    → value n % 2 ≡ 1
    → 1 < value n
    → AllWords (cpu_rmodn_n clzll n nl)
      × (length (cpu_rmodn_n clzll n nl) ≡ nl)
      × (value (cpu_rmodn_n clzll n nl) ≡ 2 ^ (64 * nl) % value n)
unfolding cpu_rmodn_n
cpu_rmodn_n_lem clzll n nl law hn ln pos top odd large =
    let doubled =
      double_times_lem (64 * nl - topbit) seed n nl
        (set-AllWords (replicate nl 0) (nl - 1) (2 ^ bit)
          (omega (arith, zeros.1, word_of n (nl - 1) hn)) (replicate-AllWords nl))
        hn (length-set (replicate nl 0) (nl - 1) (2 ^ bit) ∙ length-replicate nl 0) ln below in
    (doubled.0, doubled.1, doubled.2 ∙ ap (λ (t : ℕ). t % value n) whole)
  where
    bit : ℕ
    bit = 63 - clzll (get_or n (nl - 1) 0)

    topbit : ℕ
    topbit = (nl - 1) * 64 + bit

    seed : List ℕ
    seed = set (replicate nl 0) (nl - 1) (2 ^ bit)

    zeros : (clzll (get_or n (nl - 1) 0) ≤ 63) × (2 ^ bit ≤ get_or n (nl - 1) 0)
    zeros = law (get_or n (nl - 1) 0) top (word_of n (nl - 1) hn)

    seed_value : value seed ≡ 2 ^ topbit
    seed_value =
        let e : (nl - 1) * 64 ≡ 64 * (nl - 1) = omega arith in
        value-seed nl (nl - 1) (2 ^ bit) (omega arith)
        ∙ rw (weight-power (nl - 1), e) (sym (pow_add 2 (64 * (nl - 1)) bit))

    at_most : value seed ≤ value n
    at_most =
        let up : get_or n (nl - 1) 0 ≡ 2 ^ bit + (get_or n (nl - 1) 0 - 2 ^ bit) =
          omega (arith, zeros.1) in
        omega (
          arith,
          value-seed nl (nl - 1) (2 ^ bit) (omega arith),
          limb_le n (nl - 1),
          ap (λ (t : ℕ). weight (nl - 1) * t) up,
        )

    below : value seed < value n
    below = elim (dec_lt (value seed) (value n)) [
      | yes h ↦ h
      | no h ↦
          let same : value n ≡ 2 ^ topbit = omega (arith, at_most, seed_value) in
          absurd (omega (arith, same, odd_power topbit (ap (λ (t : ℕ). t % 2) (sym same) ∙ odd)))
    ]

    whole : 2 ^ (64 * nl - topbit) * value seed ≡ 2 ^ (64 * nl)
    whole =
        let e : 64 * nl - topbit + topbit ≡ 64 * nl = omega arith in
        ap (λ (t : ℕ). 2 ^ (64 * nl - topbit) * t) seed_value
        ∙ (sym (pow_add 2 (64 * nl - topbit) topbit) ∙ ap (λ (t : ℕ). 2 ^ t) e)
