-- ===== src/Primality/Word/Powers.antt =====
-- The strong test on powers: primes pass it, and what passes it has the power 1 at `n - 1`.
use native.Mathlib.Nat.{mod-eq_of_lt, pow-suc, pow-zero}
use gap_miner_v.Prelude.{
  ℕ, zero, suc, ◌+◌, ◌-◌, ◌*◌, ◌%◌, ◌^◌, ◌<◌, ◌≡◌, ◌∙◌, ◌⊎◌, sym, ap, arith, Bool, true, ◌||◌, ◌==◌,
  Bool-cases, inl, inr,
}
use gap_miner_v.Prelude.Arith.{pow_add}
use gap_miner_v.Prelude.Mod.{mod-eq_of_multiples, mul-mod}
use gap_miner_v.Primes.{IsPrime}
use gap_miner_v.Primes.Fermat.{square_roots}
use gap_miner_v.Primality.Word.Strong.{a_square_passes, strong_passes}

pub or-true_right : (a b : Bool) → b ≡ true → (a || b) ≡ true
or-true_right a b e = ground arith

pub or-true_cases : (a b : Bool) → (a || b) ≡ true → (a ≡ true) ⊎ (b ≡ true)
or-true_cases a b e = elim (Bool-cases a) [ inl t ↦ inl t | inr f ↦ inr (ground arith) ]

pub power_square : (a e : ℕ) → a ^ (2 * e) ≡ a ^ e * a ^ e
power_square a e = let f : 2 * e ≡ e + e = omega arith in rw f (pow_add a e e)

doubled : (e k : ℕ) → e * 2 ^ suc k ≡ 2 * e * 2 ^ k
doubled e k = grind (arith, pow-suc 2 k)

strong_passes-suc :
    (n a d s : ℕ)
    → strong_passes n a d (suc s)
      ≡ ((a ^ d % n == 1) || ((a ^ d % n == n - 1) || a_square_passes n a d s))
strong_passes-suc n a d s =
    let e : suc s - 1 ≡ s = omega arith in
    ap (λ (t : ℕ). (a ^ d % n == 1) || ((a ^ d % n == n - 1) || a_square_passes n a d t)) e

module _ (n a : ℕ) (large : 1 < n) where
  -- A power that leaves 1 or -1 has a square that leaves 1.
  pub square_of_one : (e : ℕ) → a ^ e % n ≡ 1 → a ^ (2 * e) % n ≡ 1
  square_of_one e h =
      let first : 1 % n ≡ 1 = mod-eq_of_lt large in
      rw (power_square a e) (mul-mod (a ^ e) (a ^ e) 1 1 n (h ∙ sym first) (h ∙ sym first) ∙ first)

  pub square_of_minus_one : (e : ℕ) → a ^ e % n ≡ n - 1 → a ^ (2 * e) % n ≡ 1
  square_of_minus_one e h =
      let last : (n - 1) % n ≡ n - 1 = mod-eq_of_lt (omega arith) in
      rw (power_square a e) (
        mul-mod (a ^ e) (a ^ e) (n - 1) (n - 1) n (h ∙ sym last) (h ∙ sym last)
        ∙ (mod-eq_of_multiples ((n - 1) * (n - 1)) 1 0 (n - 2) n squared ∙ mod-eq_of_lt large))
    where
      squared : (n - 1) * (n - 1) + 0 * n ≡ 1 + (n - 2) * n
      squared =
          let e2 : n ≡ suc (suc (n - 2)) = omega arith in
          let e1 : n - 1 ≡ suc (n - 2) = omega arith in
          rw e1 (omega (arith, ap (λ (t : ℕ). (n - 2) * t) e2))

  one_lasts : (k e : ℕ) → a ^ e % n ≡ 1 → a ^ (e * 2 ^ k) % n ≡ 1
  one_lasts zero e h =
      ap (λ (t : ℕ). a ^ t % n) {x = e * 2 ^ 0} {y = e} (omega (arith, pow-zero 2)) ∙ h
  one_lasts (suc k) e h = rw (doubled e k) (one_lasts k (2 * e) (square_of_one e h))

  squares_reach_one :
      (rounds e : ℕ) → a_square_passes n a e rounds ≡ true → a ^ (e * 2 ^ suc rounds) % n ≡ 1
  squares_reach_one zero e h = ground arith
  squares_reach_one (suc rounds) e h =
      elim (or-true_cases (a ^ (2 * e) % n == n - 1) (a_square_passes n a (2 * e) rounds) h) [
        | inl now ↦
            rw (doubled e (suc rounds), doubled (2 * e) rounds)
              (one_lasts rounds (2 * (2 * e)) (square_of_minus_one (2 * e) (ground arith)))
        | inr later ↦ rw (doubled e (suc rounds)) (squares_reach_one rounds (2 * e) later)
      ]

  -- What passes the strong test passes Fermat's.
  pub strong_passes-fermat :
      (d s : ℕ) → strong_passes n a d (suc s) ≡ true → a ^ (d * 2 ^ suc s) % n ≡ 1
  strong_passes-fermat d s h =
      elim (or-true_cases (a ^ d % n == 1) ((a ^ d % n == n - 1) || a_square_passes n a d s)
        (sym (strong_passes-suc n a d s) ∙ h)) [
          | inl one ↦ one_lasts (suc s) d (ground arith)
          | inr rest ↦ elim (or-true_cases (a ^ d % n == n - 1) (a_square_passes n a d s) rest) [
            | inl last ↦
                rw (doubled d s) (one_lasts s (2 * d) (square_of_minus_one d (ground arith)))
            | inr later ↦ squares_reach_one s d later
          ]
        ]

module _ (n a : ℕ) (prime : IsPrime n) where
  root_of : (e : ℕ) → a ^ (2 * e) % n ≡ 1 → (a ^ e % n ≡ 1) ⊎ (a ^ e % n ≡ n - 1)
  root_of e h = square_roots n prime (a ^ e) (ap (λ (t : ℕ). t % n) (sym (power_square a e)) ∙ h)

  back :
      (k e : ℕ)
      → a ^ (e * 2 ^ suc k) % n ≡ 1
      → (a ^ e % n ≡ 1) ⊎ (((a ^ e % n == n - 1) || a_square_passes n a e k) ≡ true)
  back zero e h =
      elim (root_of e (ap (λ (t : ℕ). a ^ t % n) {x = 2 * e} {y = e * 2 ^ 1} (omega arith) ∙ h)) [
        | inl one ↦ inl one
        | inr last ↦ inr (ground arith)
      ]
  back (suc k) e h = elim (back k (2 * e) (rw (sym (doubled e (suc k))) h)) [
    | inl one ↦ elim (root_of e one) [ inl one ↦ inl one | inr last ↦ inr (ground arith) ]
    | inr later ↦ inr (or-true_right (a ^ e % n == n - 1) (a_square_passes n a e (suc k)) later)
  ]

  -- A prime passes the strong test for each base that Fermat's theorem is about.
  pub strong_passes_of_prime :
      (d s : ℕ) → a ^ (d * 2 ^ suc s) % n ≡ 1 → strong_passes n a d (suc s) ≡ true
  strong_passes_of_prime d s h = strong_passes-suc n a d s ∙ elim (back s d h) [
    | inl one ↦ ground arith
    | inr rest ↦
        or-true_right (a ^ d % n == 1) ((a ^ d % n == n - 1) || a_square_passes n a d s) rest
  ]
