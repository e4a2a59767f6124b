-- ===== src/Primality/Adapters/Mpz.antt =====
-- `primality_fermat_limbs_mpz` and `primality_euler_limbs_mpz` of new_src/primality_limbs.c.
use native.Mathlib.Decide.{dec_lt}
use gap_miner_v.Prelude.{
  ℕ, zero, suc, ◌-◌, ◌*◌, ◌/◌, ◌%◌, ◌^◌, ◌≤◌, ◌<◌, ◌≡◌, ◌∙◌, refl, sym, ap, arith, Bool, true,
  false, ◌||◌, ◌&&◌, List, [], ◌∷◌, ltb, ◌==◌, get_or, take, length, lt→ltb, ltb-false,
  if◌then◌else◌,
}
use gap_miner_v.Gmp.{Gmp}
use gap_miner_v.Primality.Limbs.Value.{value}
use gap_miner_v.Primality.Limbs.Montmul.Buffer.{value-take, take-AllWords, length-take_of_le}
use gap_miner_v.Primality.Limbs.{max_limbs}
use gap_miner_v.Primality.Window.{fermat_test_nlimbs, euler_test_nlimbs}
use gap_miner_v.Primality.Window.Loop.{CountsTrailing}
use gap_miner_v.Primality.Window.Exponent.{LeadingZeros}
use gap_miner_v.Primality.Window.Accept.{nlimbs_tests_lem}
use gap_miner_v.Primality.Adapters.{limbs_export, euler_limbs_mpz, fermat_limbs_mpz}
use gap_miner_v.Primality.Adapters.Export.{ExportsWords, limbs_export_fits, limbs_export_over}

get_or-take : (l : List ℕ) (k i : ℕ) → i < k → get_or (take k l) i 0 ≡ get_or l i 0
get_or-take l zero i h = absurd (omega arith)
get_or-take [] (suc k) i h = refl
get_or-take (x ∷ l) (suc k) zero h = refl
get_or-take (x ∷ l) (suc k) (suc i) h = get_or-take l k i (omega arith)

guarded : (b t : Bool) → b ≡ false → (if b then false else t) ≡ t
guarded b t h = rw h refl

closed : (b t : Bool) → b ≡ true → (if b then false else t) ≡ false
closed b t h = rw h refl

under : (b t : Bool) → b ≡ true → (b && t) ≡ t
under b t h = rw h refl

outside : (b t : Bool) → b ≡ false → (b && t) ≡ false
outside b t h = rw h refl

module _ (gmp : Gmp) (mpz_export : ℕ → List ℕ) (clzll ctz : ℕ → ℕ)
    (exports : ExportsWords mpz_export) (leading : LeadingZeros clzll)
    (trailing : CountsTrailing ctz) (win_bits n : ℕ) (odd : n % 2 ≡ 1) (large : 4 ≤ n) where
  -- The tests on the limbs that the number needs.
  pub exported_tests :
      n < 2 ^ (64 * max_limbs)
      → let r = limbs_export gmp mpz_export n max_limbs in
        (fermat_test_nlimbs clzll ctz win_bits (take r.0 r.1) r.0 ≡ (2 ^ (n - 1) % n == 1))
        × (euler_test_nlimbs clzll ctz win_bits (take r.0 r.1) r.0
            ≡ ((2 ^ ((n - 1) / 2) % n == 1) || (2 ^ ((n - 1) / 2) % n == n - 1)))
  exported_tests h =
      let r = limbs_export gmp mpz_export n max_limbs in
      let e = limbs_export_fits gmp mpz_export n max_limbs exports (omega arith) h in
      let v : value (take r.0 r.1) ≡ n = value-take r.1 r.0 e.3 ∙ e.6 in
      let size : length (take r.0 r.1) ≡ r.0 =
        length-take_of_le r.1 r.0 (let l = e.1 in let k = e.5 in omega (arith, l, k)) in
      let top : 0 < get_or (take r.0 r.1) (r.0 - 1) 0 =
        rw (get_or-take r.1 r.0 (r.0 - 1) (let p = e.0 in omega (arith, p))) e.2 in
      let lem =
        nlimbs_tests_lem clzll ctz (take r.0 r.1) r.0 leading trailing (take-AllWords r.1 r.0 e.4)
          size e.0 e.1 top (rw v odd) (rw v large) win_bits in
      (
        lem.0 ∙ ap (λ (t : ℕ). 2 ^ (t - 1) % t == 1) v,
        lem.1 ∙ ap (λ (t : ℕ). (2 ^ ((t - 1) / 2) % t == 1) || (2 ^ ((t - 1) / 2) % t == t - 1)) v,
      )

  -- For an odd number from 4 on, builtins that count the zeros and an export that gives a number's words,
  -- whatever the window's size, `primality_fermat_limbs_mpz` and
  -- `primality_euler_limbs_mpz` accept exactly the numbers below 2 ^ 1280 that pass Fermat's test and
  -- Euler's for 2.
  pub limbs_mpz_lem :
      (fermat_limbs_mpz gmp mpz_export clzll ctz win_bits n
        ≡ (ltb n (2 ^ (64 * max_limbs)) && (2 ^ (n - 1) % n == 1)))
      × (euler_limbs_mpz gmp mpz_export clzll ctz win_bits n ≡ (
          ltb n (2 ^ (64 * max_limbs))
          && ((2 ^ ((n - 1) / 2) % n == 1) || (2 ^ ((n - 1) / 2) % n == n - 1))))
  unfolding fermat_limbs_mpz euler_limbs_mpz
  limbs_mpz_lem = elim (dec_lt n (2 ^ (64 * max_limbs))) [
    | yes h ↦
        let e = limbs_export_fits gmp mpz_export n max_limbs exports (omega arith) h in
        let some : ((limbs_export gmp mpz_export n max_limbs).0 == 0) ≡ false =
          let p = e.0 in ground (arith, p) in
        let fits = lt→ltb n (2 ^ (64 * max_limbs)) h in
        let tests = exported_tests h in
        (
          guarded _ _ some ∙ (tests.0 ∙ sym (under _ _ fits)),
          guarded _ _ some ∙ (tests.1 ∙ sym (under _ _ fits)),
        )
    | no h ↦
        let l : 2 ^ (64 * max_limbs) ≤ n = omega arith in
        let none : ((limbs_export gmp mpz_export n max_limbs).0 == 0) ≡ true =
          let z = limbs_export_over gmp mpz_export n max_limbs l in ground (arith, z) in
        let over = ltb-false n (2 ^ (64 * max_limbs)) l in
        (closed _ _ none ∙ sym (outside _ _ over), closed _ _ none ∙ sym (outside _ _ over))
  ]
