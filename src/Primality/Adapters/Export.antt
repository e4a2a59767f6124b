-- ===== src/Primality/Adapters/Export.antt =====
-- `primality_limbs_export` of new_src/primality_limbs.c and the tests behind it.
use mathlib.Core.Path.{subst}
use native.Mathlib.Nat.{pow-le-pow_right, pow-suc}
use native.Mathlib.Decide.{dec_lt}
use gap_miner_v.Prelude.{
  ℕ, zero, suc, ◌+◌, ◌-◌, ◌*◌, ◌^◌, ◌≤◌, ◌<◌, ◌≡◌, ◌∙◌, refl, sym, ap, arith, false, List, [], ◌∷◌,
  ltb, ◌==◌, get_or, replicate, take, length, if◌then◌else◌, Bool-cases, inl, inr, length-replicate,
  ltb-false, lt→ltb, if-false,
}
use gap_miner_v.Prelude.Arith.{pow_add}
use gap_miner_v.Gmp.{Gmp}
use gap_miner_v.Primality.Limbs.Value.{value, AllWords, weight, take-lt, take_limb}
use gap_miner_v.Primality.Limbs.Radix.{weight-power, value-replicate, replicate-AllWords}
use gap_miner_v.Primality.Limbs.Montmul.Buffer.{value-take}
use gap_miner_v.Primality.Adapters.{limbs_effective_nl, overwrite, limbs_export}

-- `mpz_export(limbs, &count, -1, 8, 0, 0, n)`: little endian words of 64 bits, no more than needed.
abbrev pub ExportsWords : (ℕ → List ℕ) → Type 0
ExportsWords mpz_export =
    (x : ℕ)
    → AllWords (mpz_export x)
      × (value (mpz_export x) ≡ x)
      × (0 < x → 2 ^ (64 * length (mpz_export x)) ≤ 2 ^ 64 * x)

overwrite_lem :
    (ws : List ℕ) (k : ℕ)
    → AllWords ws
    → length ws ≤ k
    → AllWords (overwrite ws (replicate k 0))
      × (length (overwrite ws (replicate k 0)) ≡ k)
      × (value (overwrite ws (replicate k 0)) ≡ value ws)
unfolding overwrite
overwrite_lem [] k h l = (replicate-AllWords k, length-replicate {A = ℕ} k 0, value-replicate k)
overwrite_lem (w ∷ ws) zero h l = absurd (omega arith)
overwrite_lem (w ∷ ws) (suc k) h l =
    let rest = overwrite_lem ws k h.1 (omega arith) in
    let e = rest.2 in ((h.0, rest.0), ap suc rest.1, omega (arith, e))

-- The limbs that are kept hold the whole number, and the last of them is not 0.
pub limbs_effective_nl_lem :
    (limbs : List ℕ) (nl : ℕ)
    → AllWords limbs
    → 0 < nl
    → 0 < value limbs
    → value limbs < weight nl
    → let r = limbs_effective_nl limbs nl in
      (0 < r) × (r ≤ nl) × (0 < get_or limbs (r - 1) 0) × (value limbs < weight r)
unfolding limbs_effective_nl
limbs_effective_nl_lem limbs zero hl pos some h = absurd (omega arith)
limbs_effective_nl_lem limbs (suc zero) hl pos some h = (
  omega arith,
  omega arith,
  omega (arith, value-take limbs 1 h, take_limb 0 limbs, none limbs),
  h,
)
  where
    none : (l : List ℕ) → value (take 0 l) ≡ 0
    none [] = refl
    none (x ∷ l) = refl
limbs_effective_nl_lem limbs (suc (suc nl)) hl pos some h =
    elim (Bool-cases (get_or limbs (suc nl) 0 == 0)) [
      | inl gone ↦
          let z : get_or limbs (suc nl) 0 ≡ 0 = ground arith in
          let lost : weight (suc nl) * get_or limbs (suc nl) 0 ≡ 0 =
            ap (λ (t : ℕ). weight (suc nl) * t) z ∙ omega arith in
          let below : value limbs < weight (suc nl) = omega (
            arith,
            value-take limbs (suc (suc nl)) h,
            take_limb (suc nl) limbs,
            lost,
            take-lt (suc nl) limbs hl,
          ) in
          let rest = limbs_effective_nl_lem limbs (suc nl) hl (omega arith) some below in
          rw gone (rest.0, omega (arith, rest.1), rest.2, rest.3)
      | inr last ↦
          let e : suc (suc nl) - 1 ≡ suc nl = omega arith in
          rw (last, e) (omega arith, omega arith, ground arith, h)
    ]

-- Larger powers of two have larger exponents.
exponent_le : (a b : ℕ) → 2 ^ a < 2 ^ suc b → a ≤ b
exponent_le a b h = elim (dec_lt b a) [
  | no k ↦ omega arith
  | yes k ↦
      let l : suc b ≤ a = omega arith in
      let more : 2 ^ suc b ≤ 2 ^ a = pow-le-pow_right (omega arith) l in absurd (omega arith)
]

-- A number that is not 0 and fits into the limbs: the limbs are those of the number, and the number of
-- limbs is what it needs.
pub limbs_export_fits :
    (gmp : Gmp) (mpz_export : ℕ → List ℕ) (n max_nl : ℕ)
    → ExportsWords mpz_export
    → 0 < n
    → n < 2 ^ (64 * max_nl)
    → let r = limbs_export gmp mpz_export n max_nl in
      (0 < r.0)
      × (r.0 ≤ max_nl)
      × (0 < get_or r.1 (r.0 - 1) 0)
      × (value r.1 < weight r.0)
      × AllWords r.1
      × (length r.1 ≡ max_nl)
      × (value r.1 ≡ n)
      × (r.0 ≡ limbs_effective_nl r.1 max_nl)
unfolding limbs_export
limbs_export_fits gmp mpz_export n zero law pos h = absurd (omega arith)
limbs_export_fits gmp mpz_export n (suc k) law pos h =
    let max_nl = suc k in
    let words = law n in
    let size : gmp.sizeinbase2 n ≤ max_nl * 64 =
      let l =
        exponent_le (gmp.sizeinbase2 n) (64 * max_nl)
          (omega (arith, gmp.sizeinbase2_lower n pos, h, pow-suc 2 (64 * max_nl))) in
      omega (arith, l) in
    let few : length (mpz_export n) ≤ max_nl =
      let m = words.2 pos in
      let e : 64 * suc max_nl ≡ 64 + 64 * max_nl = omega arith in
      let p : 2 ^ (64 * suc max_nl) ≡ 2 ^ 64 * 2 ^ (64 * max_nl) =
        ap (λ (t : ℕ). 2 ^ t) e ∙ pow_add 2 64 (64 * max_nl) in
      elim (dec_lt max_nl (length (mpz_export n))) [
        | no short ↦ omega arith
        | yes long ↦
            let l : 64 * suc max_nl ≤ 64 * length (mpz_export n) = omega arith in
            let more : 2 ^ (64 * suc max_nl) ≤ 2 ^ (64 * length (mpz_export n)) =
              pow-le-pow_right (omega arith) l in
            absurd (omega (arith, more, p, m, h))
      ] in
    let limbs = overwrite (mpz_export n) (replicate max_nl 0) in
    let o = overwrite_lem (mpz_export n) max_nl words.0 few in
    let v : value limbs ≡ n = o.2 ∙ words.1 in
    let below : value limbs < weight max_nl = rw (v, weight-power max_nl) h in
    let some : 0 < value limbs = rw v pos in
    let r = limbs_effective_nl_lem limbs max_nl o.0 (omega arith) some below in
    let fits : ltb (max_nl * 64) (gmp.sizeinbase2 n) ≡ false =
      ltb-false (max_nl * 64) (gmp.sizeinbase2 n) size in
    let other : (max_nl == 0) ≡ false = ground arith in
    let failed : ℕ × List ℕ = (0, []) in
    let fitted : ℕ × List ℕ = (limbs_effective_nl limbs max_nl, limbs) in
    let inner = if ltb (max_nl * 64) (gmp.sizeinbase2 n) then failed else fitted in
    let whole : (if max_nl == 0 then failed else inner) ≡ fitted =
      if-false (max_nl == 0) failed inner other
      ∙ if-false (ltb (max_nl * 64) (gmp.sizeinbase2 n)) failed fitted fits in
    subst
      (λ (t : ℕ × List ℕ).
        (0 < t.0)
        × (t.0 ≤ max_nl)
        × (0 < get_or t.1 (t.0 - 1) 0)
        × (value t.1 < weight t.0)
        × AllWords t.1
        × (length t.1 ≡ max_nl)
        × (value t.1 ≡ n)
        × (t.0 ≡ limbs_effective_nl t.1 max_nl))
      (sym whole) (r.0, r.1, r.2, r.3, o.0, o.1, v, refl)

-- A number that does not fit gives 0.
pub limbs_export_over :
    (gmp : Gmp) (mpz_export : ℕ → List ℕ) (n max_nl : ℕ)
    → 2 ^ (64 * max_nl) ≤ n
    → (limbs_export gmp mpz_export n max_nl).0 ≡ 0
unfolding limbs_export
limbs_export_over gmp mpz_export n zero h = refl
limbs_export_over gmp mpz_export n (suc k) h =
    let size : suc k * 64 < gmp.sizeinbase2 n = elim (dec_lt (suc k * 64) (gmp.sizeinbase2 n)) [
      | yes l ↦ l
      | no l ↦
          let m : gmp.sizeinbase2 n ≤ 64 * suc k = omega arith in
          let p : 2 ^ gmp.sizeinbase2 n ≤ 2 ^ (64 * suc k) = pow-le-pow_right (omega arith) m in
          absurd (omega (arith, p, gmp.sizeinbase2_upper n))
    ] in
    let other : (suc k == 0) ≡ false = ground arith in
    rw (other, lt→ltb (suc k * 64) (gmp.sizeinbase2 n) size) refl
