-- ===== src/Primality/Limbs/Reduce.antt =====
-- The last step of the operations modulo n in new_src/primality_limbs.c: n is subtracted once, when a
-- carry is left or the limbs reach n.
use mathlib.Core.Path.{subst}
use native.Mathlib.Nat.{mod-eq_of_lt}
use gap_miner_v.Prelude.{
  ℕ, zero, suc, ◌+◌, ◌*◌, ◌%◌, ◌≤◌, ◌<◌, ◌≡◌, ◌∙◌, ◌⊎◌, refl, sym, ap, arith, Bool, true, false,
  not, ◌||◌, List, [], ◌∷◌, leb, ◌==◌, take, length, Bool-cases, inl, inr, if◌then◌else◌,
}
use gap_miner_v.Prelude.Mod.{mod-eq_of_multiples}
use gap_miner_v.Primality.Limbs.{cpu_gte_n, cpu_sub_n, sub_from}
use gap_miner_v.Primality.Limbs.Value.{
  value, AllWords, weight, value-lt, gte_below_lem, sub_from_lem,
}

pub take_whole : (l : List ℕ) (k : ℕ) → length l ≡ k → take k l ≡ l
take_whole [] zero e = refl
take_whole [] (suc k) e = refl
take_whole (x ∷ l) zero e = absurd (omega arith)
take_whole (x ∷ l) (suc k) e = ap (λ (t : List ℕ). x ∷ t) (take_whole l k (omega arith))

gte-value :
    (a b : List ℕ) (nl : ℕ)
    → AllWords a
    → AllWords b
    → length a ≡ nl
    → length b ≡ nl
    → cpu_gte_n a b nl ≡ leb (value b) (value a)
unfolding cpu_gte_n
gte-value a b nl ha hb la lb =
    gte_below_lem nl a b ha hb ∙ rw (take_whole a nl la, take_whole b nl lb) refl

over_cases : (c x y : ℕ) → (not (c == 0) || leb x y) ≡ true → (0 < c) ⊎ (x ≤ y)
over_cases c x y e = ground arith

under_cases : (c x y : ℕ) → (not (c == 0) || leb x y) ≡ false → (c ≡ 0) × (y < x)
under_cases c x y e = ground arith

difference :
    (w total vn vd vr c out : ℕ)
    → c ≤ 1
    → out ≤ 1
    → vd + w * c ≡ total
    → vr + vn ≡ vd + w * out
    → vr < w
    → vn < w
    → total < 2 * vn
    → (0 < c) ⊎ (vn ≤ vd)
    → vr + vn ≡ total
difference w total vn vd vr zero zero hc ho e f hr hn h over = omega (arith, e, f)
difference w total vn vd vr zero (suc zero) hc ho e f hr hn h over = elim over [
  | inl none ↦ absurd (omega arith)
  | inr more ↦ absurd (omega (arith, e, f, more))
]
difference w total vn vd vr (suc zero) zero hc ho e f hr hn h over = absurd (omega (arith, e, f))
difference w total vn vd vr (suc zero) (suc zero) hc ho e f hr hn h over = omega (arith, e, f)
difference w total vn vd vr (suc (suc c)) out hc ho e f hr hn h over = absurd (omega arith)
difference w total vn vd vr zero (suc (suc out)) hc ho e f hr hn h over = absurd (omega arith)
difference w total vn vd vr (suc zero) (suc (suc out)) hc ho e f hr hn h over = absurd (omega arith)

reduced :
    (w total vn vd vr c out : ℕ)
    → c ≤ 1
    → out ≤ 1
    → vd + w * c ≡ total
    → vr + vn ≡ vd + w * out
    → vr < w
    → vn < w
    → total < 2 * vn
    → (0 < c) ⊎ (vn ≤ vd)
    → vr ≡ total % vn
reduced w total vn vd vr c out hc ho e f hr hn h over =
    let k : vr + vn ≡ total = difference w total vn vd vr c out hc ho e f hr hn h over in
    sym (mod-eq_of_lt {n = vr} {m = vn} (omega (arith, k)))
    ∙ mod-eq_of_multiples vr total 1 0 vn (omega (arith, k))

-- Limbs `d` with a carry `c` in front that are below twice `n`: one subtraction gives the remainder.
pub subtract_once :
    (d n : List ℕ) (nl c total : ℕ)
    → AllWords d
    → AllWords n
    → length d ≡ nl
    → length n ≡ nl
    → c ≤ 1
    → value d + weight nl * c ≡ total
    → total < 2 * value n
    → let r = if not (c == 0) || cpu_gte_n d n nl then cpu_sub_n d n else d in
      AllWords r × (length r ≡ nl) × (value r ≡ total % value n)
unfolding cpu_sub_n
subtract_once d n nl c total hd hn ld ln hc e below =
    let sub = sub_from_lem d n 0 (ld ∙ sym ln) hd hn (omega arith) in
    let n_lt : value n < weight nl = subst (λ (k : ℕ). value n < weight k) ln (value-lt n hn) in
    let r_lt : value (sub_from d n 0) < weight nl =
      subst (λ (k : ℕ). value (sub_from d n 0) < weight k) (sub.3 ∙ ld)
        (value-lt (sub_from d n 0) sub.2) in
    let rest : value (sub_from d n 0) + value n ≡ value d + weight nl * sub.0 =
      subst (λ (k : ℕ). value (sub_from d n 0) + value n ≡ value d + weight k * sub.0) ld
        (let f = sub.4 in omega (arith, f)) in
    let gte : cpu_gte_n d n nl ≡ leb (value n) (value d) = gte-value d n nl hd hn ld ln in
    elim (Bool-cases (not (c == 0) || cpu_gte_n d n nl)) [
      | inl over ↦ rw over (
        sub.2,
        sub.3 ∙ ld,
        reduced (weight nl) total (value n) (value d) (value (sub_from d n 0)) c sub.0 hc sub.1 e
            rest r_lt n_lt below
            (over_cases c (value n) (value d)
              (ap (λ (t : Bool). not (c == 0) || t) (sym gte) ∙ over)),
      )
      | inr under ↦
          let small =
            under_cases c (value n) (value d)
              (ap (λ (t : Bool). not (c == 0) || t) (sym gte) ∙ under) in
          let none : weight nl * c ≡ 0 = ap (λ (t : ℕ). weight nl * t) small.0 ∙ omega arith in
          let same : value d ≡ total = omega (arith, e, none) in
          rw under (
            hd,
            ld,
            sym (mod-eq_of_lt (let l = small.1 in omega (arith, l)))
                ∙ ap (λ (t : ℕ). t % value n) same,
          )
    ]
