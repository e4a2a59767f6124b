-- ===== src/Primality/Window/Compare.antt =====
-- The comparisons at the end of the tests on several limbs in new_src/primality_limbs.c.
use mathlib.Core.Path.{subst}
use gap_miner_v.Prelude.{
  if-or, ℕ, zero, suc, ◌+◌, ◌-◌, ◌*◌, ◌≤◌, ◌<◌, ◌≡◌, ◌∙◌, refl, sym, arith, ◌||◌, List, [], ◌∷◌,
  ◌==◌, get_or, length,
}
use gap_miner_v.Primality.Limbs.{cpu_sub_n}
use gap_miner_v.Primality.Limbs.Value.{value, AllWords, weight, value-lt, sub_from_lem}
use gap_miner_v.Primality.Window.{all_zero, is_one, same_limbs, one_limbs, euler_accepts}
use gap_miner_v.Primality.Window.Power.{one_limbs_lem}

all_zero_lem : (l : List ℕ) → all_zero l ≡ (value l == 0)
unfolding all_zero
all_zero_lem [] = refl
all_zero_lem (x ∷ l) = ground (arith, all_zero_lem l)

pub is_one_lem : (l : List ℕ) → AllWords l → is_one l ≡ (value l == 1)
unfolding is_one
is_one_lem [] h = refl
is_one_lem (x ∷ l) h = let w = h.0 in ground (arith, all_zero_lem l)

pub same_limbs_lem :
    (a b : List ℕ)
    → AllWords a
    → AllWords b
    → length a ≡ length b
    → same_limbs a b ≡ (value a == value b)
unfolding same_limbs
same_limbs_lem [] [] ha hb e = refl
same_limbs_lem [] (y ∷ b) ha hb e = absurd (omega arith)
same_limbs_lem (x ∷ a) [] ha hb e = absurd (omega arith)
same_limbs_lem (x ∷ a) (y ∷ b) ha hb e =
    let wx = ha.0 in let wy = hb.0 in ground (arith, same_limbs_lem a b ha.1 hb.1 (omega arith))

pub euler_accepts_lem :
    (r nm1 : List ℕ)
    → AllWords r
    → AllWords nm1
    → length r ≡ length nm1
    → euler_accepts r nm1 ≡ ((value r == 1) || (value r == value nm1))
unfolding euler_accepts
euler_accepts_lem r nm1 hr hm e =
    rw (is_one_lem r hr, same_limbs_lem r nm1 hr hm e) (if-or (value r == 1) (value r == value nm1))

pub one_limb : (n : List ℕ) → AllWords n → length n ≡ 1 → get_or n 0 0 ≡ value n
one_limb [] h e = refl
one_limb (x ∷ []) h e = omega arith
one_limb (x ∷ y ∷ n) h e = absurd (omega arith)

pub no_borrow : (w vn r out : ℕ) → out ≤ 1 → r < w → r + 1 ≡ vn + w * out → 0 < vn → r ≡ vn - 1
no_borrow w vn r zero l small e pos = omega (arith, e)
no_borrow w vn r (suc zero) l small e pos = absurd (omega (arith, e))
no_borrow w vn r (suc (suc out)) l small e pos = absurd (omega arith)

-- `cpu_sub_n(nm1, n, one_std)`
pub below_one :
    (n : List ℕ) (nl : ℕ)
    → AllWords n
    → length n ≡ nl
    → 0 < nl
    → 0 < value n
    → AllWords (cpu_sub_n n (one_limbs nl))
      × (length (cpu_sub_n n (one_limbs nl)) ≡ nl)
      × (value (cpu_sub_n n (one_limbs nl)) ≡ value n - 1)
unfolding cpu_sub_n
below_one n nl words size some pos =
    let one = one_limbs_lem nl some in
    let d = sub_from_lem n (one_limbs nl) 0 (size ∙ sym one.1) words one.0 (omega arith) in
    let least : value (cpu_sub_n n (one_limbs nl)) < weight (length n) =
      subst (λ (k : ℕ). value (cpu_sub_n n (one_limbs nl)) < weight k) d.3
        (value-lt (cpu_sub_n n (one_limbs nl)) d.2) in
    (
      d.2,
      d.3 ∙ size,
      no_borrow (weight (length n)) (value n) (value (cpu_sub_n n (one_limbs nl))) d.0 d.1 least
          (let e = d.4 in let v = one.2 in omega (arith, e, v)) (omega arith),
    )
