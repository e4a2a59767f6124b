-- ===== src/Primality/Limbs/Value.antt =====
-- What the loops over limbs in new_src/primality_limbs.c compute, in the numbers that the limbs stand for.
use gap_miner_v.Prelude.{
  ℕ, zero, suc, ◌+◌, ◌-◌, ◌*◌, ◌/◌, ◌^◌, ◌≤◌, ◌<◌, ◌≡◌, ◌∙◌, refl, sym, ap, arith, List, [], ◌∷◌,
  ltb, leb, get_or, take, length, if◌then◌else◌, ltb→lt, leb-true, leb-false, Bool-cases, inl, inr,
}
use gap_miner_v.Primality.Word.{sub64}
use gap_miner_v.Primality.Limbs.{gte_below, sub_from, double_from}

abbrev pub value : List ℕ → ℕ
value [] = 0
value (a ∷ al) = a + 2 ^ 64 * value al

abbrev pub AllWords : List ℕ → Type 0
AllWords [] = Unit {0}
AllWords (a ∷ al) = (a < 2 ^ 64) × AllWords al

-- The weight behind `k` limbs.
abbrev pub weight : ℕ → ℕ
weight zero = 1
weight (suc k) = 2 ^ 64 * weight k

pub value-lt : (al : List ℕ) → AllWords al → value al < weight (length al)
value-lt [] h = omega arith
value-lt (a ∷ al) h = omega (arith, h.0, value-lt al h.1)

pub weight-pos : (k : ℕ) → 0 < weight k
weight-pos zero = omega arith
weight-pos (suc k) = omega (arith, weight-pos k)

value-take_nil : (i : ℕ) → value (take i []) ≡ 0
value-take_nil zero = refl
value-take_nil (suc i) = refl

pub take-lt : (i : ℕ) (al : List ℕ) → AllWords al → value (take i al) < weight i
take-lt zero al h = omega arith
take-lt (suc i) [] h = weight-pos (suc i)
take-lt (suc i) (a ∷ al) h = omega (arith, h.0, take-lt i al h.1)

pub take_limb :
    (i : ℕ) (al : List ℕ) → value (take (suc i) al) ≡ value (take i al) + weight i * get_or al i 0
take_limb i [] = omega (arith, value-take_nil i)
take_limb zero (a ∷ al) = omega arith
take_limb (suc i) (a ∷ al) = omega (arith, take_limb i al)

-- A larger limb outweighs the limbs below it.
limb-lt : (w x y low high : ℕ) → low < w → x < y → low + w * x < high + w * y
limb-lt w x y low high h l =
    let e : y ≡ x + 1 + (y - x - 1) = omega arith in omega (arith, ap (λ (t : ℕ). w * t) e)

-- The loop from the top compares.
pub gte_below_lem :
    (i : ℕ) (a b : List ℕ)
    → AllWords a
    → AllWords b
    → gte_below i a b ≡ leb (value (take i b)) (value (take i a))
unfolding gte_below
gte_below_lem zero a b ha hb = refl
gte_below_lem (suc i) a b ha hb =
    let w = weight i in
    let ai = get_or a i 0 in
    let bi = get_or b i 0 in
    rw (take_limb i a, take_limb i b)
      (elim (Bool-cases (ltb bi ai)) [
        | inl more ↦
            let l =
              limb-lt w bi ai (value (take i b)) (value (take i a)) (take-lt i b hb)
                (ltb→lt bi ai more) in
            rw more (
              sym (
                leb-true (value (take i b) + w * bi) (value (take i a) + w * ai)
                  (omega (arith, l))))
        | inr not_more ↦ elim (Bool-cases (ltb ai bi)) [
          | inl less ↦
              let l =
                limb-lt w ai bi (value (take i a)) (value (take i b)) (take-lt i a ha)
                  (ltb→lt ai bi less) in
              rw (not_more, less)
                (sym (leb-false (value (take i b) + w * bi) (value (take i a) + w * ai) l))
          | inr not_less ↦
              let same : ai ≡ bi = ground arith in
              rw (not_more, not_less, same)
                (gte_below_lem i a b ha hb ∙ shifted (value (take i b)) (value (take i a)) (w * bi))
        ]
      ])
  where
    shifted : (x y z : ℕ) → leb x y ≡ leb (x + z) (y + z)
    shifted x y z = ground arith

abbrev borrows : ℕ → ℕ → ℕ
borrows x y = if ltb x y then 1 else 0

word-sub :
    (x y : ℕ)
    → x < 2 ^ 64
    → y < 2 ^ 64
    → (sub64 x y < 2 ^ 64) × (borrows x y ≤ 1) × (sub64 x y + y ≡ x + 2 ^ 64 * borrows x y)
unfolding sub64
word-sub x y hx hy = elim (Bool-cases (ltb x y)) [
  | inl less ↦ rw less (omega arith, omega arith, let l : x < y = ltb→lt x y less in omega arith)
  | inr not_less ↦
      let l : y ≤ x = ground arith in rw not_less (omega arith, omega arith, omega arith)
]

limb-sub :
    (ai bi borrow : ℕ)
    → ai < 2 ^ 64
    → bi < 2 ^ 64
    → borrow ≤ 1
    → (borrows ai bi + borrows (sub64 ai bi) borrow ≤ 1)
      × (sub64 (sub64 ai bi) borrow < 2 ^ 64)
      × (sub64 (sub64 ai bi) borrow + bi + borrow
          ≡ ai + 2 ^ 64 * (borrows ai bi + borrows (sub64 ai bi) borrow))
limb-sub ai bi borrow ha hb h =
    let first = word-sub ai bi ha hb in
    let second = word-sub (sub64 ai bi) borrow first.0 (omega arith) in
    (
      omega (arith, first.1, first.2, second.0, second.1, second.2),
      second.0,
      omega (arith, first.2, second.2),
    )

-- The result, the subtrahend and the borrow are the minuend, but for a borrow that is left.
pub sub_from_lem :
    (a b : List ℕ) (borrow : ℕ)
    → length a ≡ length b
    → AllWords a
    → AllWords b
    → borrow ≤ 1
    → (out : ℕ) × (out ≤ 1)
      × (AllWords (sub_from a b borrow))
      × (length (sub_from a b borrow) ≡ length a)
      × (value (sub_from a b borrow) + value b + borrow ≡ value a + weight (length a) * out)
unfolding sub_from
sub_from_lem [] [] borrow e ha hb h = (borrow, h, tt, refl, omega arith)
sub_from_lem [] (bi ∷ bl) borrow e ha hb h = absurd (omega arith)
sub_from_lem (ai ∷ al) [] borrow e ha hb h = absurd (omega arith)
sub_from_lem (ai ∷ al) (bi ∷ bl) borrow e ha hb h =
    let limb = limb-sub ai bi borrow ha.0 hb.0 h in
    let next = borrows ai bi + borrows (sub64 ai bi) borrow in
    let rest = sub_from_lem al bl next (omega arith) ha.1 hb.1 limb.0 in
    (rest.0, rest.1, (limb.1, rest.2), ap suc rest.3, omega (arith, limb.2, rest.4))

-- The doubled limbs with the carry in front are twice the number and the carry behind it.
pub double_from_lem :
    (a : List ℕ) (carry : ℕ)
    → AllWords a
    → carry ≤ 1
    → let r = double_from a carry in
      (r.1 ≤ 1)
      × AllWords r.0
      × (length r.0 ≡ length a)
      × (value r.0 + weight (length a) * r.1 ≡ 2 * value a + carry)
unfolding double_from
double_from_lem [] carry ha h = (h, tt, refl, omega arith)
double_from_lem (v ∷ al) carry ha h =
    let rest = double_from_lem al (v / 2 ^ 63) ha.1 (omega (arith, ha.0)) in
    (rest.0, (omega arith, rest.1), ap suc rest.2, omega (arith, rest.3))
