-- ===== src/Primality/Limbs/Montmul/Row.antt =====
-- A pass of cpu_mac over the limbs adds a multiple, in new_src/primality_limbs.c.
use native.Mathlib.Nat.{mul-le-mul}
use gap_miner_v.Prelude.{
  ℕ, suc, ◌+◌, ◌-◌, ◌*◌, ◌/◌, ◌%◌, ◌^◌, ◌≤◌, ◌<◌, ◌≡◌, refl, ap, arith, List, [], ◌∷◌, ltb, u64,
  length, if◌then◌else◌,
}
use gap_miner_v.Primality.Limbs.Value.{value, AllWords, weight}
use gap_miner_v.Primality.Limbs.Montmul.{cpu_mac, add_carry, mac_row}

abbrev carries : ℕ → ℕ → ℕ
carries top old = if ltb top old then 1 else 0

word_sum :
    (x y : ℕ)
    → x < 2 ^ 64
    → y < 2 ^ 64
    → (carries (u64 (x + y)) x ≤ 1) × (u64 (x + y) + 2 ^ 64 * carries (u64 (x + y)) x ≡ x + y)
word_sum x y hx hy = (ground arith, ground arith)

product_le : (a b : ℕ) → a < 2 ^ 64 → b < 2 ^ 64 → a * b ≤ (2 ^ 64 - 1) * (2 ^ 64 - 1)
product_le a b ha hb =
    let p : a ≤ 2 ^ 64 - 1 = omega arith in let q : b ≤ 2 ^ 64 - 1 = omega arith in mul-le-mul p q

-- Both words are 64 bits, and together they are the sum.
cpu_mac_lem :
    (acc a b carry : ℕ)
    → acc < 2 ^ 64
    → a < 2 ^ 64
    → b < 2 ^ 64
    → carry < 2 ^ 64
    → let r = cpu_mac acc a b carry in
      (r.0 < 2 ^ 64) × (r.1 < 2 ^ 64) × (r.0 + 2 ^ 64 * r.1 ≡ acc + a * b + carry)
unfolding cpu_mac
cpu_mac_lem acc a b carry hacc ha hb hc = words (a * b) (product_le a b ha hb)
  where
    words :
        (ab : ℕ)
        → ab ≤ (2 ^ 64 - 1) * (2 ^ 64 - 1)
        → let p = (ab + carry) % 2 ^ 128 in
          let out = u64 (acc + u64 p) in
          let high = u64 (u64 (p / 2 ^ 64) + carries out acc) in
          (out < 2 ^ 64) × (high < 2 ^ 64) × (out + 2 ^ 64 * high ≡ acc + ab + carry)
    words ab h =
        let p = (ab + carry) % 2 ^ 128 in
        let s = word_sum acc (u64 p) hacc (omega arith) in
        (omega arith, omega arith, omega (arith, h, s.0, s.1))

-- The carry fits into the two limbs on top.
add_carry_lem :
    (t : List ℕ) (c : ℕ)
    → AllWords t
    → c < 2 ^ 64
    → 2 ≤ length t
    → value t + c < 2 ^ 128
    → AllWords (add_carry t c)
      × (length (add_carry t c) ≡ length t)
      × (value (add_carry t c) ≡ value t + c)
unfolding add_carry
add_carry_lem [] c h hc l below = absurd (omega arith)
add_carry_lem (old ∷ []) c h hc l below = absurd (omega arith)
add_carry_lem (old ∷ next ∷ tl) c h hc l below =
    let s = word_sum old c h.0 hc in
    let fits : next + carries (u64 (old + c)) old < 2 ^ 64 = omega (arith, s.0, s.1, below) in
    ((omega arith, (omega arith, h.1.1)), refl, omega (arith, s.0, s.1, fits))

-- The pass adds `x` times the number and the carry, if the sum fits into the limbs and two more.
pub mac_row_lem :
    (x : ℕ) (b t : List ℕ) (c : ℕ)
    → x < 2 ^ 64
    → AllWords b
    → AllWords t
    → c < 2 ^ 64
    → length b + 2 ≤ length t
    → value t + x * value b + c < 2 ^ 128 * weight (length b)
    → AllWords (mac_row x b t c)
      × (length (mac_row x b t c) ≡ length t)
      × (value (mac_row x b t c) ≡ value t + x * value b + c)
unfolding mac_row
mac_row_lem x [] t c hx hb ht hc l below =
    let r = add_carry_lem t c ht hc l (omega (arith, below)) in (r.0, r.1, omega (arith, r.2))
mac_row_lem x (bj ∷ bl) [] c hx hb ht hc l below = absurd (omega arith)
mac_row_lem x (bj ∷ bl) (tj ∷ tl) c hx hb ht hc l below =
    let mac = cpu_mac_lem tj x bj c ht.0 hx hb.0 hc in
    let next = (cpu_mac tj x bj c).1 in
    let spread : x * (bj + 2 ^ 64 * value bl) ≡ x * bj + 2 ^ 64 * (x * value bl) = omega arith in
    let e = mac.2 in
    let fits : tj + 2 ^ 64 * value tl + x * (bj + 2 ^ 64 * value bl) + c
        < 2 ^ 128 * (2 ^ 64 * weight (length bl)) =
      below in
    let rest =
      mac_row_lem x bl tl next hx hb.1 ht.1 mac.1 (omega arith) (omega (arith, fits, spread, e)) in
    let f = rest.2 in ((mac.0, rest.0), ap suc rest.1, omega (arith, f, spread, e))
