-- ===== src/Primality/Window/Bits.antt =====
-- The exponent's bits as the loop of new_src/primality_limbs.c reads them from the limbs.
use native.Mathlib.Nat.{add-mul-div_left, div-div-eq-div-mul, zero-div, mod-eq_of_lt}
use gap_miner_v.Prelude.{
  ℕ, zero, suc, ◌+◌, ◌-◌, ◌*◌, ◌/◌, ◌%◌, ◌^◌, ◌<◌, ◌≡◌, ◌∙◌, sym, ap, arith, List, [], ◌∷◌, get_or,
}
use gap_miner_v.Prelude.Arith.{pow_add, pow-pos}
use gap_miner_v.Prelude.Mod.{mod-eq_of_multiples}
use gap_miner_v.Primality.Limbs.Value.{value, AllWords}

-- `j` bits from bit `off` of the lowest limb on.
low_bits :
    (x v off j r : ℕ)
    → off + j + r ≡ 64
    → (x / 2 ^ off) % 2 ^ j ≡ ((x + 2 ^ 64 * v) / 2 ^ off) % 2 ^ j
low_bits x v off j r e =
    let p : 2 ^ 64 ≡ 2 ^ off * (2 ^ j * 2 ^ r) =
      ap (λ (t : ℕ). 2 ^ t) (sym e)
      ∙ (pow_add 2 (off + j) r ∙ (ap (λ (t : ℕ). t * 2 ^ r) (pow_add 2 off j) ∙ omega arith)) in
    let q : 2 ^ 64 * v ≡ 2 ^ off * (2 ^ j * (2 ^ r * v)) = ap (λ (t : ℕ). t * v) p ∙ omega arith in
    rw (q, add-mul-div_left x (2 ^ j * (2 ^ r * v)) (pow-pos off))
      (sym (
        mod-eq_of_multiples (x / 2 ^ off + 2 ^ j * (2 ^ r * v)) (x / 2 ^ off) 0 (2 ^ r * v) (2 ^ j)
          (omega arith)))

drop_limb :
    (x v limb off : ℕ)
    → x < 2 ^ 64
    → (x + 2 ^ 64 * v) / 2 ^ (64 * suc limb + off) ≡ v / 2 ^ (64 * limb + off)
drop_limb x v limb off h =
    let e : 64 * suc limb + off ≡ 64 + (64 * limb + off) = omega arith in
    let low : (x + 2 ^ 64 * v) / 2 ^ 64 ≡ v = omega arith in
    rw (e, pow_add 2 64 (64 * limb + off))
      (sym (div-div-eq-div-mul (x + 2 ^ 64 * v) (2 ^ 64) (2 ^ (64 * limb + off)))
        ∙ ap (λ (t : ℕ). t / 2 ^ (64 * limb + off)) low)

pub limb_bits :
    (e : List ℕ) (limb off j r : ℕ)
    → AllWords e
    → off + j + r ≡ 64
    → (get_or e limb 0 / 2 ^ off) % 2 ^ j ≡ (value e / 2 ^ (64 * limb + off)) % 2 ^ j
limb_bits [] limb off j r he h =
    ap (λ (t : ℕ). t % 2 ^ j) (zero-div (2 ^ off) ∙ sym (zero-div (2 ^ (64 * limb + off))))
limb_bits (x ∷ e) zero off j r he h =
    let z : off ≡ 64 * 0 + off = omega arith in
    low_bits x (value e) off j r h ∙ ap (λ (t : ℕ). (x + 2 ^ 64 * value e) / 2 ^ t % 2 ^ j) z
limb_bits (x ∷ e) (suc limb) off j r he h =
    limb_bits e limb off j r he.1 h
    ∙ ap (λ (t : ℕ). t % 2 ^ j) (sym (drop_limb x (value e) limb off he.0))

pub place : (b : ℕ) → 64 * (b / 64) + b % 64 ≡ b
place b = omega arith

-- The test of one bit.
pub bit_at :
    (e : List ℕ) (b : ℕ) → AllWords e → get_or e (b / 64) 0 / 2 ^ (b % 64) % 2 ≡ value e / 2 ^ b % 2
bit_at e b he =
    limb_bits e (b / 64) (b % 64) 1 (63 - b % 64) he (omega arith)
    ∙ ap (λ (t : ℕ). value e / 2 ^ t % 2) (place b)

-- Behind the end of a limb of `off + j` bits, the number goes on in the next.
pub next_bits :
    (e : List ℕ) (limb off j k r : ℕ)
    → AllWords e
    → off + j ≡ 64
    → k + r ≡ 64
    → get_or e (limb + 1) 0 % 2 ^ k ≡ value e / 2 ^ (64 * limb + off) / 2 ^ j % 2 ^ k
next_bits e limb off j k r he h hk =
    let p : 64 * limb + off + j ≡ 64 * (limb + 1) + 0 = omega arith in
    ap (λ (t : ℕ). t % 2 ^ k) {x = get_or e (limb + 1) 0} {y = get_or e (limb + 1) 0 / 2 ^ 0}
      (omega arith)
    ∙ (limb_bits e (limb + 1) 0 k r he (omega arith)
        ∙ ap (λ (t : ℕ). t % 2 ^ k)
            (ap (λ (t : ℕ). value e / 2 ^ t) (sym p)
              ∙ (ap (λ (t : ℕ). value e / t) (pow_add 2 (64 * limb + off) j)
                  ∙ sym (div-div-eq-div-mul (value e) (2 ^ (64 * limb + off)) (2 ^ j)))))

pub last_bits :
    (e : List ℕ) (limb off j : ℕ)
    → AllWords e
    → off + j ≡ 64
    → get_or e limb 0 / 2 ^ off < 2 ^ j
    → get_or e limb 0 / 2 ^ off ≡ value e / 2 ^ (64 * limb + off) % 2 ^ j
last_bits e limb off j he h small =
    sym (mod-eq_of_lt small) ∙ limb_bits e limb off j 0 he (omega arith)
