-- ===== src/Primality/Word/Strong.antt =====
-- The strong test of new_src/primality_limbs.c on powers modulo `n`.
use native.Mathlib.Nat.{mod-eq_of_lt, mod-mod, mod-lt, pow-suc, pow-zero}
use gap_miner_v.Prelude.{
  if-or, ℕ, zero, suc, ◌+◌, ◌-◌, ◌*◌, ◌/◌, ◌%◌, ◌^◌, ◌≤◌, ◌<◌, ◌≡◌, ◌∙◌, refl, sym, ap, arith, Bool,
  true, false, ◌||◌, ◌==◌, if◌then◌else◌, Bool-cases, inl, inr,
}
use gap_miner_v.Prelude.Arith.{pow_add, halved}
use gap_miner_v.Prelude.Mod.{mod-eq_of_multiples, mul-mod, mul-mod_cancel}
use gap_miner_v.Primality.Word.{mont_ninv, mont_mul, mont_r2, power_loop, square_loop, strong_mrt}
use gap_miner_v.Primality.Word.Montgomery.{mont_ninv_lem, mont_mul_lem, mont_r2_lem}

-- One of the squares of `a ^ e`, in `rounds` of them, is -1 modulo `n`.
abbrev pub a_square_passes : ℕ → ℕ → ℕ → ℕ → Bool
a_square_passes n a e zero = false
a_square_passes n a e (suc rounds) =
    (a ^ (2 * e) % n == n - 1) || a_square_passes n a (2 * e) rounds

-- The strong test: with `n - 1` as `d` times a power of two with exponent `s`.
abbrev pub strong_passes : ℕ → ℕ → ℕ → ℕ → Bool
strong_passes n a d s = (a ^ d % n == 1) || ((a ^ d % n == n - 1) || a_square_passes n a d (s - 1))

module _ (n : ℕ) (odd : n % 2 ≡ 1) (large : 1 < n) (small : n ≤ 2 ^ 63) where
  np : ℕ
  np = mont_ninv n

  -- 2 ^ 64 has an inverse modulo `n`.
  radix_inverse : (2 ^ 64 * ((n * mont_ninv n + 1) / 2 ^ 64)) % n ≡ 1 % n
  radix_inverse =
      mod-eq_of_multiples (2 ^ 64 * ((n * mont_ninv n + 1) / 2 ^ 64)) 1 0 (mont_ninv n) n
        (omega (arith, mont_ninv_lem n odd))

  rep : ℕ → ℕ
  rep x = (x * 2 ^ 64) % n

  cancel_radix : (a b : ℕ) → (a * 2 ^ 64) % n ≡ (b * 2 ^ 64) % n → a % n ≡ b % n
  cancel_radix a b e =
      mul-mod_cancel a b (2 ^ 64) ((n * mont_ninv n + 1) / 2 ^ 64) n radix_inverse e

  rep-lt : (x : ℕ) → rep x < n
  unfolding rep
  rep-lt x = mod-lt (x * 2 ^ 64) (omega arith)

  -- A product that is reduced and whose 2 ^ 64 fold is that of `y` is `y` modulo `n`.
  product_of :
      (a b y : ℕ)
      → a < n
      → b < n
      → (a * b) % n ≡ (y * 2 ^ 64) % n
      → mont_mul a b n (mont_ninv n) ≡ y % n
  product_of a b y ha hb e =
      let m = mont_mul_lem n (mont_ninv n) (mont_ninv_lem n odd) a b small ha hb in
      sym (mod-eq_of_lt m.0) ∙ cancel_radix (mont_mul a b n (mont_ninv n)) y (m.1 ∙ e)

  mul-rep : (x y : ℕ) → mont_mul (rep x) (rep y) n (mont_ninv n) ≡ rep (x * y)
  unfolding rep
  mul-rep x y =
      product_of ((x * 2 ^ 64) % n) ((y * 2 ^ 64) % n) (x * y * 2 ^ 64) (rep-lt x) (rep-lt y) (
        mul-mod ((x * 2 ^ 64) % n) ((y * 2 ^ 64) % n) (x * 2 ^ 64) (y * 2 ^ 64) n
          (mod-mod (x * 2 ^ 64) n) (mod-mod (y * 2 ^ 64) n)
        ∙ ap (λ (t : ℕ). t % n) {x = x * 2 ^ 64 * (y * 2 ^ 64)} {y = x * y * 2 ^ 64 * 2 ^ 64}
            (omega arith))

  enter : (v : ℕ) → v < n → mont_mul v (mont_r2 n) n (mont_ninv n) ≡ rep v
  unfolding rep
  enter v h =
      product_of v (mont_r2 n) (v * 2 ^ 64) h
        (rw (mont_r2_lem n (omega arith) (omega arith)) (mod-lt (2 ^ 128) (omega arith)))
        (mul-mod v (mont_r2 n) v (2 ^ 128) n refl (
            ap (λ (t : ℕ). t % n) (mont_r2_lem n (omega arith) (omega arith)) ∙ mod-mod (2 ^ 128) n)
          ∙ ap (λ (t : ℕ). t % n) {x = v * 2 ^ 128} {y = v * 2 ^ 64 * 2 ^ 64} (omega arith))

  rep-mod : (x y : ℕ) → x % n ≡ y % n → rep x ≡ rep y
  unfolding rep
  rep-mod x y e = mul-mod x (2 ^ 64) y (2 ^ 64) n e refl

  rep-== : (x y : ℕ) → (rep x == rep y) ≡ (x % n == y % n)
  unfolding rep
  rep-== x y = ground (arith, cancel_radix x y, rep-mod x y)

  rep-if :
      (t : Bool) (x y : ℕ)
      → (if t then mont_mul (rep x) (rep y) n (mont_ninv n) else rep x)
        ≡ rep (if t then x * y else x)
  rep-if true x y = mul-rep x y
  rep-if false x y = refl

  no_power : (x b e : ℕ) → e ≡ 0 → rep x ≡ rep (x * b ^ e)
  no_power x b e z = rw (z, pow-zero b) (rep-mod x (x * 1) (ap (λ (t : ℕ). t % n) (omega arith)))

  -- The loop over the bits of `e` multiplies by the power, in Montgomery's form.
  power_loop-rep :
      (fuel e x b : ℕ)
      → e < 2 ^ fuel
      → power_loop fuel n (mont_ninv n) e (rep x) (rep b) ≡ rep (x * b ^ e)
  unfolding power_loop
  power_loop-rep zero e x b h = no_power x b e (omega arith)
  power_loop-rep (suc fuel) e x b h = elim (Bool-cases (e == 0)) [
    | inl done ↦ rw done (no_power x b e (ground arith))
    | inr more ↦
        rw (more, rep-if (e % 2 == 1) x b, mul-rep b b)
          (power_loop-rep fuel (e / 2) (if e % 2 == 1 then x * b else x) (b * b)
              (omega (arith, pow-suc 2 fuel))
            ∙ ap rep (halved x b e))
  ]

  square_loop-rep :
      (rounds a e : ℕ)
      → square_loop rounds n (mont_ninv n) (rep (n - 1)) (rep (a ^ e))
        ≡ a_square_passes n a e rounds
  unfolding square_loop
  square_loop-rep zero a e = refl
  square_loop-rep (suc rounds) a e =
      let k : a ^ e * a ^ e ≡ a ^ (2 * e) =
        let f : 2 * e ≡ e + e = omega arith in rw (f, pow_add a e e) refl in
      let last : (n - 1) % n ≡ n - 1 = mod-eq_of_lt (omega arith) in
      rw
        (
          mul-rep (a ^ e) (a ^ e),
          k,
          rep-== (a ^ (2 * e)) (n - 1),
          last,
          square_loop-rep rounds a (2 * e),
        )
        (if-or (a ^ (2 * e) % n == n - 1) (a_square_passes n a (2 * e) rounds))

  -- For an odd `n` above 1 and up to 2 ^ 63, a base `a` and a `d` of 64 bits, `strong_mrt` is the strong
  -- test of the powers of `a` modulo `n`.
  pub strong_mrt_lem :
      (a d s : ℕ)
      → d < 2 ^ 64
      → strong_mrt n a (mont_ninv n) (mont_r2 n) d s ≡ strong_passes n a d s
  unfolding strong_mrt
  strong_mrt_lem a d s h =
      let last : (n - 1) % n ≡ n - 1 = mod-eq_of_lt (omega arith) in
      let first : 1 % n ≡ 1 = mod-eq_of_lt large in
      let base : rep (a % n) ≡ rep a = rep-mod (a % n) a (mod-mod a n) in
      let power : rep (1 * a ^ d) ≡ rep (a ^ d) = ap rep (omega arith) in
      rw
        (
          enter 1 large,
          enter (n - 1) (omega arith),
          enter (a % n) (mod-lt a (omega arith)),
          base,
          power_loop-rep 64 d 1 a h,
          power,
          rep-== (a ^ d) 1,
          rep-== (a ^ d) (n - 1),
          first,
          last,
          square_loop-rep (s - 1) a d,
        )
        (combine (a ^ d % n == 1) (a ^ d % n == n - 1) (a_square_passes n a d (s - 1)))
    where
      combine : (p q r : Bool) → (if p || q then true else r) ≡ (p || (q || r))
      combine p q r = ground arith
