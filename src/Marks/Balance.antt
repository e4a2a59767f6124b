-- ===== src/Marks/Balance.antt =====
-- Marking a class lowers the number of free offsets by what `count_from` counts.
use mathlib.Core.Path.{subst}
use native.Mathlib.Decide.{dec_lt, ℕ_discrete}
use gap_miner_v.Prelude.{
  ℕ, zero, suc, ◌+◌, ◌^◌, ◌≤◌, ◌<◌, ◌≡◌, refl, sym, ap, ◌∙◌, arith, Bool, true, false, List, u64,
  get_or, set, length, length-set, if◌then◌else◌, ltb-false, lt→ltb,
}
use gap_miner_v.Prelude.Arith.{mod_of_lt}
use gap_miner_v.Marks.{mark_from, count_from, count_free}
use gap_miner_v.Marks.Loops.{get_or-set_ne, get_or-set_self}

-- The counter only adds up.
count_free_acc :
    (left j : ℕ) (xs : List Bool) (s : ℕ) → count_free left j xs s ≡ count_free left j xs 0 + s
unfolding count_free
count_free_acc zero j xs s = omega arith
count_free_acc (suc left) j xs s = ground (
  arith,
  count_free_acc left (j + 1) xs (s + 1),
  count_free_acc left (j + 1) xs 1,
  count_free_acc left (j + 1) xs s,
)

-- What one free offset weighs.
abbrev weight : Bool → ℕ
weight true = 0
weight false = 1

count_free_step :
    (left j : ℕ) (xs : List Bool)
    → count_free (suc left) j xs 0 ≡ count_free left (j + 1) xs 0 + weight (get_or xs j false)
unfolding count_free
count_free_step left j xs = ground (arith, count_free_acc left (j + 1) xs 1)

-- Only the offsets that are looked at matter.
pub count_free_ext :
    (left j : ℕ) (xs ys : List Bool)
    → ((i : ℕ) → j ≤ i → i < j + left → get_or xs i false ≡ get_or ys i false)
    → count_free left j xs 0 ≡ count_free left j ys 0
count_free_ext zero j xs ys h = unfold count_free in refl
count_free_ext (suc left) j xs ys h = omega (
  arith,
  count_free_step left j xs,
  count_free_step left j ys,
  count_free_ext left (j + 1) xs ys (λ i a b. h i (omega arith) (omega arith)),
  ap weight (h j (omega arith) (omega arith)),
)

count_free-set_here :
    (left j : ℕ) (xs : List Bool)
    → j < length xs
    → count_free (suc left) j xs 0
      ≡ count_free (suc left) j (set xs j true) 0 + weight (get_or xs j false)
count_free-set_here left j xs len = omega (
  arith,
  count_free_step left j xs,
  count_free_step left j (set xs j true),
  ap weight (get_or-set_self xs j len),
  count_free_ext left (j + 1) xs (set xs j true)
      (λ i a b. sym (get_or-set_ne xs j i (omega arith))),
)

-- Covering one offset takes its weight away.
count_free-set :
    (left i j : ℕ) (xs : List Bool)
    → i ≤ j
    → j < i + left
    → j < length xs
    → count_free left i xs 0 ≡ count_free left i (set xs j true) 0 + weight (get_or xs j false)
count_free-set zero i j xs lo hi len = absurd (omega arith)
count_free-set (suc left) i j xs lo hi len = elim (ℕ_discrete i j) [
  | yes e ↦
      subst
        (λ k.
          count_free (suc left) k xs 0
          ≡ count_free (suc left) k (set xs j true) 0 + weight (get_or xs j false))
        (sym e) (count_free-set_here left j xs len)
  | no ne ↦ omega (
    arith,
    count_free_step left i xs,
    count_free_step left i (set xs j true),
    count_free-set left (i + 1) j xs (omega arith) (omega arith) len,
    ap weight (get_or-set_ne xs j i ne),
  )
]

count_from_acc :
    (fuel p j n : ℕ) (xs : List Bool) (c : ℕ)
    → count_from fuel p j n xs c ≡ count_from fuel p j n xs 0 + c
unfolding count_from
count_from_acc zero p j n xs c = omega arith
count_from_acc (suc fuel) p j n xs c = ground (
  arith,
  count_from_acc fuel p (u64 (j + p)) n xs (c + 1),
  count_from_acc fuel p (u64 (j + p)) n xs 1,
  count_from_acc fuel p (u64 (j + p)) n xs c,
)

weight_if : (b : Bool) → (if b then 0 else 0 + 1) ≡ weight b
weight_if true = refl
weight_if false = refl

count_from_step :
    (fuel p j n : ℕ) (xs : List Bool)
    → n + p ≤ 2 ^ 64
    → j < n
    → count_from (suc fuel) p j n xs 0
      ≡ count_from fuel p (j + p) n xs 0 + weight (get_or xs j false)
unfolding count_from
count_from_step fuel p j n xs fits l =
    rw (lt→ltb j n l, mod_of_lt (j + p) (2 ^ 64) (omega arith))
      (count_from_acc fuel p (j + p) n xs (if get_or xs j false then 0 else 0 + 1)
        ∙ ap (λ (w : ℕ). count_from fuel p (j + p) n xs 0 + w) (weight_if (get_or xs j false)))

count_from_stop : (fuel p j n : ℕ) (xs : List Bool) → n ≤ j → count_from (suc fuel) p j n xs 0 ≡ 0
unfolding count_from
count_from_stop fuel p j n xs h = rw (ltb-false j n h) refl

mark_from_step :
    (fuel p j n : ℕ) (xs : List Bool)
    → n + p ≤ 2 ^ 64
    → j < n
    → mark_from (suc fuel) p j n xs ≡ mark_from fuel p (j + p) n (set xs j true)
unfolding mark_from
mark_from_step fuel p j n xs fits l =
    rw (lt→ltb j n l, mod_of_lt (j + p) (2 ^ 64) (omega arith)) refl

mark_from_stop : (fuel p j n : ℕ) (xs : List Bool) → n ≤ j → mark_from (suc fuel) p j n xs ≡ xs
unfolding mark_from
mark_from_stop fuel p j n xs h = rw (ltb-false j n h) refl

-- Offsets before the loop's first do not matter.
count_from_ext :
    (fuel p j n : ℕ) (xs ys : List Bool)
    → n + p ≤ 2 ^ 64
    → ((i : ℕ) → j ≤ i → get_or xs i false ≡ get_or ys i false)
    → count_from fuel p j n xs 0 ≡ count_from fuel p j n ys 0
count_from_ext zero p j n xs ys fits h = unfold count_from in refl
count_from_ext (suc fuel) p j n xs ys fits h = elim (dec_lt j n) [
  | yes l ↦ omega (
    arith,
    count_from_step fuel p j n xs fits l,
    count_from_step fuel p j n ys fits l,
    count_from_ext fuel p (j + p) n xs ys fits (λ i a. h i (omega arith)),
    ap weight (h j (omega arith)),
  )
  | no l ↦
      count_from_stop fuel p j n xs (omega arith)
      ∙ sym (count_from_stop fuel p j n ys (omega arith))
]

-- The free offsets before marking are those after it and those that `count_from` counts.
pub mark_from_balance :
    (fuel p j n left lo : ℕ) (xs : List Bool)
    → 0 < p
    → n + p ≤ 2 ^ 64
    → n ≤ length xs
    → lo + left ≡ n
    → lo ≤ j
    → count_free left lo xs 0
      ≡ count_free left lo (mark_from fuel p j n xs) 0 + count_from fuel p j n xs 0
mark_from_balance zero p j n left lo xs pos fits len e h =
    unfold mark_from count_from in omega arith
mark_from_balance (suc fuel) p j n left lo xs pos fits len e h = elim (dec_lt j n) [
  | yes l ↦ omega (
    arith,
    count_free-set left lo j xs h (omega arith) (omega arith),
    count_from_step fuel p j n xs fits l,
    count_from_ext fuel p (j + p) n xs (set xs j true) fits
        (λ i a. sym (get_or-set_ne xs j i (omega arith))),
    ap (λ ys. count_free left lo ys 0) (mark_from_step fuel p j n xs fits l),
    mark_from_balance fuel p (j + p) n left lo (set xs j true) pos fits
        (omega (arith, length-set xs j true)) e (omega arith),
  )
  | no l ↦ omega (
    arith,
    count_from_stop fuel p j n xs (omega arith),
    ap (λ ys. count_free left lo ys 0) (mark_from_stop fuel p j n xs (omega arith)),
  )
]
