-- ===== src/Marks/Loops.antt =====
-- What the marking loop leaves in the array, and how the counting loops agree.
use native.Mathlib.Decide.{dec_lt}
use gap_miner_v.Prelude.{
  ℕ, zero, suc, ◌+◌, ◌-◌, ◌%◌, ◌^◌, ◌≤◌, ◌<◌, ◌≡◌, ◌≢◌, refl, ap, ◌∙◌, arith, Bool, true, false,
  ◌||◌, List, [], ◌∷◌, ◌==◌, u64, get_or, set, length, length-set, if◌then◌else◌, ltb-false, lt→ltb,
}
use gap_miner_v.Prelude.Arith.{mod_of_lt, mod_of_ge}
use gap_miner_v.Marks.{mark_from, count_free, list_free, hits}

pub get_or-set :
    (xs : List Bool) (j i : ℕ)
    → j < length xs
    → get_or (set xs j true) i false ≡ ((i == j) || get_or xs i false)
get_or-set [] j i h = absurd (omega arith)
get_or-set (x ∷ xs) zero zero h = refl
get_or-set (x ∷ xs) zero (suc i) h = ground arith
get_or-set (x ∷ xs) (suc j) zero h = ground arith
get_or-set (x ∷ xs) (suc j) (suc i) h = get_or-set xs j i (omega arith) ∙ ground arith

-- One round of the loop, in the offsets that it reaches.
pub hits_step : (p j n i : ℕ) → 0 < p → j < n → hits p j n i ≡ ((i == j) || hits p (j + p) n i)
hits_step p j n i pos h = elim (dec_lt i (j + p)) [
  | yes near ↦ ground (arith, mod_of_lt (i - j) p)
  | no far ↦ ground (arith, mod_of_ge (i - j) p, same (omega arith))
]
  where
    same : j + p ≤ i → (i - j - p) % p ≡ (i - (j + p)) % p
    same h = ap (λ (k : ℕ). k % p) (omega arith)

pub or_swap : (a b c : Bool) → (a || (b || c)) ≡ ((b || a) || c)
or_swap a b c = ground arith

pub hits_end : (p j n i : ℕ) → n ≤ j → hits p j n i ≡ false
hits_end p j n i h = ground arith

pub length-mark_from :
    (fuel p j n : ℕ) (xs : List Bool) → length (mark_from fuel p j n xs) ≡ length xs
unfolding mark_from
length-mark_from zero p j n xs = refl
length-mark_from (suc fuel) p j n xs =
    ground (arith, length-mark_from fuel p (u64 (j + p)) n (set xs j true), length-set xs j true)

-- `mark_from` covers exactly the offsets that it reaches, and leaves the others as they were.
pub get_or-mark_from :
    (fuel p j n : ℕ) (xs : List Bool) (i : ℕ)
    → 0 < p
    → n + p ≤ 2 ^ 64
    → n ≤ length xs
    → n ≤ j + fuel
    → get_or (mark_from fuel p j n xs) i false ≡ (hits p j n i || get_or xs i false)
unfolding mark_from
get_or-mark_from zero p j n xs i pos fits len enough = rw (hits_end p j n i (omega arith)) refl
get_or-mark_from (suc fuel) p j n xs i pos fits len enough = elim (dec_lt j n) [
  | yes h ↦
      rw (lt→ltb j n h, mod_of_lt (j + p) (2 ^ 64) (omega arith))
        (get_or-mark_from fuel p (j + p) n (set xs j true) i pos fits
            (omega (arith, length-set xs j true)) (omega arith)
          ∙ rw (get_or-set xs j i (omega arith), hits_step p j n i pos h)
              (or_swap (hits p (j + p) n i) (i == j) (get_or xs i false)))
  | no h ↦ rw (ltb-false j n (omega arith), hits_end p j n i (omega arith)) refl
]

-- The number of free offsets is the length of their list.
pub count_free-list_free :
    (left j : ℕ) (xs : List Bool) (s : ℕ)
    → count_free left j xs s ≡ s + length (list_free left j xs)
unfolding count_free list_free
count_free-list_free zero j xs s = omega arith
count_free-list_free (suc left) j xs s =
    ground (arith, count_free-list_free left (j + 1) xs (if get_or xs j false then s else s + 1))

-- Only the offsets that are looked at matter.
pub list_free_ext :
    (left j : ℕ) (xs ys : List Bool)
    → ((i : ℕ) → j ≤ i → i < j + left → get_or xs i false ≡ get_or ys i false)
    → list_free left j xs ≡ list_free left j ys
unfolding list_free
list_free_ext zero j xs ys h = refl
list_free_ext (suc left) j xs ys h =
    rw
      (
        h j (omega arith) (omega arith),
        list_free_ext left (j + 1) xs ys (λ i a b. h i (omega arith) (omega arith)),
      )
      refl

pub get_or-set_ne :
    (xs : List Bool) (j i : ℕ) → i ≢ j → get_or (set xs j true) i false ≡ get_or xs i false
get_or-set_ne [] j i h = refl
get_or-set_ne (x ∷ xs) zero zero h = absurd (h refl)
get_or-set_ne (x ∷ xs) zero (suc i) h = refl
get_or-set_ne (x ∷ xs) (suc j) zero h = refl
get_or-set_ne (x ∷ xs) (suc j) (suc i) h = get_or-set_ne xs j i (λ e. h (ap suc e))

pub get_or-set_self :
    (xs : List Bool) (j : ℕ) → j < length xs → get_or (set xs j true) j false ≡ true
get_or-set_self [] j h = absurd (omega arith)
get_or-set_self (x ∷ xs) zero h = refl
get_or-set_self (x ∷ xs) (suc j) h = get_or-set_self xs j (omega arith)
