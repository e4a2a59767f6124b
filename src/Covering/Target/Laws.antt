-- ===== src/Covering/Target/Laws.antt =====
-- The survivors of a gap target, and what a passed check says of every offset of the gap.
use native.Mathlib.Decide.{dec_lt}
use native.Mathlib.Nat.{mod-add-mod, mod-lt}
use gap_miner_v.Prelude.{
  ℕ, zero, suc, ◌+◌, ◌-◌, ◌%◌, ◌^◌, ◌≤◌, ◌<◌, ◌≡◌, refl, ap, ◌∙◌, arith, Bool, false, ◌||◌, List,
  [], ◌∷◌, ◌==◌, get_or, length, length-replicate, replicate, if◌then◌else◌,
}
use gap_miner_v.Prelude.Arith.{mod_of_lt, mod_of_ge}
use gap_miner_v.Marks.{mark_from, list_free, hits}
use gap_miner_v.Marks.Loops.{get_or-mark_from, length-mark_from}
use gap_miner_v.Covering.Target.{Residue, cover_all}

-- Some prime of the list divides its residue plus `j`.
abbrev pub covered_by : List Residue → ℕ → Bool
covered_by [] j = false
covered_by ((p, r) ∷ rest) j = ((r + j) % p == 0) || covered_by rest j

-- What the loops need of the primes: no division by zero, no overflow of `j += p`.
abbrev pub AllFit : ℕ → List Residue → Type 0
AllFit n [] = Unit {0}
AllFit n ((p, r) ∷ rest) = (0 < p) × (n + p ≤ 2 ^ 64) × AllFit n rest

hits_zero : (p n i : ℕ) → i < n → hits p 0 n i ≡ ((0 + i) % p == 0)
hits_zero p n i h =
    let e : (0 + i) % p ≡ (i - 0) % p = ap (λ (k : ℕ). k % p) (omega arith) in rw e (ground arith)

hits_place : (p s n i : ℕ) → 0 < s → s < p → i < n → hits p (p - s) n i ≡ ((s + i) % p == 0)
hits_place p s n i pos h below = elim (dec_lt (s + i) p) [
  | yes near ↦ rw (mod_of_lt (s + i) p near) (ground arith)
  | no far ↦ rw (mod_of_ge (s + i) p (omega arith), same (omega arith)) (ground arith)
]
  where
    same : p ≤ s + i → (s + i - p) % p ≡ (i - (p - s)) % p
    same k = ap (λ (t : ℕ). t % p) (omega arith)

-- The first offset that the loop marks, `(p - r) % p`, starts the class of the offsets that the
-- prime divides.
pub hits_first : (p r n i : ℕ) → 0 < p → i < n → hits p ((p - r % p) % p) n i ≡ ((r + i) % p == 0)
hits_first p r n i pos h = rw (← mod-add-mod r p i) (elim (dec_lt 0 (r % p)) [
  | yes s ↦ rw (mod_of_lt (p - r % p) p (omega arith)) (hits_place p (r % p) n i s (mod-lt r pos) h)
  | no z ↦ let e : r % p ≡ 0 = omega arith in rw (e, mod_self p pos) (hits_zero p n i h)
])
  where
    mod_self : (q : ℕ) → 0 < q → (q - 0) % q ≡ 0
    mod_self q k =
        omega (arith, mod_of_ge (q - 0) q (omega arith), mod_of_lt (q - 0 - q) q (omega arith))

pub cover_step : (a b c : Bool) → (a || (b || c)) ≡ ((b || a) || c)
cover_step a b c = ground arith

length-cover_all :
    (ps : List Residue) (n : ℕ) (xs : List Bool) → length (cover_all ps n xs) ≡ length xs
unfolding cover_all
length-cover_all [] n xs = refl
length-cover_all ((p, r) ∷ ps) n xs =
    length-cover_all ps n (mark_from n p ((p - r % p) % p) n xs)
    ∙ length-mark_from n p ((p - r % p) % p) n xs

-- After the loop an offset is covered if it was, or if some prime divides its residue plus it.
pub get_or-cover_all :
    (ps : List Residue) (n : ℕ) (xs : List Bool) (i : ℕ)
    → AllFit n ps
    → n ≤ length xs
    → i < n
    → get_or (cover_all ps n xs) i false ≡ (covered_by ps i || get_or xs i false)
unfolding cover_all
get_or-cover_all [] n xs i fit len h = refl
get_or-cover_all ((p, r) ∷ ps) n xs i fit len h =
    get_or-cover_all ps n (mark_from n p ((p - r % p) % p) n xs) i fit.2
      (omega (arith, length-mark_from n p ((p - r % p) % p) n xs)) h
    ∙ rw
        (
          get_or-mark_from n p ((p - r % p) % p) n xs i fit.0 fit.1 len (omega arith),
          hits_first p r n i fit.0 h,
        )
        (cover_step (covered_by ps i) ((r + i) % p == 0) (get_or xs i false))

-- The reference: the offsets from `j` on that no prime covers, in order.
abbrev pub uncovered : List Residue → ℕ → ℕ → List ℕ
uncovered ps zero j = []
uncovered ps (suc left) j =
    let rest = uncovered ps left (j + 1) in if covered_by ps j then rest else j ∷ rest

pub get_or-replicate : (n i : ℕ) → get_or (replicate n false) i false ≡ false
get_or-replicate zero i = refl
get_or-replicate (suc n) zero = refl
get_or-replicate (suc n) (suc i) = get_or-replicate n i

pub list_free-cover_all :
    (ps : List Residue) (n left j : ℕ)
    → AllFit n ps
    → j + left ≤ n
    → list_free left j (cover_all ps n (replicate n false)) ≡ uncovered ps left j
unfolding list_free
list_free-cover_all ps n zero j fit h = refl
list_free-cover_all ps n (suc left) j fit h =
    rw
      (
        get_or-cover_all ps n (replicate n false) j fit (omega (arith, length-replicate n false))
            (omega arith),
        get_or-replicate n j,
        list_free-cover_all ps n left (j + 1) fit (omega arith),
      )
      (ground arith)
