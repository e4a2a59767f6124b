-- ===== src/Covering/Cover/Count.antt =====
-- The coverage that new_src/covering.c builds, offset by offset, and its counts.
use native.Mathlib.Decide.{dec_lt}
use gap_miner_v.Prelude.{
  ℕ, zero, suc, ◌+◌, ◌-◌, ◌%◌, ◌^◌, ◌≤◌, ◌<◌, ◌≡◌, refl, sym, ap, ◌∙◌, arith, Bool, false, ◌||◌,
  List, [], ◌∷◌, ltb, ◌==◌, get_or, length, length-replicate, if◌then◌else◌, Bool-cases, inl, inr,
}
use gap_miner_v.Prelude.Arith.{mod_of_lt, mod_of_ge}
use gap_miner_v.Marks.{list_free, hits}
use gap_miner_v.Marks.Loops.{get_or-mark_from, length-mark_from, count_free-list_free}
use gap_miner_v.Covering.Target.{Residue}
use gap_miner_v.Covering.Target.Laws.{
  covered_by, AllFit, uncovered, hits_first, get_or-replicate, cover_step,
}
use gap_miner_v.Covering.Cover.{
  first_hit, mark_cover, count_survivors, mark_all, fresh, covering_count_survivors,
  covering_survivors,
}

hits_skip : (p n i : ℕ) → 0 < p → 1 ≤ i → hits p p n i ≡ hits p 0 n i
hits_skip p n i pos one = elim (dec_lt i p) [
  | yes near ↦ ground (arith, mod_of_lt (i - 0) p)
  | no far ↦ ground (arith, mod_of_ge (i - 0) p, same)
]
  where
    same : (i - 0 - p) % p ≡ (i - p) % p
    same = ap (λ (k : ℕ). k % p) (omega arith)

-- Skipping offset 0 changes nothing for the offsets from 1 on.
hits-first_hit :
    (p r n i : ℕ) → 0 < p → 1 ≤ i → i < n → hits p (first_hit p r) n i ≡ ((r + i) % p == 0)
unfolding first_hit
hits-first_hit p r n i pos one h = elim (Bool-cases ((p - r % p) % p == 0)) [
  | inl z ↦
      let e : (p - r % p) % p ≡ 0 = ground arith in
      rw z (hits_skip p n i pos one ∙ (ap (λ k. hits p k n i) (sym e) ∙ hits_first p r n i pos h))
  | inr f ↦ rw f (hits_first p r n i pos h)
]

pub first_hit_pos : (p r : ℕ) → 0 < p → 1 ≤ first_hit p r
unfolding first_hit
first_hit_pos p r pos = ground arith

length-mark_cover :
    (n : ℕ) (xs : List Bool) (pr : Residue) → length (mark_cover n xs pr) ≡ length xs
unfolding mark_cover
length-mark_cover n xs (p, r) = length-mark_from n p (first_hit p r) n xs

pub get_or-mark_cover :
    (n : ℕ) (xs : List Bool) (p r i : ℕ)
    → 0 < p
    → n + p ≤ 2 ^ 64
    → n ≤ length xs
    → 1 ≤ i
    → i < n
    → get_or (mark_cover n xs (p, r)) i false ≡ (((r + i) % p == 0) || get_or xs i false)
unfolding mark_cover
get_or-mark_cover n xs p r i pos fits len one h =
    get_or-mark_from n p (first_hit p r) n xs i pos fits len (omega arith)
    ∙ rw (hits-first_hit p r n i pos one h) refl

pub length-mark_all :
    (n : ℕ) (ps : List Residue) (xs : List Bool) → length (mark_all n ps xs) ≡ length xs
unfolding mark_all
length-mark_all n [] xs = refl
length-mark_all n (pr ∷ ps) xs =
    length-mark_all n ps (mark_cover n xs pr) ∙ length-mark_cover n xs pr

-- Marking all classes covers what was covered and what some class holds.
pub get_or-mark_all :
    (n : ℕ) (ps : List Residue) (xs : List Bool) (i : ℕ)
    → AllFit n ps
    → n ≤ length xs
    → 1 ≤ i
    → i < n
    → get_or (mark_all n ps xs) i false ≡ (covered_by ps i || get_or xs i false)
unfolding mark_all
get_or-mark_all n [] xs i fit len one h = refl
get_or-mark_all n ((p, r) ∷ ps) xs i fit len one h =
    get_or-mark_all n ps (mark_cover n xs (p, r)) i fit.2
      (omega (arith, length-mark_cover n xs (p, r))) one h
    ∙ rw (get_or-mark_cover n xs p r i fit.0 fit.1 len one h)
        (cover_step (covered_by ps i) ((r + i) % p == 0) (get_or xs i false))

pub get_or-fresh :
    (n : ℕ) (ps : List Residue) (i : ℕ)
    → AllFit n ps
    → 1 ≤ i
    → i < n
    → get_or (mark_all n ps (fresh n)) i false ≡ covered_by ps i
get_or-fresh n ps i fit one h =
    get_or-mark_all n ps (fresh n) i fit (omega (arith, length-replicate n false)) one h
    ∙ rw (get_or-replicate n i) (or_false (covered_by ps i))
  where
    or_false : (b : Bool) → (b || false) ≡ b
    or_false b = ground arith

list_free-mark_all :
    (ps : List Residue) (n left j : ℕ)
    → AllFit n ps
    → 1 ≤ j
    → j + left ≤ n
    → list_free left j (mark_all n ps (fresh n)) ≡ uncovered ps left j
unfolding list_free
list_free-mark_all ps n zero j fit one h = refl
list_free-mark_all ps n (suc left) j fit one h =
    rw
      (
        get_or-fresh n ps j fit one (omega arith),
        list_free-mark_all ps n left (j + 1) fit (omega arith) (omega arith),
      )
      refl

-- `covering_survivors` writes exactly the offsets from 1 below the target that no class covers, in
-- order, and `covering_count_survivors` returns their number; both give nothing without primes.
pub covering_survivors_lem :
    (ps : List Residue) (n : ℕ)
    → AllFit n ps
    → (covering_survivors ps n
        ≡ (if (length ps == 0) || ltb n 2 then [] else uncovered ps (n - 1) 1))
      × (covering_count_survivors ps n ≡ length (covering_survivors ps n))
unfolding covering_survivors covering_count_survivors count_survivors
covering_survivors_lem ps n fit = elim (Bool-cases ((length ps == 0) || ltb n 2)) [
  | inl e ↦ rw e (refl, refl)
  | inr e ↦ rw e (
    list_free-mark_all ps n (n - 1) 1 fit (omega arith) (ground arith),
    count_free-list_free (n - 1) 1 (mark_all n ps (fresh n)) 0 ∙ omega arith,
  )
]
