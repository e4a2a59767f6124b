-- ===== src/CrtSet/Best.antt =====
-- What `crt_set_resieve` counts, and that `crt_set_search_offset` keeps the best offset.
use gap_miner_v.Prelude.{
  ℕ, zero, suc, ◌+◌, ◌-◌, ◌%◌, ◌≤◌, ◌<◌, ◌≡◌, refl, arith, Bool, true, false, some, List, [], ◌∷◌,
  ltb, uint64_max, length, replicate, Bool-cases, inl, inr,
}
use mathlib.Core.Path.{subst}
use gap_miner_v.Marks.{mark_from, count_free}
use gap_miner_v.Marks.Loops.{count_free-list_free}
use gap_miner_v.Covering.Target.{Residue, cover_all}
use gap_miner_v.Covering.Target.Laws.{AllFit, uncovered, list_free-cover_all}
use gap_miner_v.CrtSet.{CrtSet, sieve, resieve, set_offset, search_from, search_offset}

abbrev pub classes_of : List ℕ → ℕ → List Residue
classes_of [] offset = []
classes_of (p ∷ primes) offset = (p, offset) ∷ classes_of primes offset

sieve-cover_all :
    (primes : List ℕ) (offset size : ℕ) (bitmap : List Bool)
    → sieve primes offset size bitmap ≡ cover_all (classes_of primes offset) size bitmap
unfolding sieve cover_all
sieve-cover_all [] offset size bitmap = refl
sieve-cover_all (p ∷ primes) offset size bitmap =
    sieve-cover_all primes offset size (mark_from size p ((p - offset % p) % p) size bitmap)

-- `crt_set_resieve` counts the numbers from the offset on, below the offset plus the size, that no
-- prime of the set divides. The primes are positive, and the size plus a prime fits 64 bits.
pub resieve_lem :
    (cs : CrtSet)
    → AllFit cs.size (classes_of cs.primes cs.offset)
    → (resieve cs).n_candidates ≡ length (uncovered (classes_of cs.primes cs.offset) cs.size 0)
unfolding resieve
resieve_lem cs fit =
    rw
      (
        sieve-cover_all cs.primes cs.offset cs.size (replicate cs.size false),
        count_free-list_free cs.size 0
            (cover_all (classes_of cs.primes cs.offset) cs.size (replicate cs.size false)) 0,
        list_free-cover_all (classes_of cs.primes cs.offset) cs.size cs.size 0 fit (omega arith),
      )
      (omega arith)

-- No offset of a list leaves fewer candidates than `n`.
abbrev pub AtMostAll : ℕ → CrtSet → List ℕ → Type 0
AtMostAll n cs [] = Unit {0}
AtMostAll n cs (candidate ∷ drawn) =
    (n ≤ (resieve (set_offset cs candidate)).n_candidates) × AtMostAll n cs drawn

count_free-le : (left j : ℕ) (bitmap : List Bool) (s : ℕ) → count_free left j bitmap s ≤ left + s
unfolding count_free
count_free-le zero j bitmap s = omega arith
count_free-le (suc left) j bitmap s =
    ground (arith, count_free-le left (j + 1) bitmap s, count_free-le left (j + 1) bitmap (s + 1))

candidates_le : (cs : CrtSet) → (resieve cs).n_candidates ≤ cs.size
unfolding resieve
candidates_le cs =
    omega (
      arith,
      count_free-le cs.size 0 (sieve cs.primes cs.offset cs.size (replicate cs.size false)) 0,
    )

-- An offset leaves at most `n` candidates, and no offset of a list leaves fewer than it.
abbrev Keeps : CrtSet → ℕ → List ℕ → ℕ → Type 0
Keeps cs n drawn r =
    ((resieve (set_offset cs r)).n_candidates ≤ n)
    × AtMostAll (resieve (set_offset cs r)).n_candidates cs drawn

search_better :
    (cs : CrtSet) (candidate : ℕ) (drawn : List ℕ) (n best : ℕ)
    → ltb (resieve (set_offset cs candidate)).n_candidates n ≡ true
    → search_from cs drawn (resieve (set_offset cs candidate)).n_candidates candidate
      ≡ search_from cs (candidate ∷ drawn) n best
unfolding search_from
search_better cs candidate drawn n best e = rw e refl

search_worse :
    (cs : CrtSet) (candidate : ℕ) (drawn : List ℕ) (n best : ℕ)
    → ltb (resieve (set_offset cs candidate)).n_candidates n ≡ false
    → search_from cs drawn n best ≡ search_from cs (candidate ∷ drawn) n best
unfolding search_from
search_worse cs candidate drawn n best e = rw e refl

search_from_lem :
    (cs : CrtSet) (drawn : List ℕ) (n best : ℕ)
    → (resieve (set_offset cs best)).n_candidates ≡ n
    → Keeps cs n drawn (search_from cs drawn n best)
search_from_lem cs [] n best e = (unfold search_from in omega arith, tt)
search_from_lem cs (candidate ∷ drawn) n best e =
    elim (Bool-cases (ltb (resieve (set_offset cs candidate)).n_candidates n)) [
      | inl better ↦
          let kept =
            search_from_lem cs drawn (resieve (set_offset cs candidate)).n_candidates candidate
              refl in
          subst (Keeps cs n (candidate ∷ drawn)) (search_better cs candidate drawn n best better)
            (ground (arith, kept.0), (kept.0, kept.1))
      | inr worse ↦
          let kept = search_from_lem cs drawn n best e in
          subst (Keeps cs n (candidate ∷ drawn)) (search_worse cs candidate drawn n best worse)
            (kept.0, (ground (arith, kept.0), kept.1))
    ]

-- `crt_set_search_offset` ends with an offset that leaves no more candidates than any that it drew,
-- for a window below UINT64_MAX.
pub search_offset_lem :
    (cs : CrtSet) (candidate : ℕ) (drawn : List ℕ)
    → cs.size < uint64_max
    → (best : CrtSet) × (search_offset cs (candidate ∷ drawn) ≡ some best)
      × AtMostAll best.n_candidates cs (candidate ∷ drawn)
unfolding search_offset
search_offset_lem cs candidate drawn h =
    let kept =
      search_from_lem cs drawn (resieve (set_offset cs candidate)).n_candidates candidate refl in
    (
      resieve (set_offset cs (search_from cs (candidate ∷ drawn) uint64_max cs.offset)),
      refl,
      subst (λ r. AtMostAll (resieve (set_offset cs r)).n_candidates cs (candidate ∷ drawn))
          (search_better cs candidate drawn uint64_max cs.offset
            (first (in_window (candidates_le (set_offset cs candidate)))))
          (kept.0, kept.1),
    )
  where
    first : {n : ℕ} → n ≤ cs.size → ltb n uint64_max ≡ true
    first below = ground arith

    in_window : {n : ℕ} → n ≤ (set_offset cs candidate).size → n ≤ cs.size
    in_window below = unfold set_offset in below
