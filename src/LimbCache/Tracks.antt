-- ===== src/LimbCache/Tracks.antt =====
-- The limb cache of new_src/worker_gpu.c holds the candidate that it last moved to, and the answers are
-- those of a test without the cache.
use mathlib.Core.Path.{subst}
use mathlib.Core.Bool.{false≢true}
use gap_miner_v.Prelude.{
  ℕ, ◌+◌, ◌-◌, ◌*◌, ◌^◌, ◌≤◌, ◌<◌, ◌≡◌, ◌∙◌, ◌⊎◌, refl, sym, ap, arith, Bool, true, false, ◌&&◌,
  List, [], ◌∷◌, ltb, leb, ◌==◌, take, length, if◌then◌else◌, Bool-cases, inl, inr, ltb→lt, lt→ltb,
  leb→le, if-true, if-false,
}
use gap_miner_v.Prelude.Arith.{mod_of_lt}
use gap_miner_v.Gmp.{Gmp}
use gap_miner_v.Primality.Limbs.Value.{value, AllWords, weight, value-lt}
use gap_miner_v.Primality.Limbs.Radix.{weight-power}
use gap_miner_v.Primality.Limbs.{max_limbs}
use gap_miner_v.Primality.Window.{euler_test_nlimbs}
use gap_miner_v.Primality.Adapters.{
  limbs_effective_nl, limbs_add_u64, limbs_export, euler_limbs_mpz,
}
use gap_miner_v.Primality.Adapters.Adds.{limbs_add_u64_lem}
use gap_miner_v.Primality.Adapters.Export.{ExportsWords, limbs_export_fits, limbs_export_over}
use gap_miner_v.Primality.Big.{euler_quick_probable_prime}
use gap_miner_v.LimbCache.{LimbCache, cache_refill, cache_euler}

-- Limbs of one length and one value are the same.
value-same :
    (a b : List ℕ) → AllWords a → AllWords b → length a ≡ length b → value a ≡ value b → a ≡ b
value-same [] [] ha hb l e = refl
value-same [] (y ∷ b) ha hb l e = absurd (omega arith)
value-same (x ∷ a) [] ha hb l e = absurd (omega arith)
value-same (x ∷ a) (y ∷ b) ha hb l e =
    let hx = ha.0 in
    let hy = hb.0 in
    let same : x ≡ y = omega (arith, e, hx, hy) in
    let rest = value-same a b ha.1 hb.1 (omega arith) (omega (arith, e, hx, hy)) in
    ap (λ (t : ℕ). t ∷ a) same ∙ ap (λ (t : List ℕ). y ∷ t) rest

and_left : (a b : Bool) → (a && b) ≡ true → a ≡ true
and_left a b h = ground arith

and_right : (a b : Bool) → (a && b) ≡ true → b ≡ true
and_right a b h = ground arith

-- What the cache says of itself: valid limbs are those of the base and the last offset.
abbrev pub Tracks : ℕ → LimbCache → Type 0
Tracks base cache =
    (cache.valid ≡ false)
    ⊎ (AllWords cache.limbs
        × (length cache.limbs ≡ max_limbs)
        × (value cache.limbs ≡ base + cache.last_offset))

module _ (gmp : Gmp) (mpz_export : ℕ → List ℕ) (clzll ctz : ℕ → ℕ) (enabled : Bool)
    (win_bits : ℕ) where
  -- The test of a number without a cache.
  abbrev pub number_passes : ℕ → Bool
  number_passes n =
      if enabled
      then (if ltb n (2 ^ (64 * max_limbs))
          then euler_limbs_mpz gmp mpz_export clzll ctz win_bits n
          else euler_quick_probable_prime n)
      else euler_quick_probable_prime n

  module _ (exports : ExportsWords mpz_export) (base : ℕ) (positive : 0 < base) where
    exported_answer :
        (n : ℕ)
        → 0 < n
        → n < 2 ^ (64 * max_limbs)
        → let r = limbs_export gmp mpz_export n max_limbs in
          euler_test_nlimbs clzll ctz win_bits (take r.0 r.1) r.0
          ≡ euler_limbs_mpz gmp mpz_export clzll ctz win_bits n
    unfolding euler_limbs_mpz
    exported_answer n pos h =
        let e = limbs_export_fits gmp mpz_export n max_limbs exports pos h in
        let some : ((limbs_export gmp mpz_export n max_limbs).0 == 0) ≡ false =
          let p = e.0 in ground (arith, p) in
        rw some refl

    -- The three branches of the test without a cache.
    inside_answer :
        (n : ℕ)
        → enabled ≡ true
        → ltb n (2 ^ (64 * max_limbs)) ≡ true
        → number_passes n ≡ euler_limbs_mpz gmp mpz_export clzll ctz win_bits n
    inside_answer n on h = if-true enabled _ _ on ∙ if-true (ltb n (2 ^ (64 * max_limbs))) _ _ h

    over_answer :
        (n : ℕ)
        → enabled ≡ true
        → ltb n (2 ^ (64 * max_limbs)) ≡ false
        → number_passes n ≡ euler_quick_probable_prime n
    over_answer n on h = if-true enabled _ _ on ∙ if-false (ltb n (2 ^ (64 * max_limbs))) _ _ h

    abbrev Right : ℕ → LimbCache × Bool → Type 0
    Right offset r = Tracks base r.0 × (r.1 ≡ number_passes (base + offset))

    refill_lem :
        (limbs : List ℕ) (offset : ℕ)
        → enabled ≡ true
        → Right offset (cache_refill gmp mpz_export clzll ctz enabled win_bits limbs base offset)
    unfolding cache_refill
    refill_lem limbs offset on =
        let n = base + offset in
        elim (Bool-cases (ltb n (2 ^ (64 * max_limbs)))) [
          | inl inside ↦
              let h : n < 2 ^ (64 * max_limbs) = ltb→lt n (2 ^ (64 * max_limbs)) inside in
              let e = limbs_export_fits gmp mpz_export n max_limbs exports (omega arith) h in
              let some : ((limbs_export gmp mpz_export n max_limbs).0 == 0) ≡ false =
                let p = e.0 in ground (arith, p) in
              subst (Right offset) (sym (if-false _ _ _ some)) (
                inr (e.4, e.5, e.6),
                exported_answer n (omega arith) h ∙ sym (inside_answer n on inside),
              )
          | inr over ↦
              let h : 2 ^ (64 * max_limbs) ≤ n = ground arith in
              let none : ((limbs_export gmp mpz_export n max_limbs).0 == 0) ≡ true =
                let p = limbs_export_over gmp mpz_export n max_limbs h in ground (arith, p) in
              subst (Right offset) (sym (if-true _ _ _ none))
                (inl refl, sym (over_answer n on over))
        ]

    -- Limbs of the next candidate answer as freshly exported ones.
    limbs_answer :
        (limbs : List ℕ) (n : ℕ)
        → enabled ≡ true
        → 0 < n
        → AllWords limbs
        → length limbs ≡ max_limbs
        → value limbs ≡ n
        → let nlimbs = limbs_effective_nl limbs max_limbs in
          euler_test_nlimbs clzll ctz win_bits (take nlimbs limbs) nlimbs ≡ number_passes n
    limbs_answer limbs n on pos hl size v =
        let h : n < 2 ^ (64 * max_limbs) =
          let l = subst (λ (k : ℕ). value limbs < weight k) size (value-lt limbs hl) in
          omega (arith, l, v, weight-power max_limbs) in
        let e = limbs_export_fits gmp mpz_export n max_limbs exports pos h in
        let r = limbs_export gmp mpz_export n max_limbs in
        let same : limbs ≡ r.1 = value-same limbs r.1 hl e.4 (size ∙ sym e.5) (v ∙ sym e.6) in
        let test : List ℕ → ℕ → Bool = λ l k. euler_test_nlimbs clzll ctz win_bits (take k l) k in
        ap (λ (l : List ℕ). test l (limbs_effective_nl l max_limbs)) same
        ∙ (ap (λ (k : ℕ). test r.1 k) (sym e.7)
            ∙ (exported_answer n pos h
                ∙ sym (inside_answer n on (lt→ltb n (2 ^ (64 * max_limbs)) h))))

    abbrev added_to : LimbCache → ℕ → List ℕ × Bool
    added_to cache offset =
        let delta = offset - cache.last_offset in
        let same : List ℕ × Bool = (cache.limbs, true) in
        if delta == 0 then same else limbs_add_u64 cache.limbs delta

    -- The increment: the limbs of the candidate at `offset`, unless a carry is left.
    added_lem :
        (cache : LimbCache) (offset : ℕ)
        → AllWords cache.limbs
        → length cache.limbs ≡ max_limbs
        → value cache.limbs ≡ base + cache.last_offset
        → cache.last_offset ≤ offset
        → offset < 2 ^ 64
        → (added_to cache offset).1 ≡ true
        → AllWords (added_to cache offset).0
          × (length (added_to cache offset).0 ≡ max_limbs)
          × (value (added_to cache offset).0 ≡ base + offset)
    added_lem cache offset hl size v le word ok =
        elim (Bool-cases (offset - cache.last_offset == 0)) [
          | inl still ↦
              let z : offset ≡ cache.last_offset = ground arith in
              subst
                (λ (t : List ℕ × Bool).
                  AllWords t.0 × (length t.0 ≡ max_limbs) × (value t.0 ≡ base + offset))
                (sym (if-true _ _ _ still)) (hl, size, omega (arith, v, z))
          | inr moved ↦
              let delta = offset - cache.last_offset in
              let branch =
                if-false (offset - cache.last_offset == 0) (cache.limbs, true)
                  (limbs_add_u64 cache.limbs delta) moved in
              let r = limbs_add_u64_lem cache.limbs delta hl (omega (arith, size)) (omega arith) in
              let fits : value cache.limbs + delta < 2 ^ (64 * length cache.limbs) =
                ltb→lt (value cache.limbs + delta) (2 ^ (64 * length cache.limbs))
                  (sym r.2 ∙ (ap (λ (t : List ℕ × Bool). t.1) (sym branch) ∙ ok)) in
              subst
                (λ (t : List ℕ × Bool).
                  AllWords t.0 × (length t.0 ≡ max_limbs) × (value t.0 ≡ base + offset))
                (sym branch)
                (
                  r.0,
                  r.1 ∙ size,
                  r.3
                      ∙ (mod_of_lt (value cache.limbs + delta) (2 ^ (64 * length cache.limbs)) fits
                          ∙ omega (arith, v, le)),
                )
        ]

    -- One call, whatever the cache did before: it tracks the new candidate, and the answer is the one
    -- without a cache.
    pub cache_euler_lem :
        (cache : LimbCache) (offset : ℕ)
        → Tracks base cache
        → offset < 2 ^ 64
        → Right offset (cache_euler gmp mpz_export clzll ctz enabled win_bits cache base offset)
    unfolding cache_euler
    cache_euler_lem cache offset tracks word = elim (Bool-cases enabled) [
      | inr off ↦
          subst (Right offset) (sym (if-false _ _ _ off)) (tracks, sym (if-false enabled _ _ off))
      | inl on ↦ elim (Bool-cases (cache.valid && leb cache.last_offset offset)) [
        | inr miss ↦
            subst (Right offset) (sym (if-true _ _ _ on ∙ if-false _ _ _ miss))
              (refill_lem cache.limbs offset on)
        | inl hit ↦ elim (Bool-cases (added_to cache offset).1) [
          | inr over ↦
              subst (Right offset)
                (sym (if-true _ _ _ on ∙ (if-true _ _ _ hit ∙ if-false _ _ _ over)))
                (refill_lem (added_to cache offset).0 offset on)
          | inl ok ↦ elim tracks [
            | inl not_valid ↦ absurd (false≢true (sym not_valid ∙ and_left _ _ hit))
            | inr held ↦
                let some : 0 < base + offset = omega arith in
                let le : cache.last_offset ≤ offset = leb→le _ _ (and_right _ _ hit) in
                let next = added_lem cache offset held.0 held.1 held.2 le word ok in
                subst (Right offset)
                  (sym (if-true _ _ _ on ∙ (if-true _ _ _ hit ∙ if-true _ _ _ ok)))
                  (
                    inr next,
                    limbs_answer (added_to cache offset).0 (base + offset) on some next.0 next.1
                        next.2,
                  )
          ]
        ]
      ]
    ]
