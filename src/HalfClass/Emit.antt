-- ===== src/HalfClass/Emit.antt =====
-- The gaps that new_src/halfclass.c reports from chains of primes, and the resolution of gaps and
-- prefixes.
use gap_miner_v.Prelude.{
  ℕ, ◌+◌, ◌-◌, ◌%◌, Bool, ◌||◌, Option, none, List, [], ◌∷◌, ◌++◌, map, leb, ◌==◌, u32,
  if◌then◌else◌,
}
use gap_miner_v.Gmp.{Gmp}
use gap_miner_v.GapDetection.{Floats, GapResult, compute_merit}
use gap_miner_v.HalfClass.{HalfclassTpl, class_of, collect_hidden}

module _ (floats : Floats) (gmp : Gmp) where
  -- The loop over a chain behind its first prime.
  unfoldable pub emit_from : ℕ → ℕ → floats.Double → ℕ → List ℕ → List (GapResult floats.Double)
  emit_from base owned_offset_limit merit_threshold prev [] = []
  emit_from base owned_offset_limit merit_threshold prev (next ∷ chain) =
      let rest = emit_from base owned_offset_limit merit_threshold next chain in
      let merit = compute_merit floats gmp (u32 (next - prev)) (base + prev) in
      if leb owned_offset_limit prev || leb next prev
      then rest
      else if floats.le merit_threshold merit
      then record {
        offset_p1 = prev;
        offset_p2 = next;
        gap_length = u32 (next - prev);
        merit = merit;
        verified = 0;
      }
        ∷ rest
      else rest

  unfoldable pub emit_chain : ℕ → List ℕ → ℕ → floats.Double → List (GapResult floats.Double)
  unfolding emit_from
  emit_chain base [] owned_offset_limit merit_threshold = []
  emit_chain base (prev ∷ chain) owned_offset_limit merit_threshold =
      emit_from base owned_offset_limit merit_threshold prev chain

  unfoldable pub emit_resolved :
      ℕ → ℕ → ℕ → List ℕ → ℕ → floats.Double → List (GapResult floats.Double)
  unfolding emit_chain
  emit_resolved base off_a off_b hid owned_offset_limit merit_threshold =
      if leb off_b off_a
      then []
      else emit_chain base (off_a ∷ (map (λ (off : ℕ). off_a + off) hid ++ (off_b ∷ [])))
          owned_offset_limit merit_threshold

  unfoldable pub resolve_gap_ex :
      (ℕ → ℕ → Bool)
      → Bool
      → List ℕ
      → ℕ
      → ℕ
      → ℕ
      → ℕ
      → floats.Double
      → Option HalfclassTpl
      → List (GapResult floats.Double)
  unfolding collect_hidden emit_resolved
  resolve_gap_ex probab_prime quarter primes base off_a off_b owned_offset_limit merit_threshold
        tpl =
      let sub_mod60 = class_of (base % 60) off_a in
      let hid =
        collect_hidden probab_prime quarter primes (base + off_a) (off_b - off_a) sub_mod60 off_a
          tpl 15 10000 in
      if leb off_b off_a
      then []
      else emit_resolved base off_a off_b hid owned_offset_limit merit_threshold

  unfoldable pub resolve_gap :
      (ℕ → ℕ → Bool)
      → Bool
      → List ℕ
      → ℕ
      → ℕ
      → ℕ
      → ℕ
      → floats.Double
      → List (GapResult floats.Double)
  unfolding resolve_gap_ex
  resolve_gap probab_prime quarter primes base off_a off_b owned_offset_limit merit_threshold =
      resolve_gap_ex probab_prime quarter primes base off_a off_b owned_offset_limit merit_threshold
        none

  unfoldable pub verify_prefix_ex :
      (ℕ → ℕ → Bool)
      → Bool
      → List ℕ
      → ℕ
      → ℕ
      → Bool
      → ℕ
      → floats.Double
      → Option HalfclassTpl
      → List (GapResult floats.Double)
  unfolding collect_hidden emit_chain
  verify_prefix_ex probab_prime quarter primes base off_v0 terminal_is_prime owned_offset_limit
        merit_threshold tpl =
      let hid = collect_hidden probab_prime quarter primes base off_v0 (base % 60) 0 tpl 8 1300 in
      let last : List ℕ = if terminal_is_prime then off_v0 ∷ [] else [] in
      if off_v0 == 0 then [] else emit_chain base (hid ++ last) owned_offset_limit merit_threshold

  unfoldable pub verify_prefix :
      (ℕ → ℕ → Bool)
      → Bool
      → List ℕ
      → ℕ
      → ℕ
      → Bool
      → ℕ
      → floats.Double
      → List (GapResult floats.Double)
  unfolding verify_prefix_ex
  verify_prefix probab_prime quarter primes base off_v0 terminal_is_prime owned_offset_limit
        merit_threshold =
      verify_prefix_ex probab_prime quarter primes base off_v0 terminal_is_prime owned_offset_limit
        merit_threshold none
