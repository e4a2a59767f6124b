-- ===== src/CrtRuntime/Survivors.antt =====
-- The survivors of a template of new_src/crt_runtime.c against divisibility behind an aligned base.
use gap_miner_v.Prelude.{
  ℕ, zero, suc, ◌+◌, ◌-◌, ◌*◌, ◌%◌, ◌≢◌, Bool, false, not, ◌&&◌, ◌||◌, List, [], ◌∷◌, ◌==◌,
  if◌then◌else◌,
}
use gap_miner_v.Covering.Target.{Residue}
use gap_miner_v.CrtRuntime.{CrtRuntime}

-- An odd prime of the runtime divides `x`.
abbrev pub odd_prime_divides : List Residue → ℕ → Bool
odd_prime_divides [] x = false
odd_prime_divides ((p, o) ∷ primes) x = (not (p == 2) && (x % p == 0)) || odd_prime_divides primes x

-- The odd offsets `t` from `2 * s + 1` on, `left` of them, for which no odd prime of the runtime divides
-- `start + t - adj`.
abbrev pub open_offsets : List Residue → ℕ → ℕ → ℕ → ℕ → List ℕ
open_offsets primes start adj zero s = []
open_offsets primes start adj (suc left) s =
    let rest = open_offsets primes start adj left (s + 1) in
    let t = 2 * s + 1 in if odd_prime_divides primes (start + t - adj) then rest else t ∷ rest

-- The offset of every prime is not 0, so that the alignment solves its congruence.
abbrev pub AllUsed : List Residue → Type 0
AllUsed [] = Unit {0}
AllUsed ((p, o) ∷ primes) = (o ≢ 0) × AllUsed primes
