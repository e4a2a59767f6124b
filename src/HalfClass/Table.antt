-- ===== src/HalfClass/Table.antt =====
-- The table of primes for the hidden classes of new_src/halfclass.c.
use gap_miner_v.Prelude.{
  ℕ, zero, suc, ◌+◌, ◌-◌, ◌*◌, ◌/◌, Bool, true, false, not, ◌&&◌, List, [], ◌∷◌, ltb, leb,
  replicate, get_or, set, if◌then◌else◌,
}

abbrev pub hidden_prime_limit : ℕ
hidden_prime_limit = 100000

-- `for (m = i * i; m <= limit; m += 2 * i)`, with fuel; the bit of an odd `m` is that of `m / 2`.
unfoldable pub mark_odd_multiples : ℕ → ℕ → ℕ → List Bool → List Bool
mark_odd_multiples zero i m bits = bits
mark_odd_multiples (suc fuel) i m bits =
    let rest = mark_odd_multiples fuel i (m + 2 * i) (set bits (m / 2) true) in
    if leb m hidden_prime_limit then rest else bits

-- `for (i = 3; i * i <= limit; i += 2)`, with fuel.
unfoldable pub sieve_odd : ℕ → ℕ → List Bool → List Bool
unfolding mark_odd_multiples
sieve_odd zero i bits = bits
sieve_odd (suc fuel) i bits =
    let marked =
      if get_or bits (i / 2) false
      then bits
      else mark_odd_multiples hidden_prime_limit i (i * i) bits in
    let rest = sieve_odd fuel (i + 2) marked in
    if leb (i * i) hidden_prime_limit then rest else bits

-- `for (; i <= limit && n < 10000; i += 2)`, with `left` primes to go.
unfoldable pub list_odd : ℕ → ℕ → ℕ → List Bool → List ℕ
list_odd zero left i bits = []
list_odd (suc fuel) left i bits =
    let skipped = list_odd fuel left (i + 2) bits in
    let listed = i ∷ list_odd fuel (left - 1) (i + 2) bits in
    if not (leb i hidden_prime_limit && ltb 0 left)
    then []
    else if get_or bits (i / 2) false
    then skipped
    else listed

unfoldable pub hidden_primes : List ℕ
unfolding sieve_odd list_odd
hidden_primes =
    list_odd (hidden_prime_limit / 2) 10000 3
      (sieve_odd hidden_prime_limit 3 (replicate ((hidden_prime_limit / 16 + 8) * 8) false))
