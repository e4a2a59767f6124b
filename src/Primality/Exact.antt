-- ===== src/Primality/Exact.antt =====
-- The tests of one limb in new_src/primality_limbs.c with 128-bit products: fermat_u64_exact and
-- euler_u64.
pub mod Powers
use gap_miner_v.Prelude.{
  ℕ, zero, suc, ◌-◌, ◌*◌, ◌/◌, ◌%◌, Bool, true, false, ◌||◌, ltb, leb, ◌==◌, u64, if◌then◌else◌,
}

-- `while (e)`, with fuel: 64 rounds shift every bit out.
unfoldable pub exact_loop : ℕ → ℕ → ℕ → ℕ → ℕ → ℕ
exact_loop zero n e acc base = acc
exact_loop (suc fuel) n e acc base =
    let rest =
      exact_loop fuel n (e / 2) (if e % 2 == 1 then u64 ((acc * base) % n) else acc)
        (u64 ((base * base) % n)) in
    if e == 0 then acc else rest

unfoldable pub fermat_u64_exact : ℕ → Bool
unfolding exact_loop
fermat_u64_exact n =
    let acc = exact_loop 64 n (n - 1) (1 % n) (2 % n) in
    if ltb n 4 then leb 2 n else if n % 2 == 0 then false else acc == 1

unfoldable pub euler_u64 : ℕ → Bool
unfolding exact_loop
euler_u64 n =
    let acc = exact_loop 64 n ((n - 1) / 2) 1 (2 % n) in
    if ltb n 4 then leb 2 n else if n % 2 == 0 then false else (acc == 1) || (acc == n - 1)
