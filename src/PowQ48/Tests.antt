-- ===== src/PowQ48/Tests.antt =====
-- new_src/pow_q48.c on concrete numbers.
use gap_miner_v.Prelude.{ℕ, ◌+◌, ◌-◌, ◌*◌, ◌^◌, ◌≤◌, ◌<◌, ◌≡◌, refl, arith, some, false, List}
use gap_miner_v.Gmp.Model.{model, bits_go, bytes_go}
use gap_miner_v.PowQ48.Log2.{mpz_log2}
use gap_miner_v.PowQ48.Log2.Sound.{mpz_log2_lem}
use gap_miner_v.PowQ48.Merit.{
  reject, merit, min_gap_merit, target_size, classify, span_may_qualify, reject_bound,
}
use gap_miner_v.PowQ48.Bytes.{low64}
use gap_miner_v.PowQ48.Certify.{span_may_qualify-reject}
use gap_miner_v.PowQ48.TargetSize.{target_size-merit}

-- A stand-in for the hash: the input itself.
abbrev no_hash : List ℕ → List ℕ
no_hash bytes = bytes

log2_of_ten : mpz_log2 model 10 8 ≡ some 850
unfolding mpz_log2 bits_go
log2_of_ten = refl

no_gap : span_may_qualify model 1000003 100 (60 * 2 ^ 48) ≡ some false
unfolding span_may_qualify reject_bound min_gap_merit mpz_log2 bits_go bytes_go low64
no_gap = refl

mpz_log2_lem_example :
    (r : ℕ) × (mpz_log2 model 10 8 ≡ some r)
    × ((model.sizeinbase2 10 - 1) * 2 ^ 8 ≤ r)
    × (r < model.sizeinbase2 10 * 2 ^ 8)
    × (2 ^ r ≤ 10 ^ (2 ^ 8))
unfolding bits_go
mpz_log2_lem_example = mpz_log2_lem model 10 8 (omega arith) (omega arith)

span_may_qualify-reject_example :
    classify model no_hash 1000003 (1000003 + 20) (60 * 2 ^ 48) ≡ some reject
unfolding bits_go
span_may_qualify-reject_example =
    span_may_qualify-reject model no_hash 1000003 (1000003 + 20) 100 (60 * 2 ^ 48) (omega arith)
      (omega arith) (omega arith) no_gap

target_size-merit_example :
    (n q : ℕ) × (target_size model 1000003 (20 * 2 ^ 48) ≡ some n)
    × (merit model 1000003 (1000003 + 200000) ≡ some q)
    × (1000003 + 200000 - 1000003 < n → q < 20 * 2 ^ 48)
    × (n < 1000003 + 200000 - 1000003 → 20 * 2 ^ 48 ≤ q)
unfolding bits_go
target_size-merit_example =
    target_size-merit model 1000003 (1000003 + 200000) (20 * 2 ^ 48) (omega arith) (omega arith)
      (omega arith) (omega arith) (omega arith) (omega arith)
