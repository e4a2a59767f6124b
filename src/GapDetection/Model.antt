-- ===== src/GapDetection/Model.antt =====
-- An instance of the interface for examples: a double is a natural number, and a logarithm the number
-- itself.
use gap_miner_v.Prelude.{ℕ, ◌+◌, ◌*◌, ◌/◌, ltb, leb}
use gap_miner_v.GapDetection.{Floats}

abbrev pub naturals : Floats
naturals = record {
  Double = ℕ;
  zero_double = 0;
  ln_two = 1;
  of_nat = λ n. n;
  le = leb;
  lt = ltb;
  add = λ a b. a + b;
  mul = λ a b. a * b;
  div = λ a b. a / b;
  log = λ a. a;
  log2 = λ a. a;
}
