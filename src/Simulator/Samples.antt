-- ===== src/Simulator/Samples.antt =====
-- The laws of the literals at the numbers in hundredths.
use flood_monitoring_and_man.Common.{ℕ, ◌*◌, true, ltb, leb, ◌≡◌, refl, arith}
use flood_monitoring_and_man.Samples.{hundredths}
use flood_monitoring_and_man.Simulator.Params.{LiteralLaws}
use flood_monitoring_and_man.Simulator.Demos.Accepted.{DecimalLaws}

lt-num : (a b : ℕ) → ltb (a * 100) (b * 100) ≡ ltb a b
lt-num a b = ground arith

le-of-lt : (a b : ℕ) → ltb a b ≡ true → leb a b ≡ true
le-of-lt a b h = ground arith

pub literals : LiteralLaws ℕ
literals = record {
  lt-num = lt-num;
  zero-lt-max_degrees = refl;
  max_degrees-lt-full = refl;
  le-of-lt = le-of-lt;
}

abbrev pub tenths : ℕ → ℕ
tenths n = n * 10

pub decimals : DecimalLaws ℕ tenths
decimals = record {
  nonneg-tenths = λ n. ground arith;
  tenths-below = λ n. ground arith;
  nonneg-num = λ n. ground arith;
  nonneg-add = λ a b h k. ground arith;
  nonneg-mul = λ a b h k. ground arith;
}
